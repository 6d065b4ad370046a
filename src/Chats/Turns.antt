-- ===== src/Chats/Turns.antt =====
-- What one chat sees of the maps: a plain line of runs, the first of which is active.
use mcp_switchboard.Prelude.{
  ℕ, ◌≡◌, refl, ap, ◌∙◌, Bool, true, false, List, [], ◌∷◌, ◌++◌, Option, none, some, Text, Map, get,
  delete, get-set, get-delete, text_eq, text_eq_iff, any, ◌==◌, if◌then◌else◌, arith,
}
use mcp_switchboard.Chats.{
  Run, Manager, Op, submits, forgets, cancels, promotes, queue_of, store, submit, forget,
  promote_from, promote, remove, cancel, step, steps, new,
}

-- A chat: its active run, and those behind it.
pub record Line : Type 0 where
  pub active : Option ℕ
  pub behind : List ℕ

abbrev pub line : Text → Manager → Line
line chat m = record { active = get chat m.chat_active; behind = queue_of chat m.chat_queue }

-- To join a line, to have its first run leave, and to leave from behind.
abbrev pub join_line : ℕ → Line → Line
join_line i l = elim l.active [
  | none ↦ record { active = some i; behind = l.behind }
  | some a ↦ record { active = some a; behind = l.behind ++ (i ∷ []) }
]

abbrev pub advance : Line → Line
advance l = elim l.behind [
  | [] ↦ record { active = none; behind = [] }
  | next ∷ q ↦ record { active = some next; behind = q }
]

abbrev pub drop_out : ℕ → Line → Line
drop_out i l = record l { behind = remove i l.behind }

-- What an operation does to the line of a chat.
abbrev pub line_step : Text → Op → Line → Line
line_step chat (submits r) l = if text_eq r.chat chat then join_line r.id l else l
line_step chat (forgets r) l = l
line_step chat (cancels r) l = if text_eq r.chat chat then drop_out r.id l else l
line_step chat (promotes c) l = if text_eq c chat then advance l else l

queue_of-store :
    (k j : Text) (q : List ℕ) (m : Map (List ℕ))
    → queue_of j (store k q m) ≡ (if text_eq k j then q else queue_of j m)
unfolding store
queue_of-store k j [] m = ground (arith, get-delete k j m)
queue_of-store k j (x ∷ q) m = ground (arith, get-set k j (x ∷ q) m)

-- A queue that a run is not in stays as it is without it.
remove_absent : (i : ℕ) (q : List ℕ) → any (λ x. x == i) q ≡ false → remove i q ≡ q
unfolding remove
remove_absent i [] h = refl
remove_absent i (x ∷ q) h = ground (arith, remove_absent i q)

abbrev mk : Option ℕ → List ℕ → Line
mk a q = record { active = a; behind = q }

mk_eq : {a b : Option ℕ} {p q : List ℕ} → a ≡ b → p ≡ q → mk a p ≡ mk b q
mk_eq {a} {b} {p} {q} e f = rw (e, f) refl

module _ (chat : Text) (r : Run) (m : Manager) where
  submit-active :
      get chat (submit r m).chat_active ≡ (line_step chat (submits r) (line chat m)).active
  unfolding submit
  submit-active = ground (arith, get-set r.chat chat r.id m.chat_active, text_eq_iff r.chat chat)

  submit-behind :
      queue_of chat (submit r m).chat_queue ≡ (line_step chat (submits r) (line chat m)).behind
  unfolding submit
  submit-behind = ground (
    arith,
    get-set r.chat chat (queue_of r.chat m.chat_queue ++ (r.id ∷ [])) m.chat_queue,
    text_eq_iff r.chat chat,
  )

  cancel-behind :
      queue_of chat (cancel r m).chat_queue ≡ (line_step chat (cancels r) (line chat m)).behind
  unfolding cancel
  cancel-behind = ground (
    arith,
    queue_of-store r.chat chat (remove r.id (queue_of r.chat m.chat_queue)) m.chat_queue,
    remove_absent r.id (queue_of r.chat m.chat_queue),
    text_eq_iff r.chat chat,
  )

  cancel-active :
      get chat (cancel r m).chat_active ≡ (line_step chat (cancels r) (line chat m)).active
  unfolding cancel
  cancel-active = ground (arith, text_eq_iff r.chat chat)

promote_from-active :
    (chat c : Text) (q : List ℕ) (m : Manager)
    → queue_of c m.chat_queue ≡ q
    → get chat (promote_from c q m).chat_active ≡ (line_step chat (promotes c) (line chat m)).active
promote_from-active chat c [] m e =
    ground (arith, get-delete c chat m.chat_active, text_eq_iff c chat)
promote_from-active chat c (i ∷ q) m e = ground (
  arith,
  get-delete c chat m.chat_active,
  get-set c chat i (delete c m.chat_active),
  text_eq_iff c chat,
)

promote_from-behind :
    (chat c : Text) (q : List ℕ) (m : Manager)
    → queue_of c m.chat_queue ≡ q
    → queue_of chat (promote_from c q m).chat_queue
      ≡ (line_step chat (promotes c) (line chat m)).behind
promote_from-behind chat c [] m e = ground (arith, text_eq_iff c chat)
promote_from-behind chat c (i ∷ q) m e =
    ground (arith, queue_of-store c chat q m.chat_queue, text_eq_iff c chat)

-- Each operation acts on the maps as it does on the line of the one chat that it is about, and leaves
-- every other chat's line alone.
pub line-step :
    (chat : Text) (x : Op) (m : Manager) → line chat (step x m) ≡ line_step chat x (line chat m)
unfolding step promote forget
line-step chat (submits r) m = mk_eq (submit-active chat r m) (submit-behind chat r m)
line-step chat (forgets r) m = refl
line-step chat (cancels r) m = mk_eq (cancel-active chat r m) (cancel-behind chat r m)
line-step chat (promotes c) m =
    mk_eq (promote_from-active chat c (queue_of c m.chat_queue) m refl)
      (promote_from-behind chat c (queue_of c m.chat_queue) m refl)

-- Nobody is behind where nobody is active.
abbrev pub is_served : Line → Bool
is_served l = elim l.active [ some _ ↦ true | none ↦ elim l.behind [ [] ↦ true | _ ∷ _ ↦ false ] ]

is_served-step :
    (chat : Text) (x : Op) (l : Line) → is_served l ≡ true → is_served (line_step chat x l) ≡ true
unfolding remove
is_served-step chat (submits r) l h = ground arith
is_served-step chat (forgets r) l h = h
is_served-step chat (cancels r) l h = ground arith
is_served-step chat (promotes c) l h = ground arith

is_served-steps :
    (chat : Text) (xs : List Op) (m : Manager)
    → is_served (line chat m) ≡ true
    → is_served (line chat (steps xs m)) ≡ true
unfolding steps
is_served-steps chat [] m h = h
is_served-steps chat (x ∷ xs) m h =
    is_served-steps chat xs (step x m)
      (ap is_served (line-step chat x m) ∙ is_served-step chat x (line chat m) h)

-- Whatever is submitted, cancelled and finished, and in whatever order, a chat on which runs wait has an
-- active run.
pub is_served-line : (chat : Text) (xs : List Op) → is_served (line chat (steps xs new)) ≡ true
unfolding new get
is_served-line chat xs = is_served-steps chat xs new refl
