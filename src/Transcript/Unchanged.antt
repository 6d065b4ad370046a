-- ===== src/Transcript/Unchanged.antt =====
-- What the repair leaves as it is.
use mcp_switchboard.Prelude.{
  ℕ, ◌+◌, ◌≡◌, refl, ap, ◌∙◌, Bool, true, false, not, List, [], ◌∷◌, ◌++◌, Text, text_eq_refl, keep,
  if◌then◌else◌, if_cases, subst, sym, Bool-cases, inl, inr, arith,
}
use mcp_switchboard.Window.{ToolCall, ToolResult, Message, is_tool}
use mcp_switchboard.Transcript.{
  Wanted, wants, delete_id, call_ids, keep_results, unless_empty, take_answers, missing_answers,
  asked, answers_of, repair_tool_pairs,
}
use mcp_switchboard.Transcript.Pairing.{
  one, count_results, count_answers, AnsweredOnce, only_tools, wants-delete_id, wants_same,
  only_tools-answers_of,
}

-- The messages that are no tool's.
abbrev pub spoken : List Message → List Message
spoken ms = keep (λ m. not (is_tool m.role)) ms

spoken-only_tools : (xs ys : List Message) → only_tools xs ≡ true → spoken (xs ++ ys) ≡ spoken ys
spoken-only_tools [] ys h = refl
spoken-only_tools (x ∷ xs) ys h =
    if_cases (λ t. t ≡ spoken ys) (not (is_tool x.role)) _ _ (λ e. absurd (ground arith))
      (λ e. spoken-only_tools xs ys (ground arith))

spoken-tool :
    (m : Message) (ms : List Message) → is_tool m.role ≡ true → spoken (m ∷ ms) ≡ spoken ms
spoken-tool m ms e = rw (e) refl

spoken-other :
    (m : Message) (ms : List Message) → is_tool m.role ≡ false → spoken (m ∷ ms) ≡ m ∷ spoken ms
spoken-other m ms e = rw (e) refl

repair-tool :
    (m : Message) (ms : List Message)
    → is_tool m.role ≡ true
    → repair_tool_pairs (m ∷ ms) ≡ repair_tool_pairs ms
unfolding repair_tool_pairs
repair-tool m ms e = rw (e) refl

repair-other :
    (m : Message) (ms : List Message)
    → is_tool m.role ≡ false
    → repair_tool_pairs (m ∷ ms) ≡ m ∷ (answers_of m ms ++ repair_tool_pairs ms)
unfolding repair_tool_pairs
repair-other m ms e = rw (e) refl

-- The repair leaves every message that is no tool's, in its place.
pub spoken-repair_tool_pairs : (ms : List Message) → spoken (repair_tool_pairs ms) ≡ spoken ms
unfolding repair_tool_pairs
spoken-repair_tool_pairs [] = refl
spoken-repair_tool_pairs (m ∷ ms) = elim (Bool-cases (is_tool m.role)) [
  | inl e ↦ ap spoken (repair-tool m ms e) ∙ spoken-repair_tool_pairs ms ∙ sym (spoken-tool m ms e)
  | inr e ↦
      ap spoken (repair-other m ms e)
      ∙ spoken-other m (answers_of m ms ++ repair_tool_pairs ms) e
      ∙ ap (λ t. m ∷ t)
          (spoken-only_tools (answers_of m ms) (repair_tool_pairs ms) (only_tools-answers_of m ms)
            ∙ spoken-repair_tool_pairs ms)
      ∙ sym (spoken-other m ms e)
]

-- The tool messages that a list begins with.
abbrev pub leading : List Message → List Message
leading [] = []
leading (m ∷ ms) = let rest = leading ms in if is_tool m.role then m ∷ rest else []

-- A tool message as the repair makes one: with at least one result, and nothing else.
abbrev IsPlain : Message → Type 0
IsPlain m = if is_tool m.role then unless_empty m.tool_results [] ≡ m ∷ [] else Unit

abbrev pub AllPlain : List Message → Type 0
AllPlain [] = Unit
AllPlain (m ∷ ms) = IsPlain m × AllPlain ms

-- What is wanted is just what a list of results answers, and what is left over.
abbrev Answers : Wanted → List ToolResult → (Text → ℕ) → Type 0
Answers want rs rest = (id : Text) → count_results id rs + rest id ≡ one (wants id want)

keep_results-all :
    (want : Wanted) (rs : List ToolResult) (rest : Text → ℕ)
    → Answers want rs rest
    → ((keep_results want rs).0 ≡ rs)
      × ((id : Text) → rest id ≡ one (wants id (keep_results want rs).1))
unfolding keep_results
keep_results-all want [] rest h = (refl, λ id. omega (arith, h id))
keep_results-all want (r ∷ rs) rest h =
    if_cases
      (λ (p : List ToolResult × Wanted).
        (p.0 ≡ r ∷ rs) × ((id : Text) → rest id ≡ one (wants id p.1)))
      (wants r.id want) _ _
      (λ e.
        let (q, l) =
          keep_results-all (delete_id r.id want) rs rest
            (λ id. ground (arith, h id, wants-delete_id id r.id want, wants_same r.id id want)) in
        (ap (λ t. r ∷ t) q, l))
      (λ e. absurd (ground (arith, h r.id, text_eq_refl r.id)))

unless_empty-plain :
    (rs : List ToolResult) (m : Message) (ms : List Message)
    → unless_empty rs [] ≡ m ∷ []
    → unless_empty rs ms ≡ m ∷ ms
unless_empty-plain [] m ms h = absurd (ground arith)
unless_empty-plain (r ∷ rs) m ms h = ground arith

then_part : (b : Bool) (P : Type 0) → b ≡ true → if b then P else Unit → P
then_part true P h p = p
then_part false P h p = absurd (ground arith)

else_part : (b : Bool) (P : Type 0) → b ≡ false → if b then Unit else P → P
else_part true P h p = absurd (ground arith)
else_part false P h p = p

take_answers-all :
    (want : Wanted) (ms : List Message)
    → AllPlain ms
    → ((id : Text) → count_answers id ms ≡ one (wants id want))
    → ((take_answers want ms).0 ≡ leading ms)
      × ((id : Text) → wants id (take_answers want ms).1 ≡ false)
unfolding take_answers
take_answers-all want [] p h = (refl, λ id. ground (arith, h id))
take_answers-all want (m ∷ ms) p h = elim (Bool-cases (is_tool m.role)) [
  | inl e ↦
      let (k, l) =
        keep_results-all want m.tool_results (λ id. count_answers id ms)
          (λ id. ground (arith, h id)) in
      let (t, n) = take_answers-all (keep_results want m.tool_results).1 ms p.1 l in
      rw (e) (
        rw (k, t)
            (unless_empty-plain m.tool_results m (leading ms) (then_part (is_tool m.role) _ e p.0)),
        n,
      )
  | inr e ↦ rw (e) (refl, λ id. ground (arith, h id))
]

missing_answers-none :
    (want : Wanted) (cs : List ToolCall)
    → ((id : Text) → wants id want ≡ false)
    → missing_answers want cs ≡ []
unfolding missing_answers
missing_answers-none want [] h = refl
missing_answers-none want (c ∷ cs) h =
    if_cases (λ x. x ≡ []) (wants c.id want) _ _ (λ e. absurd (ground (arith, h c.id)))
      (λ e. missing_answers-none want cs h)

append-nil : (xs : List Message) → xs ++ [] ≡ xs
append-nil [] = refl
append-nil (x ∷ xs) = ap (λ t. x ∷ t) (append-nil xs)

answers_of-leading :
    (m : Message) (ms : List Message)
    → AllPlain ms
    → ((id : Text) → count_answers id ms ≡ one (wants id (call_ids (asked m))))
    → answers_of m ms ≡ leading ms
answers_of-leading m ms p h =
    let want = call_ids (asked m) in
    let (t, n) = take_answers-all want ms p h in
    ap (λ x. (take_answers want ms).0 ++ x)
      (missing_answers-none (take_answers want ms).1 (asked m) n)
    ∙ append-nil (take_answers want ms).0
    ∙ t

leading-repair :
    (ms : List Message)
    → AllPlain ms
    → ((id : Text) → AnsweredOnce id ms)
    → leading ms ++ repair_tool_pairs ms ≡ ms
unfolding repair_tool_pairs
leading-repair [] p h = refl
leading-repair (m ∷ ms) p h =
    let later = leading-repair ms p.1 (λ id. (h id).1) in
    elim (Bool-cases (is_tool m.role)) [
      | inl e ↦ rw (e) (ap (λ t. m ∷ t) later)
      | inr e ↦ rw (e) (
          ap (λ t. m ∷ t)
            (rw (answers_of-leading m ms p.1 (λ id. else_part (is_tool m.role) _ e (h id).0))
              later))
    ]

-- A transcript that is in order is left as it is: one whose tool messages are as the repair writes them,
-- in which the calls of each message are answered once right behind it and nothing else is, and which
-- begins with no tool's message.
pub repair_tool_pairs-id :
    (ms : List Message)
    → AllPlain ms
    → ((id : Text) → AnsweredOnce id ms)
    → leading ms ≡ []
    → repair_tool_pairs ms ≡ ms
repair_tool_pairs-id ms p h l =
    subst (λ t. t ++ repair_tool_pairs ms ≡ ms) l (leading-repair ms p h)
