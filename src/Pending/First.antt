-- ===== src/Pending/First.antt =====
-- The first decision that is accepted is the one that the waiting call receives.
use mcp_switchboard.Prelude.{
  ℕ, zero, suc, ◌≡◌, refl, ap, ◌∙◌, Bool, true, false, not, ◌&&◌, List, [], ◌∷◌, ◌++◌, map, Option,
  none, some, Text, length, get_elem?, modify, any, ◌==◌, if_cases, if_ind, Bool-cases, inl, inr,
  arith,
}
use mcp_switchboard.Pending.{
  Question, Answer, Decision, PendingApproval, Desk, Sent, accepted, pending, is_free, send,
  send_to, decision, approve, kept, no_words, replied, answer_questions, answer_to, answer, ask,
  receive, forget, content,
}
use mcp_switchboard.Pending.Answers.{approve-pending, in_channel, send-InChannel}

-- What people and calls do, in any order.
pub data Step : Type 0 where
  approves : Text → Text → Bool → Text → Step
  answers : Text → Text → List Answer → Step
  asks : Text → Text → Text → Text → Option (List Question) → Step
  forgets : Text → Text → Step
  receives : ℕ → Step

abbrev pub step : (Text → Text) → Step → Desk → Desk
step trim (approves run call b reason) desk = (approve run call b reason desk).0
step trim (answers run call ans) desk = (answer trim run call ans desk).0
step trim (asks run call tool reason qs) desk = ask run call tool reason qs desk
step trim (forgets run call) desk = forget run call desk
step trim (receives ch) desk = (receive ch desk).1

abbrev pub steps : (Text → Text) → List Step → Desk → Desk
steps trim [] desk = desk
steps trim (s ∷ ss) desk = steps trim ss (step trim s desk)

-- No step receives from the channel.
abbrev pub leaves : ℕ → Step → Bool
leaves ch (receives i) = not (i == ch)
leaves ch _ = true

abbrev pub all_leave : ℕ → List Step → Bool
all_leave ch [] = true
all_leave ch (s ∷ ss) = leaves ch s && all_leave ch ss

abbrev Holds : ℕ → Decision → Desk → Type 0
Holds ch d desk = get_elem? desk.channels ch ≡ some (some d)

get-append :
    (cs ds : List (Option Decision)) (i : ℕ) (c : Option Decision)
    → get_elem? cs i ≡ some c
    → get_elem? (cs ++ ds) i ≡ some c
get-append [] ds i c h = absurd (ground arith)
get-append (x ∷ cs) ds zero c h = h
get-append (x ∷ cs) ds (suc i) c h = get-append cs ds i c h

get-modify_other :
    (i j : ℕ) (f : Option Decision → Option Decision) (cs : List (Option Decision))
    → i == j ≡ false
    → get_elem? (modify i f cs) j ≡ get_elem? cs j
get-modify_other i j f [] n = refl
get-modify_other zero zero f (x ∷ cs) n = absurd (ground arith)
get-modify_other zero (suc j) f (x ∷ cs) n = refl
get-modify_other (suc i) zero f (x ∷ cs) n = refl
get-modify_other (suc i) (suc j) f (x ∷ cs) n = get-modify_other i j f cs (ground arith)

module _ (ch : ℕ) (d : Decision) (desk : Desk) (h : Holds ch d desk) where
  not_here : (i : ℕ) → is_free (get_elem? desk.channels i) ≡ true → i == ch ≡ false
  not_here i f = elim (Bool-cases (i == ch)) [
    | inr n ↦ n
    | inl e ↦
        let same : i ≡ ch = ground arith in
        absurd (ground (arith, ap (λ j. is_free (get_elem? desk.channels j)) same, ap is_free h))
  ]

  send-Holds : (i : ℕ) (e : Decision) → Holds ch d (send i e desk).0
  unfolding send
  send-Holds i e =
      if_cases (λ (r : Desk × Sent). Holds ch d r.0) (is_free (get_elem? desk.channels i)) _ _
        (λ f. get-modify_other i ch (λ _. some e) desk.channels (not_here i f) ∙ h) (λ f. h)

  send_to-Holds : (o : Option PendingApproval) (e : Decision) → Holds ch d (send_to o e desk).0
  send_to-Holds none e = h
  send_to-Holds (some pa) e = send-Holds pa.ch e

  answer_questions-Holds :
      (trim : Text → Text) (i : ℕ) (qs : Option (List Question)) (ans : List Answer)
      → Holds ch d (answer_questions trim i qs ans desk).0
  answer_questions-Holds trim i none ans = h
  answer_questions-Holds trim i (some qs) ans =
      if_ind (λ (r : Desk × Sent). Holds ch d r.0) (not (length ans == length qs)) _ _ h
        (if_ind (λ (r : Desk × Sent). Holds ch d r.0) (any no_words (map (kept trim) ans)) _ _ h
          (send-Holds i (replied (map (kept trim) ans))))

  answer_to-Holds :
      (trim : Text → Text) (o : Option PendingApproval) (ans : List Answer)
      → Holds ch d (answer_to trim o ans desk).0
  answer_to-Holds trim none ans = h
  answer_to-Holds trim (some pa) ans = answer_questions-Holds trim pa.ch pa.questions ans

  step-Holds : (trim : Text → Text) (s : Step) → leaves ch s ≡ true → Holds ch d (step trim s desk)
  unfolding approve answer ask receive forget
  step-Holds trim (approves run call b reason) l =
      send_to-Holds (pending desk run call) (decision b reason)
  step-Holds trim (answers run call ans) l = answer_to-Holds trim (pending desk run call) ans
  step-Holds trim (asks run call tool reason qs) l =
      get-append desk.channels (none ∷ []) ch (some d) h
  step-Holds trim (forgets run call) l = h
  step-Holds trim (receives i) l =
      get-modify_other i ch (λ _. none) desk.channels (ground arith) ∙ h

steps-Holds :
    (ch : ℕ) (d : Decision) (trim : Text → Text) (ss : List Step) (desk : Desk)
    → Holds ch d desk
    → all_leave ch ss ≡ true
    → Holds ch d (steps trim ss desk)
steps-Holds ch d trim [] desk h l = h
steps-Holds ch d trim (s ∷ ss) desk h l =
    steps-Holds ch d trim ss (step trim s desk) (step-Holds ch d desk h trim s (ground arith))
      (ground arith)

-- An approval or a denial that is accepted is the one that the waiting call receives, whatever anyone else
-- approves, denies, answers, asks, receives or gives up before it does.
pub approve_received :
    (trim : Text → Text) (run call : Text) (approved : Bool) (reason : Text) (desk : Desk)
    (pa : PendingApproval) (ss : List Step)
    → pending desk run call ≡ some pa
    → (approve run call approved reason desk).1 ≡ accepted
    → all_leave pa.ch ss ≡ true
    → (receive pa.ch (steps trim ss (approve run call approved reason desk).0)).0
      ≡ some (decision approved reason)
unfolding receive
approve_received trim run call approved reason desk pa ss p a l =
    let d = decision approved reason in
    let same = approve-pending run call approved reason desk pa p in
    let held =
      in_channel pa.ch d (approve run call approved reason desk)
        (rw (same) (send-InChannel pa.ch d desk)) a in
    ap content (steps-Holds pa.ch d trim ss (approve run call approved reason desk).0 held l)
