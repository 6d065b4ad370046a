-- ===== src/Pending/Answers.antt =====
-- What reaches a call that asked questions.
use mcp_switchboard.Prelude.{
  ℕ, zero, suc, ◌≡◌, refl, Bool, true, false, List, [], ◌∷◌, map, Option, none, some, Text, length,
  get_elem?, modify, any, if_cases, arith,
}
use mcp_switchboard.Pending.{
  Question, Answer, Decision, PendingApproval, Desk, Sent, accepted, not_pending, invalid, pending,
  is_free, send, decision, approve, kept, no_words, replied, panicked, reply,
}

get-modify :
    (ch : ℕ) (d : Decision) (cs : List (Option Decision)) (c : Option Decision)
    → get_elem? cs ch ≡ some c
    → get_elem? (modify ch (λ _. some d) cs) ch ≡ some (some d)
get-modify ch d [] c h = absurd (ground arith)
get-modify zero d (x ∷ cs) c h = refl
get-modify (suc n) d (x ∷ cs) c h = get-modify n d cs c h

-- A decision that is accepted is in the channel.
abbrev pub InChannel : ℕ → Decision → Desk × Sent → Type 0
InChannel ch d (desk, accepted) = get_elem? desk.channels ch ≡ some (some d)
InChannel ch d (desk, not_pending) = Unit
InChannel ch d (desk, invalid) = Unit

is_free_lem : (o : Option (Option Decision)) → is_free o ≡ true → o ≡ some none
is_free_lem none h = absurd (ground arith)
is_free_lem (some none) h = refl
is_free_lem (some (some d)) h = absurd (ground arith)

pub send-InChannel : (ch : ℕ) (d : Decision) (desk : Desk) → InChannel ch d (send ch d desk)
unfolding send
send-InChannel ch d desk =
    if_cases (InChannel ch d) (is_free (get_elem? desk.channels ch)) _ _
      (λ e. get-modify ch d desk.channels none (is_free_lem (get_elem? desk.channels ch) e))
      (λ e. tt)

-- The questions, each with its answer.
abbrev pub paired : List Question → List Answer → List (Text × Answer)
paired [] found = []
paired (q ∷ qs) [] = []
paired (q ∷ qs) (a ∷ found) = (q.question, a) ∷ paired qs found

-- Where an answer of the questions is accepted, there are as many answers as questions, none is blank, and
-- it waits in the channel.
abbrev Answering : (Text → Text) → ℕ → List Question → List Answer → Desk × Sent → Type 0
Answering trim ch qs answers (desk, accepted) =
    (get_elem? desk.channels ch ≡ some (some (replied (map (kept trim) answers))))
    × (length answers ≡ length qs)
    × (any no_words (map (kept trim) answers) ≡ false)
Answering trim ch qs answers (desk, not_pending) = Unit
Answering trim ch qs answers (desk, invalid) = Unit

pub approve-pending :
    (run call : Text) (b : Bool) (reason : Text) (desk : Desk) (pa : PendingApproval)
    → pending desk run call ≡ some pa
    → approve run call b reason desk ≡ send pa.ch (decision b reason) desk
unfolding approve
approve-pending run call b reason desk pa p = rw (p) refl

pub in_channel :
    (ch : ℕ) (d : Decision) (r : Desk × Sent)
    → InChannel ch d r
    → r.1 ≡ accepted
    → get_elem? r.0.channels ch ≡ some (some d)
in_channel ch d (desk, accepted) i h = i
in_channel ch d (desk, not_pending) i h = absurd (ground arith)
in_channel ch d (desk, invalid) i h = absurd (ground arith)

-- A question that is approved, as if it were a call, is answered with no answers: where the approval is
-- accepted, what waits in the call's channel makes the call panic.
pub approve_panics :
    (run call reason : Text) (desk : Desk) (pa : PendingApproval) (q : Question)
    (qs : List Question)
    → pending desk run call ≡ some pa
    → pa.questions ≡ some (q ∷ qs)
    → (approve run call true reason desk).1 ≡ accepted
    → (get_elem? (approve run call true reason desk).0.channels pa.ch
        ≡ some (some (decision true reason)))
      × (reply (q ∷ qs) (decision true reason) ≡ panicked)
unfolding approve reply
approve_panics run call reason desk pa q qs p e h =
    let same = approve-pending run call true reason desk pa p in
    (
      in_channel pa.ch (decision true reason) (approve run call true reason desk)
          (rw (same) (send-InChannel pa.ch (decision true reason) desk)) h,
      refl,
    )
