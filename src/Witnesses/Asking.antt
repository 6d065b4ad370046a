-- ===== src/Witnesses/Asking.antt =====
-- A run that waits for a person, on a call and on a question.
use mcp_switchboard.Prelude.{
  ◌≡◌, refl, true, false, List, [], ◌∷◌, none, some, Text, bytes, text_eq, get_elem?,
}
use mcp_switchboard.Pending.{
  Question, Answer, Desk, PendingApproval, pending, pending_at, approve, receive, decision, reply,
  panicked,
}
use mcp_switchboard.Pending.Answers.{approve_panics}
use mcp_switchboard.Pending.First.{Step, approves, asks, forgets, steps, approve_received}

abbrev run_id : Text
run_id = bytes "r1"

abbrev ask_id : Text
ask_id = bytes "k1"

abbrev colour : Question
colour = record {
  question = bytes "Which colour?";
  header = [];
  options = (bytes "red", []) ∷ (bytes "blue", []) ∷ [];
  multi_select = false;
}

abbrev asked_colour : PendingApproval
asked_colour = pending_at (bytes "switchboard.user.ask") [] (some (colour ∷ [])) 0

abbrev wants_run : PendingApproval
wants_run = pending_at (bytes "shell") [] none 1

abbrev desk : Desk
desk = record {
  runs = (run_id, (ask_id, asked_colour) ∷ (bytes "k2", wants_run) ∷ []) ∷ [];
  channels = none ∷ none ∷ [];
}

-- Texts without spaces.
abbrev trimmed : Text → Text
trimmed s = s

abbrev red : List Answer
red = (bytes "red" ∷ []) ∷ []

approve_panics_example :
    (get_elem? (approve run_id ask_id true [] desk).0.channels 0 ≡ some (some (decision true [])))
    × (reply (colour ∷ []) (decision true []) ≡ panicked)
unfolding pending approve text_eq
approve_panics_example = approve_panics run_id ask_id [] desk asked_colour colour [] refl refl refl

-- A second opinion, and a call that comes and goes.
abbrev meanwhile : List Step
meanwhile =
    approves run_id (bytes "k2") true []
    ∷ asks run_id (bytes "k3") (bytes "shell") [] none
    ∷ forgets run_id (bytes "k2")
    ∷ []

approve_received_example :
    (receive 1 (steps trimmed meanwhile (approve run_id (bytes "k2") false (bytes "no") desk).0)).0
    ≡ some (decision false (bytes "no"))
unfolding pending approve text_eq
approve_received_example =
    approve_received trimmed run_id (bytes "k2") false (bytes "no") desk wants_run meanwhile refl
      refl refl
