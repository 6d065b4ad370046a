-- ===== src/Witnesses/Turns.antt =====
-- Two runs and one slot.
use mcp_switchboard.Prelude.{◌≡◌, refl, true, [], ◌∷◌, List, arith}
use mcp_switchboard.Slots.{
  Run, Manager, Op, submits, begins, asks, settles, queued, new_run, steps, new, release_locked,
}
use mcp_switchboard.Slots.Accounting.{IsOk}
use mcp_switchboard.Slots.Trace.{steps-IsOk}
use mcp_switchboard.Slots.Turns.{next_turn, release_locked_lem}
use mcp_switchboard.Slots.Status.{agent_status, agent_blocked, unset}

abbrev both_start : List Op
both_start = submits ∷ submits ∷ begins 0 ∷ asks 0 ∷ begins 1 ∷ asks 1 ∷ settles 0 ∷ []

abbrev at_work : Run
at_work = record new_run { started = true; holds_slot = true }

abbrev in_line : Run
in_line = record new_run { seat = queued }

abbrev full : Manager
full = record {
  max_run = 1;
  running = 1;
  resume_q = [];
  start_q = 1 ∷ [];
  runs = at_work ∷ in_line ∷ [];
}

started : steps both_start (new 1) ≡ full
unfolding steps new release_locked
started = refl

steps-IsOk_example : IsOk (steps both_start (new 1))
steps-IsOk_example = steps-IsOk 1 both_start

release_locked_lem_example : release_locked full ≡ next_turn [] (1 ∷ []) full
release_locked_lem_example = release_locked_lem full (omega arith) refl

-- One run waits for a person and another has finished.
abbrev on_hold : Run
on_hold = record new_run { started = true; waiters = 1; approval_waiters = 1 }

abbrev over : Run
over = record new_run { started = true; finished = true }

held_up : agent_status unset (over ∷ on_hold ∷ []) ≡ agent_blocked
unfolding agent_status
held_up = refl
