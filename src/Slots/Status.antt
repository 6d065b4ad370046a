-- ===== src/Slots/Status.antt =====
-- The statuses that are shown: `syncRun` and `writeAgentStatusLocked`.
use mcp_switchboard.Prelude.{
  ◌≡◌, refl, Bool, true, false, not, ◌&&◌, ◌||◌, List, [], ◌∷◌, arith, any, ltb, ◌==◌,
  if◌then◌else◌,
}
use mcp_switchboard.Slots.{Run}

-- store.RunRunning and store.RunWaiting
pub data RunStatus : Type 0 where
  run_running run_waiting : RunStatus

abbrev pub run_status : Run → RunStatus
run_status r = if ltb 0 r.waiters then run_waiting else run_running

-- An agent's status; `unset` is the empty string that the loop starts from.
pub data AgentStatus : Type 0 where
  unset agent_running agent_blocked agent_waiting agent_idle agent_error : AgentStatus

abbrev is_running : AgentStatus → Bool
is_running agent_running = true
is_running _ = false

abbrev is_unset : AgentStatus → Bool
is_unset unset = true
is_unset _ = false

-- One turn of the loop over the agent's runs.
unfoldable pub status_after : AgentStatus → Run → AgentStatus
status_after status r =
    if not r.started || r.finished
    then status
    else if r.waiters == 0
    then agent_running
    else if ltb 0 r.approval_waiters && not (is_running status)
    then agent_blocked
    else if is_unset status
    then agent_waiting
    else status

unfoldable pub status_from : AgentStatus → List Run → AgentStatus
unfolding status_after
status_from status [] = status
status_from status (r ∷ runs) = status_from (status_after status r) runs

-- What `status == ""` falls back to.
abbrev or_terminal : AgentStatus → AgentStatus → AgentStatus
or_terminal unset unset = agent_idle
or_terminal unset terminal = terminal
or_terminal status terminal = status

unfoldable pub agent_status : AgentStatus → List Run → AgentStatus
unfolding status_from
agent_status terminal runs = or_terminal (status_from unset runs) terminal

abbrev pub active : Run → Bool
active r = r.started && not r.finished

-- The run works, or blocks on a person.
abbrev pub works : Run → Bool
works r = active r && r.waiters == 0

abbrev pub blocks : Run → Bool
blocks r = active r && not (r.waiters == 0) && ltb 0 r.approval_waiters

-- The strongest of three claims, each of them made by some run.
abbrev pub strongest : Bool → Bool → Bool → AgentStatus → AgentStatus
strongest work block wait terminal =
    if work
    then agent_running
    else if block
    then agent_blocked
    else if wait
    then agent_waiting
    else or_terminal unset terminal

status_from-running : (runs : List Run) → status_from agent_running runs ≡ agent_running
unfolding status_from
status_from-running [] = refl
status_from-running (r ∷ runs) = ground (arith, status_from-running runs)

status_from-blocked :
    (runs : List Run) → status_from agent_blocked runs ≡ strongest (any works runs) true true unset
unfolding status_from
status_from-blocked [] = refl
status_from-blocked (r ∷ runs) = ground (arith, status_from-blocked runs, status_from-running runs)

status_from-waiting :
    (runs : List Run)
    → status_from agent_waiting runs ≡ strongest (any works runs) (any blocks runs) true unset
unfolding status_from
status_from-waiting [] = refl
status_from-waiting (r ∷ runs) =
    ground (arith, status_from-waiting runs, status_from-blocked runs, status_from-running runs)

status_from-unset :
    (runs : List Run)
    → status_from unset runs ≡ (
        if any works runs
        then agent_running
        else if any blocks runs
        then agent_blocked
        else if any active runs
        then agent_waiting
        else unset)
unfolding status_from
status_from-unset [] = refl
status_from-unset (r ∷ runs) = ground (
  arith,
  status_from-unset runs,
  status_from-waiting runs,
  status_from-blocked runs,
  status_from-running runs,
)

-- In whatever order its runs are looked at, an agent is running where one of its active runs waits for
-- nothing, else blocked where one waits for a person, else waiting where one is active, and else
-- it has its terminal status, or is idle.
pub agent_status_lem :
    (terminal : AgentStatus) (runs : List Run)
    → agent_status terminal runs
      ≡ strongest (any works runs) (any blocks runs) (any active runs) terminal
unfolding agent_status
agent_status_lem terminal runs = ground (arith, status_from-unset runs)
