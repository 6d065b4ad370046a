-- ===== src/Runs.antt =====
-- The loop of a run and its budget: execute, budgetLimit, addUsage, reserveToolCall and causeOutcome of
-- hub/internal/agents/run.go, and mergeBudget of hub/internal/agents/model.go.
pub mod Budget
pub mod Returning
use mcp_switchboard.Prelude.{
  ℕ, zero, suc, ◌+◌, ◌-◌, min, Bool, true, false, not, ◌&&◌, ◌||◌, List, [], ◌∷◌, Option, none,
  some, Text, bytes, any, leb, ltb, ◌==◌, if◌then◌else◌,
}
use mcp_switchboard.Registry.{is_empty}

-- A limit that is not positive is no limit; it is 0 here.
pub record AgentBudget : Type 0 where
  pub max_turns : ℕ
  pub max_tool_calls : ℕ
  pub max_tokens : ℕ
  pub max_cost_micros : ℕ
  pub max_wall_seconds : ℕ
  pub max_lifetime_cost_micros : ℕ

abbrev pub lower : ℕ → ℕ → ℕ
lower d a = if a == 0 then d else if d == 0 then a else min d a

-- `mergeBudget`, of what the agent's JSON decodes to.
unfoldable pub merge_budget : AgentBudget → AgentBudget → AgentBudget
merge_budget def own = record {
  max_turns = lower def.max_turns own.max_turns;
  max_tool_calls = lower def.max_tool_calls own.max_tool_calls;
  max_tokens = lower def.max_tokens own.max_tokens;
  max_cost_micros = lower def.max_cost_micros own.max_cost_micros;
  max_wall_seconds = lower def.max_wall_seconds own.max_wall_seconds;
  max_lifetime_cost_micros = lower def.max_lifetime_cost_micros own.max_lifetime_cost_micros;
}

-- What a run has used, and the limit that a call has hit.
pub record RunState : Type 0 where
  pub turns : ℕ
  pub tool_calls : ℕ
  pub tokens : ℕ
  pub cost_micros : ℕ
  pub budget_hit : Text

-- The tokens and the cost of a turn.
abbrev pub Spent : Type 0
Spent = ℕ × ℕ

unfoldable pub add_usage : Spent → RunState → RunState
add_usage (tokens, cost) rs = record rs {
  turns = suc rs.turns;
  tokens = rs.tokens + tokens;
  cost_micros = rs.cost_micros + cost;
}

abbrev pub exhausted : ℕ → ℕ → Bool
exhausted limit used = not (limit == 0) && leb limit used

-- What the agent and each of its ancestors have cost, if the query succeeds.
abbrev pub Totals : Type 0
Totals = Option (List ℕ)

-- `LifetimeExceeded`, where an error counts as no.
unfoldable pub lifetime_exceeded : Totals → ℕ → Bool
lifetime_exceeded none limit = false
lifetime_exceeded (some totals) limit =
    if limit == 0 then false else any (λ total. leb limit total) totals

-- `budgetLimit`
unfoldable pub budget_limit : AgentBudget → RunState → Totals → Text
unfolding lifetime_exceeded
budget_limit b rs totals =
    if exhausted b.max_turns rs.turns
    then bytes "max_turns"
    else if exhausted b.max_tool_calls rs.tool_calls
    then bytes "max_tool_calls"
    else if exhausted b.max_tokens rs.tokens
    then bytes "max_tokens"
    else if exhausted b.max_cost_micros rs.cost_micros
    then bytes "max_cost_micros"
    else if lifetime_exceeded totals b.max_lifetime_cost_micros
    then bytes "max_lifetime_cost_micros"
    else []

-- The delay of the timer that ends a run of an age, in seconds; one that is due is at 0.
unfoldable pub wall_delay : AgentBudget → ℕ → Option ℕ
wall_delay b age = if ltb 0 b.max_wall_seconds then some (b.max_wall_seconds - age) else none

-- `reserveToolCall`, and whether it succeeds.
unfoldable pub reserve_tool_call : AgentBudget → RunState → RunState × Bool
reserve_tool_call b rs =
    if exhausted b.max_tool_calls rs.tool_calls
    then (record rs { budget_hit = bytes "max_tool_calls" }, false)
    else (record rs { tool_calls = suc rs.tool_calls }, true)

-- The calls of `execTools` in the order in which they begin, each with whether the run is stopped by then.
unfoldable pub exec_tools : AgentBudget → List Bool → RunState → RunState
unfolding reserve_tool_call
exec_tools b [] rs = rs
exec_tools b (stopped ∷ calls) rs =
    exec_tools b calls (if stopped then rs else (reserve_tool_call b rs).0)

pub data Cause : Type 0 where
  wall shutdown cancel : Cause

pub data RunStatus : Type 0 where
  run_done run_error run_cancelled run_interrupted : RunStatus

pub record RunOutcome : Type 0 where
  pub status : RunStatus
  pub finish_reason : Text
  pub err : Text
  pub limit : Text

abbrev outcome : RunStatus → Text → Text → Text → RunOutcome
outcome status reason err limit = record {
  status = status;
  finish_reason = reason;
  err = err;
  limit = limit;
}

abbrev pub over_budget : Text → RunOutcome
over_budget limit = outcome run_done (bytes "budget") [] limit

unfoldable pub cause_outcome : Cause → RunOutcome
cause_outcome wall = over_budget (bytes "max_wall_seconds")
cause_outcome shutdown =
    outcome run_interrupted (bytes "interrupted")
      (bytes "the hub shut down while this run was in progress") []
cause_outcome cancel = outcome run_cancelled (bytes "cancelled") [] []

-- A turn: what it spent, if it came to that, and how it ended.
pub data Turn : Type 0 where
  turn_tools : Spent → List Bool → Turn
  turn_done : Spent → Text → Turn
  turn_cancelled : Option Spent → Turn
  turn_failed turn_error : Option Spent → Text → Turn

-- The agent's row: an error, deleted or missing, or there, with what it and its ancestors have cost.
pub data Lookup : Type 0 where
  lookup_failed : Text → Lookup
  gone : Lookup
  found : Totals → Lookup

-- What happens at each round of the loop, and why the context ends, if it does.
pub record World : Type 0 where
  pub live : ℕ → Bool
  pub agent : ℕ → Lookup
  pub turn : ℕ → Turn
  pub cause : Cause

abbrev spend : Option Spent → RunState → RunState
spend none rs = rs
spend (some s) rs = add_usage s rs

-- The run after a turn, its calls included.
unfoldable pub after_turn : AgentBudget → Turn → RunState → RunState
unfolding add_usage exec_tools
after_turn b (turn_tools s calls) rs = exec_tools b calls (add_usage s rs)
after_turn b (turn_done s _) rs = add_usage s rs
after_turn b (turn_cancelled s) rs = spend s rs
after_turn b (turn_failed s _) rs = spend s rs
after_turn b (turn_error s _) rs = spend s rs

abbrev pub error_outcome : Text → RunOutcome
error_outcome err = outcome run_error (bytes "error") err []

abbrev or_stop : Text → Text
or_stop finish = if is_empty finish then bytes "stop" else finish

-- How the run ends with a turn; `none` where the loop goes on.
abbrev pub ended_by : Cause → Turn → RunState → Option RunOutcome
ended_by cause (turn_tools _ _) rs =
    if is_empty rs.budget_hit then none else some (over_budget rs.budget_hit)
ended_by cause (turn_done _ finish) rs = some (outcome run_done (or_stop finish) [] [])
ended_by cause (turn_cancelled _) rs = some (cause_outcome cause)
ended_by cause (turn_failed _ err) rs = some (error_outcome err)
ended_by cause (turn_error _ err) rs = some (error_outcome err)

-- Why a round begins no turn; `none` where it does.
abbrev pub refused_by : AgentBudget → RunState → Lookup → Option RunOutcome
refused_by b rs (lookup_failed err) = some (error_outcome err)
refused_by b rs gone =
    some (outcome run_cancelled (bytes "cancelled") (bytes "the agent was deleted") [])
refused_by b rs (found totals) =
    if is_empty (budget_limit b rs totals)
    then none
    else some (over_budget (budget_limit b rs totals))

abbrev pub refused : World → AgentBudget → ℕ → RunState → Option RunOutcome
refused w b i rs =
    if not (w.live i) then some (cause_outcome w.cause) else refused_by b rs (w.agent i)

-- The run ends there, or goes on.
abbrev pub or_go_on :
    Option RunOutcome → RunState → Option (RunOutcome × RunState) → Option (RunOutcome × RunState)
or_go_on none rs rest = rest
or_go_on (some out) rs rest = some (out, rs)

-- The loop of `execute`, on fuel for its rounds; `none` is that it has run out.
unfoldable pub execute : World → AgentBudget → ℕ → ℕ → RunState → Option (RunOutcome × RunState)
unfolding after_turn budget_limit cause_outcome
execute w b zero i rs = none
execute w b (suc fuel) i rs =
    let after = after_turn b (w.turn i) rs in
    let rest = execute w b fuel (suc i) after in
    or_go_on (refused w b i rs) rs (or_go_on (ended_by w.cause (w.turn i) after) after rest)
