-- ===== src/Witnesses/Loops.antt =====
-- A run that reaches its limit of turns, and transcripts that a crash left incomplete.
use mcp_switchboard.Prelude.{
  ◌≡◌, refl, true, false, ◌&&◌, List, [], ◌∷◌, some, Text, bytes, text_eq, arith,
}
use mcp_switchboard.Registry.{is_empty}
use mcp_switchboard.Window.{ToolCall, ToolResult, Message, role_assistant}
use mcp_switchboard.Runs.{
  AgentBudget, RunState, World, turn_tools, found, cancel, merge_budget, budget_limit, execute,
  over_budget, Totals, wall_delay,
}
use mcp_switchboard.Runs.Budget.{earlier, budget_limit-merge_budget}
use mcp_switchboard.Runs.Returning.{fresh, IsSome, HeldIn, execute_returns}
use mcp_switchboard.Transcript.{repair_tool_pairs, tool_message, interrupted}
use mcp_switchboard.Transcript.Pairing.{AnsweredOnce, count_answers, repair_tool_pairs-AnsweredOnce}
use mcp_switchboard.Transcript.Unchanged.{repair_tool_pairs-id}

abbrev budget : AgentBudget
budget = record {
  max_turns = 2;
  max_tool_calls = 1;
  max_tokens = 0;
  max_cost_micros = 0;
  max_wall_seconds = 0;
  max_lifetime_cost_micros = 0;
}

-- A model that calls one tool at every turn.
abbrev eager : World
eager = record {
  live = λ i. true;
  agent = λ i. found (some []);
  turn = λ i. turn_tools (10, 1) (false ∷ []);
  cause = cancel;
}

abbrev after_one : RunState
after_one = record { turns = 1; tool_calls = 1; tokens = 10; cost_micros = 1; budget_hit = [] }

stops : execute eager budget 3 0 fresh ≡ some (over_budget (bytes "max_tool_calls"), after_one)
unfolding execute
stops = refl

execute_returns_example :
    IsSome (execute eager budget 3 0 fresh) × HeldIn budget (execute eager budget 3 0 fresh)
execute_returns_example = execute_returns eager budget (omega arith)

abbrev generous : AgentBudget
generous = record budget {
  max_turns = 32;
  max_tool_calls = 0;
  max_wall_seconds = 60;
  max_lifetime_cost_micros = 20;
}

-- The agent has cost 3 so far, its parent 20.
abbrev costs : Totals
costs = some (3 ∷ 20 ∷ [])

budget_limit-merge_budget_example :
    (is_empty (budget_limit (merge_budget generous budget) after_one costs) ≡ (
      is_empty (budget_limit generous after_one costs)
      && is_empty (budget_limit budget after_one costs)))
    × (wall_delay (merge_budget generous budget) 5
        ≡ earlier (wall_delay generous 5) (wall_delay budget 5))
budget_limit-merge_budget_example = budget_limit-merge_budget generous budget after_one costs 5

abbrev call : Text → ToolCall
call id = record { id = id; name = bytes "read_file"; arguments = [] }

abbrev said : List ToolCall → Message
said calls = record { role = role_assistant; content = []; tool_calls = calls; tool_results = [] }

abbrev result : Text → ToolResult
result id = record { id = id; content = []; is_error = false }

-- The hub went down before the second call had its result, and a result of an older call is left over.
abbrev torn : List Message
torn =
    said (call (bytes "k1") ∷ call (bytes "k2") ∷ [])
    ∷ tool_message (result (bytes "k1") ∷ result (bytes "k0") ∷ [])
    ∷ []

mended :
    repair_tool_pairs torn
    ≡ said (call (bytes "k1") ∷ call (bytes "k2") ∷ [])
      ∷ tool_message (result (bytes "k1") ∷ [])
      ∷ interrupted (bytes "k2")
      ∷ []
unfolding repair_tool_pairs
mended = refl

repair_tool_pairs-AnsweredOnce_example :
    AnsweredOnce (bytes "k2") (repair_tool_pairs torn)
    × (count_answers (bytes "k2") (repair_tool_pairs torn) ≡ 0)
unfolding text_eq
repair_tool_pairs-AnsweredOnce_example = repair_tool_pairs-AnsweredOnce (bytes "k2") torn refl

abbrev whole : List Message
whole = said (call (bytes "k1") ∷ []) ∷ tool_message (result (bytes "k1") ∷ []) ∷ said [] ∷ []

answered_once : (id : Text) → AnsweredOnce id whole
answered_once id = (grind arith, (tt, (refl, tt)))

repair_tool_pairs-id_example : repair_tool_pairs whole ≡ whole
repair_tool_pairs-id_example = repair_tool_pairs-id whole (tt, (refl, (tt, tt))) answered_once refl
