-- ===== src/Runs/Budget.antt =====
-- Budgets merge to the stricter one.
use mcp_switchboard.Prelude.{
  ℕ, min, List, [], ◌∷◌, refl, Option, none, some, any, leb, ◌≡◌, Bool, not, ◌&&◌, ◌||◌, ◌==◌,
  if_cases, arith,
}
use mcp_switchboard.Registry.{is_empty}
use mcp_switchboard.Runs.{
  AgentBudget, RunState, lower, merge_budget, exhausted, budget_limit, Totals, lifetime_exceeded,
  wall_delay,
}

exhausted-lower :
    (d a used : ℕ) → exhausted (lower d a) used ≡ (exhausted d used || exhausted a used)
exhausted-lower d a used =
    if_cases (λ l. exhausted l used ≡ (exhausted d used || exhausted a used)) (a == 0) _ _
      (λ e. ground arith)
      (λ e.
        if_cases (λ l. exhausted l used ≡ (exhausted d used || exhausted a used)) (d == 0) _ _
          (λ f. ground arith) (λ f. ground arith))

-- No limit is reached.
abbrev pub within : AgentBudget → RunState → Totals → Bool
within b rs totals = not (
    exhausted b.max_turns rs.turns
    || (exhausted b.max_tool_calls rs.tool_calls
        || (exhausted b.max_tokens rs.tokens
            || (exhausted b.max_cost_micros rs.cost_micros
                || lifetime_exceeded totals b.max_lifetime_cost_micros))))

pub is_empty-budget_limit :
    (b : AgentBudget) (rs : RunState) (totals : Totals)
    → is_empty (budget_limit b rs totals) ≡ within b rs totals
unfolding budget_limit
is_empty-budget_limit b rs totals =
    if_cases (λ t. is_empty t ≡ within b rs totals) (exhausted b.max_turns rs.turns) _ _
      (λ e. ground arith)
      (λ e.
        if_cases (λ t. is_empty t ≡ within b rs totals) (exhausted b.max_tool_calls rs.tool_calls) _
          _ (λ f. ground arith)
          (λ f.
            if_cases (λ t. is_empty t ≡ within b rs totals) (exhausted b.max_tokens rs.tokens) _ _
              (λ g. ground arith)
              (λ g.
                if_cases (λ t. is_empty t ≡ within b rs totals)
                  (exhausted b.max_cost_micros rs.cost_micros) _ _ (λ h. ground arith)
                  (λ h.
                    if_cases (λ t. is_empty t ≡ within b rs totals)
                      (lifetime_exceeded totals b.max_lifetime_cost_micros) _ _ (λ i. ground arith)
                      (λ i. ground arith)))))

any-min :
    (d a : ℕ) (totals : List ℕ)
    → any (λ t. leb (min d a) t) totals ≡ (any (λ t. leb d t) totals || any (λ t. leb a t) totals)
any-min d a [] = refl
any-min d a (t ∷ totals) = ground (arith, any-min d a totals)

lifetime_exceeded-lower :
    (totals : Totals) (d a : ℕ)
    → lifetime_exceeded totals (lower d a)
      ≡ (lifetime_exceeded totals d || lifetime_exceeded totals a)
unfolding lifetime_exceeded
lifetime_exceeded-lower none d a = refl
lifetime_exceeded-lower (some totals) d a = ground (arith, any-min d a totals)

-- The earlier of two timers, of which each may not be set.
abbrev pub earlier : Option ℕ → Option ℕ → Option ℕ
earlier none t = t
earlier (some s) none = some s
earlier (some s) (some t) = some (min s t)

wall_delay-merge_budget :
    (def own : AgentBudget) (age : ℕ)
    → wall_delay (merge_budget def own) age ≡ earlier (wall_delay def age) (wall_delay own age)
unfolding wall_delay merge_budget
wall_delay-merge_budget def own age = ground arith

-- A run under the merged budget may begin a turn exactly where it may under each of the two, whatever it
-- has used and its agent and the agent's ancestors have cost; and its timer is the earlier of theirs.
pub budget_limit-merge_budget :
    (def own : AgentBudget) (rs : RunState) (totals : Totals) (age : ℕ)
    → (is_empty (budget_limit (merge_budget def own) rs totals)
        ≡ (is_empty (budget_limit def rs totals) && is_empty (budget_limit own rs totals)))
      × (wall_delay (merge_budget def own) age ≡ earlier (wall_delay def age) (wall_delay own age))
unfolding merge_budget
budget_limit-merge_budget def own rs totals age = (
  ground (
    arith,
    is_empty-budget_limit (merge_budget def own) rs totals,
    is_empty-budget_limit def rs totals,
    is_empty-budget_limit own rs totals,
    exhausted-lower def.max_turns own.max_turns rs.turns,
    exhausted-lower def.max_tool_calls own.max_tool_calls rs.tool_calls,
    exhausted-lower def.max_tokens own.max_tokens rs.tokens,
    exhausted-lower def.max_cost_micros own.max_cost_micros rs.cost_micros,
    lifetime_exceeded-lower totals def.max_lifetime_cost_micros own.max_lifetime_cost_micros,
  ),
  wall_delay-merge_budget def own age,
)
