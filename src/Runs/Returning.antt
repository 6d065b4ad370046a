-- ===== src/Runs/Returning.antt =====
-- A run with a limit of turns returns, within its limits.
use mcp_switchboard.Prelude.{
  ℕ, zero, suc, ◌+◌, ◌≤◌, ◌≡◌, refl, ◌∙◌, Bool, true, false, not, ◌&&◌, ◌||◌, List, [], ◌∷◌, Option,
  none, some, leb, ◌==◌, if_cases, if_ind, arith,
}
use mcp_switchboard.Registry.{is_empty}
use mcp_switchboard.Runs.{
  AgentBudget, RunState, Spent, add_usage, exhausted, budget_limit, reserve_tool_call, exec_tools,
  Turn, turn_tools, turn_done, turn_cancelled, turn_failed, turn_error, after_turn, World, refused,
  ended_by, execute, RunOutcome, refused_by, or_go_on, Lookup, lookup_failed, gone, found,
}
use mcp_switchboard.Runs.Budget.{is_empty-budget_limit}

-- No more than the limits allow: neither turns nor calls.
abbrev pub fits : ℕ → ℕ → Bool
fits limit used = limit == 0 || leb used limit

abbrev pub is_held : AgentBudget → RunState → Bool
is_held b rs = fits b.max_turns rs.turns && fits b.max_tool_calls rs.tool_calls

-- What calls leave: the number of turns, and no more calls than the limit.
abbrev Held : AgentBudget → RunState → RunState → Type 0
Held b rs rs' = (rs'.turns ≡ rs.turns) × (fits b.max_tool_calls rs'.tool_calls ≡ true)

reserve_tool_call-Held :
    (b : AgentBudget) (rs : RunState)
    → fits b.max_tool_calls rs.tool_calls ≡ true
    → Held b rs (reserve_tool_call b rs).0
unfolding reserve_tool_call
reserve_tool_call-Held b rs h =
    if_cases (λ (p : RunState × Bool). Held b rs p.0) (exhausted b.max_tool_calls rs.tool_calls) _ _
      (λ e. (refl, h)) (λ e. (refl, ground arith))

exec_tools-Held :
    (b : AgentBudget) (calls : List Bool) (rs : RunState)
    → fits b.max_tool_calls rs.tool_calls ≡ true
    → Held b rs (exec_tools b calls rs)
unfolding exec_tools
exec_tools-Held b [] rs h = (refl, h)
exec_tools-Held b (true ∷ calls) rs h = exec_tools-Held b calls rs h
exec_tools-Held b (false ∷ calls) rs h =
    let (t, f) = reserve_tool_call-Held b rs h in
    let (t', f') = exec_tools-Held b calls (reserve_tool_call b rs).0 f in (t' ∙ t, f')

add_usage-held :
    (b : AgentBudget) (s : Spent) (rs : RunState)
    → is_held b rs ≡ true
    → exhausted b.max_turns rs.turns ≡ false
    → (is_held b (add_usage s rs) ≡ true) × ((add_usage s rs).turns ≡ suc rs.turns)
unfolding add_usage
add_usage-held b (t, c) rs h e = (ground arith, refl)

after_turn-held :
    (b : AgentBudget) (t : Turn) (rs : RunState)
    → is_held b rs ≡ true
    → exhausted b.max_turns rs.turns ≡ false
    → is_held b (after_turn b t rs) ≡ true
unfolding after_turn
after_turn-held b (turn_tools s calls) rs h e =
    let (k, t) = add_usage-held b s rs h e in
    ground (arith, exec_tools-Held b calls (add_usage s rs))
after_turn-held b (turn_done s f) rs h e = (add_usage-held b s rs h e).0
after_turn-held b (turn_cancelled none) rs h e = h
after_turn-held b (turn_cancelled (some s)) rs h e = (add_usage-held b s rs h e).0
after_turn-held b (turn_failed none x) rs h e = h
after_turn-held b (turn_failed (some s) x) rs h e = (add_usage-held b s rs h e).0
after_turn-held b (turn_error none x) rs h e = h
after_turn-held b (turn_error (some s) x) rs h e = (add_usage-held b s rs h e).0

-- The ends of a run, and where it stands then.
abbrev pub Returned : Type 0
Returned = Option (RunOutcome × RunState)

abbrev pub HeldIn : AgentBudget → Returned → Type 0
HeldIn b none = Unit
HeldIn b (some (out, rs)) = is_held b rs ≡ true

-- A round begins a turn only where the turns are not exhausted.
abbrev MayBegin : AgentBudget → RunState → Option RunOutcome → Type 0
MayBegin b rs none = exhausted b.max_turns rs.turns ≡ false
MayBegin b rs (some out) = Unit

MayBegin-refused_by :
    (b : AgentBudget) (rs : RunState) (l : Lookup) → MayBegin b rs (refused_by b rs l)
MayBegin-refused_by b rs (lookup_failed err) = tt
MayBegin-refused_by b rs gone = tt
MayBegin-refused_by b rs (found totals) =
    if_cases (MayBegin b rs) (is_empty (budget_limit b rs totals)) _ _
      (λ e. ground (arith, is_empty-budget_limit b rs totals)) (λ e. tt)

MayBegin-refused :
    (w : World) (b : AgentBudget) (i : ℕ) (rs : RunState) → MayBegin b rs (refused w b i rs)
MayBegin-refused w b i rs =
    if_ind (MayBegin b rs) (not (w.live i)) _ _ tt (MayBegin-refused_by b rs (w.agent i))

-- A round: the turn, if there is one.
abbrev Advances : AgentBudget → RunState → RunState → Turn → Option RunOutcome → Type 0
Advances b rs after t none = after.turns ≡ suc rs.turns
Advances b rs after t (some out) = Unit

Advances-ended_by :
    (w : World) (b : AgentBudget) (t : Turn) (rs : RunState)
    → is_held b rs ≡ true
    → exhausted b.max_turns rs.turns ≡ false
    → Advances b rs (after_turn b t rs) t (ended_by w.cause t (after_turn b t rs))
unfolding after_turn
Advances-ended_by w b (turn_tools s calls) rs h e =
    let (k, t) = add_usage-held b s rs h e in
    if_ind (Advances b rs (exec_tools b calls (add_usage s rs)) (turn_tools s calls))
      (is_empty (exec_tools b calls (add_usage s rs)).budget_hit) _ _
      ((exec_tools-Held b calls (add_usage s rs) (ground arith)).0 ∙ t) tt
Advances-ended_by w b (turn_done s f) rs h e = tt
Advances-ended_by w b (turn_cancelled s) rs h e = tt
Advances-ended_by w b (turn_failed s x) rs h e = tt
Advances-ended_by w b (turn_error s x) rs h e = tt

-- What is returned, if anything, is within the limits; and something is.
abbrev pub IsSome : Returned → Type 0
IsSome none = ⊥
IsSome (some _) = Unit

abbrev Good : AgentBudget → Returned → Type 0
Good b r = IsSome r × HeldIn b r

Good-begin :
    (b : AgentBudget) (rs : RunState) (o : Option RunOutcome) (rest : Returned)
    → is_held b rs ≡ true
    → MayBegin b rs o
    → (exhausted b.max_turns rs.turns ≡ false → Good b rest)
    → Good b (or_go_on o rs rest)
Good-begin b rs none rest h m g = g m
Good-begin b rs (some out) rest h m g = (tt, h)

Good-end :
    (b : AgentBudget) (rs after : RunState) (t : Turn) (o : Option RunOutcome) (rest : Returned)
    → is_held b after ≡ true
    → Advances b rs after t o
    → (after.turns ≡ suc rs.turns → Good b rest)
    → Good b (or_go_on o after rest)
Good-end b rs after t none rest h m g = g m
Good-end b rs after t (some out) rest h m g = (tt, h)

execute-Good :
    (w : World) (b : AgentBudget) (fuel i : ℕ) (rs : RunState)
    → is_held b rs ≡ true
    → 1 ≤ b.max_turns
    → suc b.max_turns ≤ fuel + rs.turns
    → Good b (execute w b fuel i rs)
unfolding execute
execute-Good w b zero i rs h p f = absurd (ground arith)
execute-Good w b (suc fuel) i rs h p f =
    let t = w.turn i in
    let after = after_turn b t rs in
    Good-begin b rs (refused w b i rs) _ h (MayBegin-refused w b i rs) (λ begins.
      let h' = after_turn-held b t rs h begins in
      Good-end b rs after t (ended_by w.cause t after) _ h' (Advances-ended_by w b t rs h begins)
        (λ n. execute-Good w b fuel (suc i) after h' p (omega (arith, f, n))))

abbrev pub fresh : RunState
fresh = record { turns = 0; tool_calls = 0; tokens = 0; cost_micros = 0; budget_hit = [] }

-- A run whose budget limits its turns returns, whatever its agent, its model and its tools do: its loop
-- makes at most one round more than it may take turns. When it returns it has made no more turns and no
-- more tool calls than the budget allows.
pub execute_returns :
    (w : World) (b : AgentBudget)
    → 1 ≤ b.max_turns
    → IsSome (execute w b (suc b.max_turns) 0 fresh)
      × HeldIn b (execute w b (suc b.max_turns) 0 fresh)
execute_returns w b p = execute-Good w b (suc b.max_turns) 0 fresh (ground arith) p (omega arith)
