-- ===== src/Execution/Record.antt =====
-- What an agent's call leaves behind.
use mcp_switchboard.Prelude.{
  ◌≡◌, ◌⊎◌, refl, sym, subst, inl, inr, Bool, true, false, not, ◌&&◌, ◌||◌, List, Option, none,
  some, Text, Map, arith, has_prefix, any, if_cases, if_ind, if◌then◌else◌,
}
use mcp_switchboard.Grants.{Grant, resolve}
use mcp_switchboard.Registry.{iter_servers, ServerChannel, Connection, is_empty, ref_of, ready}
use mcp_switchboard.Tools.Names.{has_named, is_none, is_none-resolve_agent_tool}
use mcp_switchboard.Tools.{sole_client, resolve_agent_tool, tool_allowed}
use mcp_switchboard.Calls.Records.{
  Answer, failed, answered, Request, Result, CallRecord, Outside, Dispatcher,
}
use mcp_switchboard.Calls.{
  LocalRequest, Outcome, refused, returned, call, local, deny, concluded, concluded_local,
}
use mcp_switchboard.Calls.Audit.{Traced, call-Traced, local-Traced, deny-Traced}
use mcp_switchboard.Execution.Authority.{sent}
use mcp_switchboard.Execution.{
  Agent, RunState, Manager, GrantsRead, unreadable, grants, ToolOutcome, exec_tool, exec_own,
  exec_upstream, exec_named_own, exec_granted, exec_resolved, SbTool, sb_tool, shown_to,
  with_outcome, after_call, outcome_from_result, own_prefix, or_no_args, local_request, request,
  schema_of, tool_of, ann_of, gate_for, agent_rules, not_permitted, not_allowed,
}

-- One trace in each part of the dispatcher, which is ok where the outcome is no error.
pub record Recorded (o : Outside) (id : Text) (d : Dispatcher) (p : Dispatcher × ToolOutcome)
    : Type 0 where
  pub result : Result
  pub traced : Traced o d id (not p.1.is_error) p.0 result

-- Nothing was called and nothing was recorded.
abbrev pub Unknown : Dispatcher → Dispatcher × ToolOutcome → Type 0
Unknown d (d', out) = (d' ≡ d) × (out.is_error ≡ true)

-- That there is nothing to call: the hub has no such tool of its own or does not show it to the agent; or
-- the grants are unreadable, or no tool of a connected server has the name, those of other clients left out
-- where the agent is pinned to one.
abbrev pub own_missing : Agent → Option SbTool → Bool
own_missing a none = true
own_missing a (some sb) = not (shown_to sb a)

abbrev pub granted_missing : Manager → Text → GrantsRead → Bool
granted_missing m name (unreadable _) = true
granted_missing m name (grants gs) =
    not (any (has_named (sole_client gs) name) (iter_servers m.reg))

abbrev pub is_missing : Manager → Agent → Text → Bool
is_missing m a name =
    if has_prefix own_prefix name
    then own_missing a (sb_tool m name)
    else granted_missing m name m.list_grants

-- An error that is told makes the result an error.
abbrev Tells : Result → Type 0
Tells res = (res.is_error || not (is_empty res.error)) ≡ res.is_error

concluded-Tells : (o : Outside) (r : CallRecord) (a : Answer) → Tells (concluded o r a).1
unfolding concluded
concluded-Tells o r (failed text deadline) = refl
concluded-Tells o r (answered res) =
    if_ind (λ (p : CallRecord × Result). Tells p.1) res.is_error _ _ refl refl

call-Tells :
    (o : Outside) (id : Text) (req : Request) (c : Connection) (ch : ServerChannel) (d : Dispatcher)
    → ready ch ≡ true
    → Tells (call o id req c ch d).1
unfolding call
call-Tells o id req c ch d live =
    rw (live) (concluded-Tells o _ (o.call_tool req.tool req.arguments))

-- What relates two conditionals on one test.
if_both :
    {A B : Type 0}
    → (P : A → B → Type 0) (b : Bool) → {x y : A} → {u v : B} → P x u
    → P y v
    → P (if b then x else y) (if b then u else v)
if_both P true p q = p
if_both P false p q = q

module _ (m : Manager) (id : Text) (d : Dispatcher) where
  with_outcome-Recorded :
      (p : Dispatcher × Result) (good : Bool)
      → Traced m.disp d id good p.0 p.1
      → not (p.1.is_error || not (is_empty p.1.error)) ≡ good
      → Recorded m.disp id d (with_outcome m p)
  unfolding outcome_from_result
  with_outcome-Recorded (d', res) good t e = record {
    result = res;
    traced = subst (λ g. Traced m.disp d id g d' res) (sym e) t;
  }

  deny-Recorded :
      (req : Request) (reason : Text)
      → Recorded m.disp id d (with_outcome m (deny m.disp id req reason d))
  unfolding deny
  deny-Recorded req reason =
      with_outcome-Recorded (deny m.disp id req reason d) false (deny-Traced m.disp id req reason d)
        refl

  local-Recorded :
      (req : LocalRequest) (out : Outcome)
      → Recorded m.disp id d (with_outcome m (local m.disp id req out d))
  unfolding local concluded_local
  local-Recorded req (refused text denied) =
      with_outcome-Recorded (local m.disp id req (refused text denied) d) false
        (local-Traced m.disp id req (refused text denied) d) refl
  local-Recorded req (returned text) =
      with_outcome-Recorded (local m.disp id req (returned text) d) true
        (local-Traced m.disp id req (returned text) d) refl

  call-Recorded :
      (req : Request) (c : Connection) (ch : ServerChannel)
      → Recorded m.disp id d (after_call m ch (call m.disp id req c ch d))
  call-Recorded req c ch =
      let p : Dispatcher × Result = call m.disp id req c ch d in
      let traced : Traced m.disp d id (ready ch && not p.1.is_error) p.0 p.1 =
        call-Traced m.disp id req c ch d in
      if_cases (Recorded m.disp id d) (ready ch) _ _
        (λ live.
          with_outcome-Recorded p (ready ch && not p.1.is_error) traced
            (ground (arith, call-Tells m.disp id req c ch d live)))
        (λ lost. record {
          result = p.1;
          traced = subst (λ g. Traced m.disp d id g p.0 p.1) (ground arith) traced;
        })

  exec_own-Recorded :
      (a : Agent) (rs : Option RunState) (name : Text) (args : Map Text) (sb : SbTool)
      → Recorded m.disp id d (exec_own m id a rs name args sb d)
  unfolding exec_own
  exec_own-Recorded a rs name args sb = search (local-Recorded)

  exec_upstream-Recorded :
      (a : Agent) (rs : Option RunState) (name : Text) (args : Map Text) (gs : List Grant)
      (c : Connection) (ch : ServerChannel) (upstream : Text)
      → Recorded m.disp id d (exec_upstream m id a rs name args gs c ch upstream d)
  unfolding exec_upstream
  exec_upstream-Recorded a rs name args gs c ch upstream =
      let problems =
        m.checker.validate_args (schema_of (tool_of ch upstream)) (sent m ch upstream args) in
      let pass : Bool × Text = gate_for m a rs name (ann_of (tool_of ch upstream)) in
      let req : Request = record (request a rs upstream name (sent m ch upstream args)) {
        connection = some c;
        channel = some ch;
      } in
      let Fine = Recorded m.disp id d in
      if_ind Fine (not (resolve (agent_rules gs) (ref_of ch)).0) _ _
        (deny-Recorded req (not_permitted ch))
        (if_ind Fine (not (tool_allowed m.glob a.tool_allow upstream)) _ _
          (deny-Recorded req (not_allowed m a upstream))
          (if_ind Fine (not (is_empty problems)) _ _
            (local-Recorded
              (local_request a rs c.label ch.name upstream name (sent m ch upstream args))
              (refused problems false))
            (if_ind Fine (not pass.0) _ _ (deny-Recorded req pass.1) (call-Recorded req c ch))))

  abbrev Accounted : Bool → Dispatcher × ToolOutcome → Type 0
  Accounted missing p = (missing ≡ true) × Unknown d p ⊎ (missing ≡ false) × Recorded m.disp id d p

  exec_named_own-Accounted :
      (a : Agent) (rs : Option RunState) (name : Text) (args : Map Text) (o : Option SbTool)
      → Accounted (own_missing a o) (exec_named_own m id a rs name args o d)
  exec_named_own-Accounted a rs name args none = inl (refl, (refl, refl))
  exec_named_own-Accounted a rs name args (some sb) =
      if_cases (Accounted (not (shown_to sb a))) (shown_to sb a) _ _
        (λ h. inr (ground arith, exec_own-Recorded a rs name args sb))
        (λ h. inl (ground arith, (refl, refl)))

  exec_resolved-Accounted :
      (a : Agent) (rs : Option RunState) (name : Text) (args : Map Text) (gs : List Grant)
      (o : Option (Connection × ServerChannel × Text))
      → Accounted (is_none o) (exec_resolved m id a rs name args gs o d)
  exec_resolved-Accounted a rs name args gs none = inl (refl, (refl, refl))
  exec_resolved-Accounted a rs name args gs (some (c, ch, upstream)) =
      inr (refl, exec_upstream-Recorded a rs name args gs c ch upstream)

  exec_granted-Accounted :
      (a : Agent) (rs : Option RunState) (name : Text) (args : Map Text) (g : GrantsRead)
      → Accounted (granted_missing m name g) (exec_granted m id a rs name args g d)
  exec_granted-Accounted a rs name args (unreadable err) = inl (refl, (refl, refl))
  exec_granted-Accounted a rs name args (grants gs) =
      subst (λ missing. Accounted missing (exec_granted m id a rs name args (grants gs) d))
        (is_none-resolve_agent_tool gs name m.reg)
        (exec_resolved-Accounted a rs name args gs (resolve_agent_tool gs name m.reg))

-- A call that finds nothing to call is an error, and nothing is recorded: one of a tool of the hub's own
-- that there is not or that the agent is not shown, or one whose grants are unreadable or whose name no
-- tool of a connected server has, those of other clients left out where the agent is pinned to one. Any
-- other, a call that is refused included, leaves exactly one trace in each part of the dispatcher, the
-- store where that writes the row, whichever way it ends, and the trace is ok exactly where the model is
-- told of no error.
pub exec_tool-Accounted :
    (m : Manager) (id : Text) (a : Agent) (rs : Option RunState) (name : Text)
    (args : Option (Map Text)) (d : Dispatcher)
    → let p = exec_tool m id a rs name args d in
      (is_missing m a name ≡ true) × Unknown d p
      ⊎ (is_missing m a name ≡ false) × Recorded m.disp id d p
unfolding exec_tool
exec_tool-Accounted m id a rs name args d =
    if_both (Accounted m id d) (has_prefix own_prefix name)
      (exec_named_own-Accounted m id d a rs name (or_no_args args) (sb_tool m name))
      (exec_granted-Accounted m id d a rs name (or_no_args args) m.list_grants)
