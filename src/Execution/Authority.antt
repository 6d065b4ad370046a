-- ===== src/Execution/Authority.antt =====
-- When a call of an agent reaches a server.
use mcp_switchboard.Prelude.{
  ◌≡◌, ◌≢◌, ◌⊎◌, refl, sym, inl, inr, ◌∙◌, Bool, true, false, List, Option, none, some, Text, Map,
  bytes, has_prefix, Bool-cases, Option-cases,
}
use mcp_switchboard.Grants.{Grant, resolve}
use mcp_switchboard.Registry.{ServerChannel, Connection, is_empty, ref_of, ready}
use mcp_switchboard.Tools.{resolve_agent_tool, tool_allowed}
use mcp_switchboard.Calls.Records.{Answer, Dispatcher, finish}
use mcp_switchboard.Calls.{LocalRequest, Outcome, refused, returned, call, local, deny}
use mcp_switchboard.Approval.Gate.{passes, gate_lem}
use mcp_switchboard.Execution.{
  Agent, RunState, Manager, GrantsRead, unreadable, grants, ToolOutcome, agent_rules, tool_of,
  schema_of, ann_of, gate_chat, gate_for, is_run, own_prefix, or_no_args, exec_tool, exec_own,
  exec_upstream, exec_named_own, exec_granted, SbTool, sb_tool, with_outcome, local_request,
  answer_local, reg_annotations,
}

-- What a server answers to a call.
abbrev pub Session : Type 0
Session = Text → Option (Map Text) → Answer

-- The same hub with other servers behind it.
abbrev pub answering : Session → Manager → Manager
answering f m = record m { disp = record m.disp { call_tool = f } }

-- The arguments that a tool is called with.
abbrev pub sent : Manager → ServerChannel → Text → Map Text → Map Text
sent m ch upstream args = m.checker.normalize_args (schema_of (tool_of ch upstream)) args

-- All that a call has to meet at a server: the stored grants permit the server, the agent's list allows
-- the tool, the arguments are in order, the call passes the gate, and the server is connected.
pub record Permitted (m : Manager) (a : Agent) (rs : Option RunState) (args : Map Text)
    (gs : List Grant) (ch : ServerChannel) (upstream : Text) : Type 0 where
  pub permits : (resolve (agent_rules gs) (ref_of ch)).0 ≡ true
  pub allows : tool_allowed m.glob a.tool_allow upstream ≡ true
  pub valid :
      is_empty (m.checker.validate_args (schema_of (tool_of ch upstream)) (sent m ch upstream args))
      ≡ true
  pub gated :
      passes (gate_chat m rs) a.approval (is_run rs) (ann_of (tool_of ch upstream)) m.ending ≡ true
  pub live : ready ch ≡ true

-- The call is of no tool of the hub's own, and what its name means under the grants in the store may be
-- called.
pub record Authorised (m : Manager) (a : Agent) (rs : Option RunState) (name : Text)
    (args : Map Text) : Type 0 where
  pub gs : List Grant
  pub connection : Connection
  pub channel : ServerChannel
  pub upstream : Text
  pub foreign : has_prefix own_prefix name ≡ false
  pub read : m.list_grants ≡ grants gs
  pub resolved : resolve_agent_tool gs name m.reg ≡ some (connection, channel, upstream)
  pub permitted : Permitted m a rs args gs channel upstream

module _ (m : Manager) (f : Session) (id : Text) (a : Agent) (rs : Option RunState) (name : Text)
    (args : Map Text) (d : Dispatcher) where
  abbrev Same : (Manager → Dispatcher × ToolOutcome) → Type 0
  Same run = run (answering f m) ≡ run m

  local-answering :
      (req : LocalRequest) (out : Outcome)
      → Same (λ m'. with_outcome m' (local m'.disp id req out d))
  unfolding local
  local-answering req (refused text denied) = refl
  local-answering req (returned text) = refl

  exec_own-answering : (sb : SbTool) → Same (λ m'. exec_own m' id a rs name args sb d)
  unfolding exec_own
  exec_own-answering sb =
      let sent_own = m.checker.normalize_args sb.schema args in
      local-answering
        (local_request a rs (bytes "switchboard") (bytes "orchestrator") name name sent_own)
        (answer_local (m.checker.validate_args sb.schema sent_own)
          (gate_for m a rs name (reg_annotations sb.ann)) (sb.run sent_own))

  exec_upstream-answering :
      (gs : List Grant) (c : Connection) (ch : ServerChannel) (upstream : Text)
      → Same (λ m'. exec_upstream m' id a rs name args gs c ch upstream d)
        ⊎ Permitted m a rs args gs ch upstream
  unfolding exec_upstream deny finish call
  exec_upstream-answering gs c ch upstream =
      let up = tool_of ch upstream in
      let pass : Bool × Text = gate_for m a rs name (ann_of up) in
      elim (Bool-cases (resolve (agent_rules gs) (ref_of ch)).0) [
        | inr e ↦ inl (rw (e) refl)
        | inl permits ↦ elim (Bool-cases (tool_allowed m.glob a.tool_allow upstream)) [
          | inr e ↦ inl (rw (permits, e) refl)
          | inl allows ↦
              elim (Bool-cases
                (is_empty (m.checker.validate_args (schema_of up) (sent m ch upstream args)))) [
                  | inr e ↦ inl (
                      rw (permits, allows, e)
                        (local-answering
                          (local_request a rs c.label ch.name upstream name
                            (sent m ch upstream args))
                          (refused
                            (m.checker.validate_args (schema_of up) (sent m ch upstream args))
                            false)))
                  | inl valid ↦ elim (Bool-cases pass.0) [
                    | inr e ↦ inl (rw (permits, allows, valid, e) refl)
                    | inl gated ↦ elim (Bool-cases (ready ch)) [
                      | inr e ↦ inl (rw (permits, allows, valid, gated, e) refl)
                      | inl live ↦ inr (record {
                        permits = permits;
                        allows = allows;
                        valid = valid;
                        gated =
                            sym (
                              gate_lem m.timeouts a.approval (gate_chat m rs) (is_run rs) name
                                (ann_of up) m.ending)
                            ∙ gated;
                        live = live;
                      })
                    ]
                  ]
                ]
        ]
      ]

  exec_named_own-answering :
      (o : Option SbTool) → Same (λ m'. exec_named_own m' id a rs name args o d)
  exec_named_own-answering none = refl
  exec_named_own-answering (some sb) = rw (exec_own-answering sb) refl

  exec_granted-answering :
      has_prefix own_prefix name ≡ false
      → (g : GrantsRead) → m.list_grants ≡ g
      → Same (λ m'. exec_granted m' id a rs name args g d) ⊎ Authorised m a rs name args
  exec_granted-answering foreign (unreadable err) read = inl refl
  exec_granted-answering foreign (grants gs) read =
      elim (Option-cases (resolve_agent_tool gs name m.reg)) [
        | inl none_such ↦ inl (rw (none_such) refl)
        | inr ((c, ch, upstream), found) ↦ elim (exec_upstream-answering gs c ch upstream) [
          | inl e ↦ inl (rw (found) e)
          | inr ok ↦ inr (record {
            gs = gs;
            connection = c;
            channel = ch;
            upstream = upstream;
            foreign = foreign;
            read = read;
            resolved = found;
            permitted = ok;
          })
        ]
      ]

answering_cases :
    (m : Manager) (f : Session) (id : Text) (a : Agent) (rs : Option RunState) (name : Text)
    (args : Option (Map Text)) (d : Dispatcher)
    → (exec_tool (answering f m) id a rs name args d ≡ exec_tool m id a rs name args d)
      ⊎ Authorised m a rs name (or_no_args args)
unfolding exec_tool sb_tool
answering_cases m f id a rs name args d = elim (Bool-cases (has_prefix own_prefix name)) [
  | inl own ↦
      inl
        (rw (own) (exec_named_own-answering m f id a rs name (or_no_args args) d (sb_tool m name)))
  | inr foreign ↦
      elim (exec_granted-answering m f id a rs name (or_no_args args) d foreign m.list_grants
        refl) [ inl e ↦ inl (rw (foreign) e) | inr ok ↦ inr ok ]
]

-- What servers answer makes a difference to a call, to what it returns and to the traces that it leaves,
-- only where the call is authorised: with any other servers behind the hub, a call that is not has the
-- same outcome.
pub exec_tool-Authorised :
    (m : Manager) (f : Session) (id : Text) (a : Agent) (rs : Option RunState) (name : Text)
    (args : Option (Map Text)) (d : Dispatcher)
    → exec_tool (answering f m) id a rs name args d ≢ exec_tool m id a rs name args d
    → Authorised m a rs name (or_no_args args)
exec_tool-Authorised m f id a rs name args d h = elim (answering_cases m f id a rs name args d) [
  | inl e ↦ absurd (h e)
  | inr authorised ↦ authorised
]
