-- ===== src/Execution.antt =====
-- One tool call of an agent: execTool of hub/internal/agents/tools.go, which authorises it and has it made
-- and recorded.
pub mod Authority
pub mod Record
use mcp_switchboard.Prelude.{
  ◌≡◌, Bool, true, false, not, ◌&&◌, ◌||◌, List, [], ◌∷◌, ◌++◌, map, Option, none, some, Text, Map,
  bytes, text_eq, has_prefix, if◌then◌else◌,
}
use mcp_switchboard.Ref.{ServerRef}
use mcp_switchboard.Grants.{Grant, Rule, pat_of, resolve}
use mcp_switchboard.Registry.{
  ToolAnnotations, ToolInfo, ServerChannel, Connection, Registry, is_empty, join, ref_of, ready,
}
use mcp_switchboard.Tools.{Glob, resolve_agent_tool, tool_allowed}
use mcp_switchboard.Calls.Records.{
  Content, text_content, other_content, ToolResult, Request, Result, Dispatcher, Outside,
}
use mcp_switchboard.Calls.{LocalRequest, Outcome, refused, returned, call, deny, local}
use mcp_switchboard.Approval.{Chat, Timeouts, Ending, gate}

pub record Capabilities : Type 0 where
  pub can_spawn : Bool
  pub can_message : Bool

-- What of store.Agent a call reads.
pub record Agent : Type 0 where
  pub id : Text
  pub approval : Text
  pub tool_allow : List Text
  pub capabilities : Capabilities

pub record RunState : Type 0 where
  pub id : Text
  pub chat_id : Text

-- The MCP SDK's annotations, which know nothing of irreversibility.
pub record McpAnnotations : Type 0 where
  pub read_only : Bool
  pub destructive : Option Bool
  pub open_world : Option Bool

-- One of the hub's own tools.
pub record SbTool : Type 0 where
  pub name : Text
  pub schema : Text
  pub ann : Option McpAnnotations
  pub visible : Capabilities → Bool
  pub visible_agent : Option (Agent → Bool)
  pub run : Map Text → Outcome

abbrev extra_shown : Option (Agent → Bool) → Agent → Bool
extra_shown none a = true
extra_shown (some f) a = f a

unfoldable pub shown_to : SbTool → Agent → Bool
shown_to t a = t.visible a.capabilities && extra_shown t.visible_agent a

abbrev pub reg_annotations : Option McpAnnotations → Option ToolAnnotations
reg_annotations none = none
reg_annotations (some a) = some (record {
  read_only = a.read_only;
  destructive = a.destructive;
  open_world = a.open_world;
  irreversible = false;
  reason = [];
})

-- What ListGrants answers.
pub data GrantsRead : Type 0 where
  unreadable : Text → GrantsRead
  grants : List Grant → GrantsRead

-- The checker of arguments, hub/internal/agents/schemacheck.go: a schema is its JSON text, and the check
-- returns the empty text where there is nothing to report.
pub record Checker : Type 0 where
  pub normalize_args : Text → Map Text → Map Text
  pub validate_args : Text → Map Text → Text

-- What a call of a tool is made in: the hub's parts, and how things stand. `chat` is the chat of the run;
-- `ending` is how a wait for the approver ends. The texts are what Go's `%q` and `%v` print.
pub record Manager : Type 0 where
  pub disp : Outside
  pub glob : Glob
  pub checker : Checker
  pub reg : Registry
  pub sb_by_name : List SbTool
  pub skill_load : SbTool
  pub extra_tools : List SbTool
  pub list_grants : GrantsRead
  pub chat : Option Chat
  pub timeouts : Timeouts
  pub ending : Ending
  pub quoted : Text → Text
  pub printed : List Text → Text
  pub image_of : Text → Option (Text × Text)

-- A block of a transcript.
pub data Block : Type 0 where
  block_text : Text → Block
  block_image : Text → Text → Block

pub record ToolOutcome : Type 0 where
  pub call_id : Text
  pub blocks : List Block
  pub is_error : Bool

abbrev text_blocks : Text → List Block
text_blocks s = block_text s ∷ []

abbrev pub tool_err : Text → ToolOutcome
tool_err msg = record { call_id = []; blocks = text_blocks msg; is_error = true }

-- A content that is no text is an image, or shown as its JSON.
abbrev block_of : (Text → Option (Text × Text)) → Content → Block
block_of image_of (text_content t) = block_text t
block_of image_of (other_content raw) = elim (image_of raw) [
  | none ↦ block_text raw
  | some (image, media) ↦ block_image image media
]

abbrev blocks_from_result : (Text → Option (Text × Text)) → Option ToolResult → List Block
blocks_from_result image_of none = []
blocks_from_result image_of (some res) = map (block_of image_of) res.content

abbrev or_error : Text → List Block → List Block
or_error error [] = if is_empty error then [] else text_blocks error
or_error error (b ∷ bs) = b ∷ bs

unfoldable pub outcome_from_result : (Text → Option (Text × Text)) → Result → ToolOutcome
outcome_from_result image_of r = record {
  call_id = r.call_id;
  blocks = or_error r.error (blocks_from_result image_of r.result);
  is_error = r.is_error || not (is_empty r.error);
}

abbrev pub agent_rules : List Grant → List Rule
agent_rules gs = map (λ g. record { ref = pat_of g; allowed = g.allowed }) gs

-- `ServerRef.String`
abbrev ref_text : ServerRef → Text
ref_text r =
    if is_empty r.project
    then r.label ++ (bytes "/" ++ r.server)
    else r.label ++ (bytes "/" ++ (r.project ++ (bytes "/" ++ r.server)))

unfoldable pub find_tool : Text → List SbTool → Option SbTool
find_tool name [] = none
find_tool name (t ∷ ts) =
    let rest = find_tool name ts in if text_eq t.name name then some t else rest

abbrev or_tool : Option SbTool → Option SbTool → Option SbTool
or_tool none t = t
or_tool (some s) t = some s

-- Which of the hub's own tools a name means.
unfoldable pub sb_tool : Manager → Text → Option SbTool
unfolding find_tool
sb_tool m name =
    if text_eq name m.skill_load.name
    then some m.skill_load
    else or_tool (find_tool name m.extra_tools) (find_tool name m.sb_by_name)

-- The last of a server's tools with the name, which the loop ends with.
unfoldable pub last_named : Text → Option ToolInfo → List ToolInfo → Option ToolInfo
last_named upstream found [] = found
last_named upstream found (t ∷ ts) =
    last_named upstream (if text_eq t.name upstream then some t else found) ts

abbrev pub ann_of : Option ToolInfo → Option ToolAnnotations
ann_of none = none
ann_of (some t) = t.annotations

abbrev pub schema_of : Option ToolInfo → Text
schema_of none = []
schema_of (some t) = t.input_schema

abbrev pub tool_of : ServerChannel → Text → Option ToolInfo
tool_of ch upstream = last_named upstream none ch.tools

abbrev chat_id_of : Option RunState → Option Text
chat_id_of none = none
chat_id_of (some rs) = some rs.chat_id

abbrev run_id_of : Option RunState → Option Text
run_id_of none = none
run_id_of (some rs) = some rs.id

abbrev pub is_run : Option RunState → Bool
is_run none = false
is_run (some _) = true

-- `gateChat`
abbrev pub gate_chat : Manager → Option RunState → Option Chat
gate_chat m none = none
gate_chat m (some rs) = if is_empty rs.chat_id then none else m.chat

-- The gate, for a call of this agent in this run.
abbrev pub gate_for :
    Manager → Agent → Option RunState → Text → Option ToolAnnotations → Bool × Text
gate_for m a rs name ann = gate m.timeouts a.approval (gate_chat m rs) (is_run rs) name ann m.ending

abbrev pub local_request :
    Agent → Option RunState → Text → Text → Text → Text → Map Text → LocalRequest
local_request a rs label server tool name args = record {
  label = label;
  server = server;
  tool = tool;
  exposed_name = name;
  arguments = some args;
  source = bytes "agent";
  agent_id = some a.id;
  chat_id = chat_id_of rs;
  run_id = run_id_of rs;
}

abbrev pub request : Agent → Option RunState → Text → Text → Map Text → Request
request a rs upstream name args = record {
  connection = none;
  channel = none;
  tool = upstream;
  exposed_name = name;
  arguments = some args;
  source = bytes "agent";
  agent_id = some a.id;
  chat_id = chat_id_of rs;
  run_id = run_id_of rs;
}

abbrev pub with_outcome : Manager → Dispatcher × Result → Dispatcher × ToolOutcome
with_outcome m (d, res) = (d, outcome_from_result m.image_of res)

abbrev pub gate_error : Text → Text
gate_error reason = bytes "not permitted: " ++ reason

-- What the function of a local call answers: its arguments' problems, the gate's refusal, or its result.
abbrev pub answer_local : Text → Bool × Text → Outcome → Outcome
answer_local problems (passed, reason) result =
    if not (is_empty problems)
    then refused problems false
    else if passed
    then result
    else refused (gate_error reason) true

-- A call of one of the hub's own tools.
unfoldable pub exec_own :
    Manager
    → Text
    → Agent
    → Option RunState
    → Text
    → Map Text
    → SbTool
    → Dispatcher
    → Dispatcher × ToolOutcome
unfolding local outcome_from_result gate
exec_own m id a rs name args' sb d =
    let args = m.checker.normalize_args sb.schema args' in
    let req = local_request a rs (bytes "switchboard") (bytes "orchestrator") name name args in
    let problems = m.checker.validate_args sb.schema args in
    let passed = gate_for m a rs name (reg_annotations sb.ann) in
    with_outcome m (local m.disp id req (answer_local problems passed (sb.run args)) d)

abbrev pub not_permitted : ServerChannel → Text
not_permitted ch = bytes "not permitted: " ++ ref_text (ref_of ch)

abbrev pub not_allowed : Manager → Agent → Text → Text
not_allowed m a upstream =
    bytes "not permitted: tool "
    ++ (m.quoted upstream
        ++ (bytes " is not in this chat's allowed tools " ++ m.printed a.tool_allow))

-- What becomes of the dispatcher's answer; ErrNotConnected goes with the channels that are not ready.
abbrev pub after_call : Manager → ServerChannel → Dispatcher × Result → Dispatcher × ToolOutcome
after_call m ch (d, res) =
    if ready ch
    then (d, outcome_from_result m.image_of res)
    else (d, tool_err (bytes "server not connected: " ++ ref_text (ref_of ch)))

-- A call of a tool that a server has.
unfoldable pub exec_upstream :
    Manager
    → Text
    → Agent
    → Option RunState
    → Text
    → Map Text
    → List Grant
    → Connection
    → ServerChannel
    → Text
    → Dispatcher
    → Dispatcher × ToolOutcome
unfolding resolve tool_allowed gate deny local call outcome_from_result last_named ready
exec_upstream m id a rs name args' gs c ch upstream d =
    let schema = schema_of (tool_of ch upstream) in
    let args = m.checker.normalize_args schema args' in
    let req : Request = record (request a rs upstream name args) {
      connection = some c;
      channel = some ch;
    } in
    let problems = m.checker.validate_args schema args in
    let passed : Bool × Text = gate_for m a rs name (ann_of (tool_of ch upstream)) in
    if not (resolve (agent_rules gs) (ref_of ch)).0
    then with_outcome m (deny m.disp id req (not_permitted ch) d)
    else if not (tool_allowed m.glob a.tool_allow upstream)
    then with_outcome m (deny m.disp id req (not_allowed m a upstream) d)
    else if not (is_empty problems)
    then with_outcome m (
        local m.disp id (local_request a rs c.label ch.name upstream name args)
          (refused problems false) d)
    else if not passed.0
    then with_outcome m (deny m.disp id req passed.1 d)
    else after_call m ch (call m.disp id req c ch d)

abbrev unknown_own : Manager → Text → Dispatcher → Dispatcher × ToolOutcome
unknown_own m name d = (d, tool_err (bytes "unknown tool " ++ m.quoted name))

abbrev unknown_upstream : Manager → Text → Dispatcher → Dispatcher × ToolOutcome
unknown_upstream m name d = (
  d,
  tool_err (
      bytes "unknown tool "
      ++ (m.quoted name ++ bytes ": it is not offered by any connected server")),
)

abbrev or_no_args : Option (Map Text) → Map Text
or_no_args none = []
or_no_args (some args) = args

abbrev pub own_prefix : Text
own_prefix = bytes "switchboard."

-- The first branch of `execTool`.
abbrev pub exec_named_own :
    Manager
    → Text
    → Agent
    → Option RunState
    → Text
    → Map Text
    → Option SbTool
    → Dispatcher
    → Dispatcher × ToolOutcome
exec_named_own m id a rs name args none d = unknown_own m name d
exec_named_own m id a rs name args (some sb) d =
    if shown_to sb a then exec_own m id a rs name args sb d else unknown_own m name d

abbrev pub exec_resolved :
    Manager
    → Text
    → Agent
    → Option RunState
    → Text
    → Map Text
    → List Grant
    → Option (Connection × ServerChannel × Text)
    → Dispatcher
    → Dispatcher × ToolOutcome
exec_resolved m id a rs name args gs none d = unknown_upstream m name d
exec_resolved m id a rs name args gs (some (c, ch, upstream)) d =
    exec_upstream m id a rs name args gs c ch upstream d

abbrev pub exec_granted :
    Manager
    → Text
    → Agent
    → Option RunState
    → Text
    → Map Text
    → GrantsRead
    → Dispatcher
    → Dispatcher × ToolOutcome
exec_granted m id a rs name args (unreadable err) d =
    (d, tool_err (bytes "could not read grants: " ++ err))
exec_granted m id a rs name args (grants gs) d =
    exec_resolved m id a rs name args gs (resolve_agent_tool gs name m.reg) d

-- `execTool`. The text `id` is the identity that the dispatcher draws for the call.
unfoldable pub exec_tool :
    Manager
    → Text
    → Agent
    → Option RunState
    → Text
    → Option (Map Text)
    → Dispatcher
    → Dispatcher × ToolOutcome
unfolding exec_own exec_upstream sb_tool shown_to resolve_agent_tool has_prefix
exec_tool m id a rs name args d =
    if has_prefix own_prefix name
    then exec_named_own m id a rs name (or_no_args args) (sb_tool m name) d
    else exec_granted m id a rs name (or_no_args args) m.list_grants d
