-- ===== src/Witnesses/Execution.antt =====
-- Calls of an agent: one that is made, and the gate at irreversible tools.
use mcp_switchboard.Prelude.{
  ◌≡◌, ◌≢◌, ◌⊎◌, refl, sym, ◌∙◌, true, false, [], ◌∷◌, none, some, bytes, Text, text_eq, ap, arith,
}
use mcp_switchboard.Ref.{matches, field_matches}
use mcp_switchboard.Registry.{ToolAnnotations, compose_tool_name}
use mcp_switchboard.Grants.{Grant}
use mcp_switchboard.Tools.{Glob}
use mcp_switchboard.Calls.Records.{answered, text_content}
use mcp_switchboard.Calls.{returned}
use mcp_switchboard.Approval.{Timeouts, Ending, decided, approval_destructive}
use mcp_switchboard.Execution.{Agent, RunState, Manager, SbTool, grants, exec_tool}
use mcp_switchboard.Execution.Authority.{Session, answering, Authorised, exec_tool-Authorised}
use mcp_switchboard.Execution.Record.{is_missing, Unknown, Recorded, exec_tool-Accounted}
use mcp_switchboard.Witnesses.Tree.{tree}
use mcp_switchboard.Witnesses.Records.{outside, dispatcher}

abbrev skill : SbTool
skill = record {
  name = bytes "switchboard.skill.load";
  schema = [];
  ann = none;
  visible = λ c. true;
  visible_agent = none;
  run = λ args. returned (bytes "a skill");
}

abbrev laptop_grant : Grant
laptop_grant = record {
  label = bytes "laptop";
  project = bytes "*";
  server = bytes "files";
  allowed = true;
  source = bytes "explicit";
}

abbrev agent : Agent
agent = record {
  id = bytes "a1";
  approval = approval_destructive;
  tool_allow = [];
  capabilities = record { can_spawn = false; can_message = false };
}

abbrev run_state : RunState
run_state = record { id = bytes "r1"; chat_id = bytes "t1" }

abbrev timeouts : Timeouts
timeouts = record { call_timeout = bytes "2m0s"; approval_timeout = bytes "1h0m0s" }

abbrev yes_ending : Ending
yes_ending = decided (record { approved = true; reason = [] })

-- No pattern is used: the list of the agent is empty.
abbrev no_glob : Glob
no_glob = record { glob_match = λ p s. some (text_eq p s); trim_space = λ s. s }

abbrev hub : Manager
hub = record {
  disp = outside;
  glob = no_glob;
  checker = record { normalize_args = λ schema args. args; validate_args = λ schema args. [] };
  reg = tree;
  sb_by_name = [];
  skill_load = skill;
  extra_tools = [];
  list_grants = grants (laptop_grant ∷ []);
  chat = some (record { approval = []; auto_approve = false });
  timeouts = timeouts;
  ending = yes_ending;
  quoted = λ s. s;
  printed = λ ps. [];
  image_of = λ raw. none;
}

abbrev reads : Session
reads tool args =
    answered (record { content = text_content (bytes "hello") ∷ []; is_error = false })

abbrev tool_name : Text
tool_name = bytes "files__read_file"

failure :
    (exec_tool hub (bytes "k1") agent (some run_state) tool_name none dispatcher).1.is_error ≡ true
unfolding exec_tool text_eq compose_tool_name matches field_matches
failure = refl

success :
    (exec_tool
      (answering reads hub)
      (bytes "k1")
      agent
      (some run_state)
      tool_name
      none
      dispatcher).1.is_error
    ≡ false
unfolding exec_tool text_eq compose_tool_name matches field_matches
success = refl

distinguished :
    exec_tool (answering reads hub) (bytes "k1") agent (some run_state) tool_name none dispatcher
    ≢ exec_tool hub (bytes "k1") agent (some run_state) tool_name none dispatcher
distinguished e =
    let differs : false ≡ true = sym success ∙ ap (λ p. p.1.is_error) e ∙ failure in
    absurd (ground arith)

exec_tool-Authorised_example : Authorised hub agent (some run_state) tool_name []
exec_tool-Authorised_example =
    exec_tool-Authorised hub reads (bytes "k1") agent (some run_state) tool_name none dispatcher
      distinguished

exec_tool-Accounted_example :
    let p = exec_tool hub (bytes "k1") agent (some run_state) tool_name none dispatcher in
    (is_missing hub agent tool_name ≡ true) × Unknown dispatcher p
    ⊎ (is_missing hub agent tool_name ≡ false) × Recorded outside (bytes "k1") dispatcher p
exec_tool-Accounted_example =
    exec_tool-Accounted hub (bytes "k1") agent (some run_state) tool_name none dispatcher

-- A tool that declares what it does to be final.
abbrev push_branch : ToolAnnotations
push_branch = record {
  read_only = true;
  destructive = none;
  open_world = some false;
  irreversible = true;
  reason = bytes "moves a branch";
}

abbrev harmless : ToolAnnotations
harmless = record {
  read_only = false;
  destructive = some false;
  open_world = some false;
  irreversible = false;
  reason = [];
}
