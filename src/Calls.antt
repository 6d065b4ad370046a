-- ===== src/Calls.antt =====
-- The shared instrumentation of every tool call: Call, Deny and Local of hub/internal/calls/dispatch.go.
pub mod Records
pub mod Audit
use mcp_switchboard.Prelude.{
  ℕ, Bool, true, false, not, ◌&&◌, List, [], ◌∷◌, ◌++◌, Option, none, some, Text, Map, bytes,
  if◌then◌else◌,
}
use mcp_switchboard.Registry.{ServerChannel, Connection, is_empty, ready}
use mcp_switchboard.Calls.Records.{
  Status, status_ok, status_error, status_denied, Content, text_content, other_content, ToolResult,
  CallRecord, Request, Result, Line, Observation, Dispatcher, Answer, failed, answered, Outside,
  or_empty, given, observation, line, finish,
}

-- firstText
unfoldable pub first_text : List Content → Text
first_text [] = bytes "the tool reported an error"
first_text (other_content _ ∷ cs) = first_text cs
first_text (text_content t ∷ cs) = let rest = first_text cs in if is_empty t then rest else t

abbrev connection_id : Request → Text
connection_id req = elim req.connection [ none ↦ [] | some c ↦ c.id ]

abbrev label : Request → Text
label req = elim req.connection [ none ↦ [] | some c ↦ c.label ]

abbrev server : Request → Text
server req = elim req.channel [ none ↦ [] | some ch ↦ ch.name ]

-- The record as each of the three starts it.
abbrev pub opened : Text → Request → Status → Text → CallRecord
opened id req status error = record {
  id = id;
  connection_id = connection_id req;
  label = label req;
  server = server req;
  tool = req.tool;
  exposed_name = req.exposed_name;
  arguments = or_empty req.arguments;
  status = status;
  error = error;
  source = req.source;
  agent_id = req.agent_id;
  chat_id = req.chat_id;
  run_id = req.run_id;
  duration = 0;
  result = none;
}

abbrev pub not_connected : Text
not_connected = bytes "server not connected"

-- The error's own text, or the explanation of the hub's deadline.
abbrev failure_text : Outside → Text → Bool → Text
failure_text o text deadline = if deadline && o.caller_live then o.deadline_text else text

-- The switch on the session's answer: the record, and the result that goes with it.
unfoldable pub concluded : Outside → CallRecord → Answer → CallRecord × Result
unfolding first_text
concluded o r (failed text deadline) = (
  record r { status = status_error; error = failure_text o text deadline },
  record { call_id = r.id; result = none; is_error = true; error = failure_text o text deadline },
)
concluded o r (answered res) =
    if res.is_error
    then (
      record r {
        status = status_error;
        error = first_text res.content;
        result = some (o.result_to_map res);
      },
      record { call_id = r.id; result = some res; is_error = true; error = first_text res.content },
    )
    else (
      record r { result = some (o.result_to_map res) },
      record { call_id = r.id; result = some res; is_error = false; error = [] },
    )

abbrev pub finish_with : Outside → CallRecord × Result → Dispatcher → Dispatcher × Result
finish_with o (r, res) d = (finish o r d, res)

abbrev known : Request → Connection → ServerChannel → Request
known req c ch = record req { connection = some c; channel = some ch }

abbrev timed : Outside → CallRecord → CallRecord
timed o r = record r { duration = o.duration }

abbrev call_lost : Outside → CallRecord → Dispatcher → Dispatcher × Result
call_lost o r d = (
  finish o r d,
  record { call_id = r.id; result = none; is_error = false; error = not_connected },
)

-- `Call`, for a request whose server is known: what it leaves, and what it returns. The error that says
-- that nothing could be called goes with exactly the channels that have no session.
unfoldable pub call :
    Outside → Text → Request → Connection → ServerChannel → Dispatcher → Dispatcher × Result
unfolding finish concluded ready
call o id req c ch d =
    if ready ch
    then finish_with o
        (concluded o (timed o (opened id (known req c ch) status_ok []))
          (o.call_tool req.tool req.arguments))
        d
    else call_lost o (opened id (known req c ch) status_error not_connected) d

-- `Deny`
unfoldable pub deny : Outside → Text → Request → Text → Dispatcher → Dispatcher × Result
unfolding finish
deny o id req reason d = (
  finish o (opened id req status_denied reason) d,
  record { call_id = id; result = none; is_error = true; error = reason },
)

pub record LocalRequest : Type 0 where
  pub label : Text
  pub server : Text
  pub tool : Text
  pub exposed_name : Text
  pub arguments : Option (Map Text)
  pub source : Text
  pub agent_id : Option Text
  pub chat_id : Option Text
  pub run_id : Option Text

-- What the function that answers a local call returns: an error, with its text and whether it wraps
-- ErrDenied, or a value, as the text that it is shown as.
pub data Outcome : Type 0 where
  refused : Text → Bool → Outcome
  returned : Text → Outcome

abbrev opened_local : Outside → Text → LocalRequest → CallRecord
opened_local o id req = record {
  id = id;
  connection_id = [];
  label = req.label;
  server = req.server;
  tool = req.tool;
  exposed_name = req.exposed_name;
  arguments = or_empty req.arguments;
  status = status_ok;
  error = [];
  source = req.source;
  agent_id = req.agent_id;
  chat_id = req.chat_id;
  run_id = req.run_id;
  duration = o.duration;
  result = none;
}

abbrev as_text : Text → Bool → ToolResult
as_text text is_error = record { content = text_content text ∷ []; is_error = is_error }

unfoldable pub concluded_local : Outside → CallRecord → Outcome → CallRecord × Result
concluded_local o r (refused text denied) = (
  record r {
    status = if denied then status_denied else status_error;
    error = text;
    result = some (o.result_to_map (as_text text true));
  },
  record { call_id = r.id; result = some (as_text text true); is_error = true; error = text },
)
concluded_local o r (returned text) = (
  record r { result = some (o.result_to_map (as_text text false)) },
  record { call_id = r.id; result = some (as_text text false); is_error = false; error = [] },
)

-- `Local`
unfoldable pub local : Outside → Text → LocalRequest → Outcome → Dispatcher → Dispatcher × Result
unfolding finish concluded_local
local o id req outcome d = finish_with o (concluded_local o (opened_local o id req) outcome) d
