-- ===== src/Calls/Records.antt =====
-- Requests, results, and the traces that a call leaves: the types and `finish` of
-- hub/internal/calls/dispatch.go. The store, the metrics, the exporter and the bus are lists of what they
-- were given.
use mcp_switchboard.Prelude.{
  ℕ, Bool, List, [], ◌∷◌, ◌++◌, Option, none, some, Text, Map, if◌then◌else◌,
}
use mcp_switchboard.Registry.{ServerChannel, Connection}

pub data Status : Type 0 where
  status_ok status_error status_denied : Status

pub data Content : Type 0 where
  text_content : Text → Content
  other_content : Text → Content

-- mcp.CallToolResult
pub record ToolResult : Type 0 where
  pub content : List Content
  pub is_error : Bool

-- store.CallRecord
pub record CallRecord : Type 0 where
  pub id : Text
  pub connection_id : Text
  pub label : Text
  pub server : Text
  pub tool : Text
  pub exposed_name : Text
  pub arguments : Map Text
  pub status : Status
  pub error : Text
  pub source : Text
  pub agent_id : Option Text
  pub chat_id : Option Text
  pub run_id : Option Text
  pub duration : ℕ
  pub result : Option (Map Text)

-- A nil map of arguments is `none`.
pub record Request : Type 0 where
  pub connection : Option Connection
  pub channel : Option ServerChannel
  pub tool : Text
  pub exposed_name : Text
  pub arguments : Option (Map Text)
  pub source : Text
  pub agent_id : Option Text
  pub chat_id : Option Text
  pub run_id : Option Text

pub record Result : Type 0 where
  pub call_id : Text
  pub result : Option ToolResult
  pub is_error : Bool
  pub error : Text

-- The line that `finish` hands to the exporter.
pub record Line : Type 0 where
  pub call_id : Text
  pub tool : Text
  pub status : Status
  pub error : Text
  pub duration : ℕ
  pub agent_id : Text
  pub run_id : Text
  pub label : Text
  pub server : Text
  pub source : Text

-- One observation of the metrics.
pub record Observation : Type 0 where
  pub label : Text
  pub server : Text
  pub tool : Text
  pub status : Status
  pub source : Text
  pub duration : ℕ

-- Where a dispatcher leaves its traces; `none` is a part that it was given no value for. A part is what
-- it has received so far.
pub record Dispatcher : Type 0 where
  pub store : Option (List CallRecord)
  pub metrics : Option (List Observation)
  pub loki : Option (List Line)
  pub bus : Option (List Text)

-- What a session answers to CallTool: an error with its text, and whether that is the deadline; or a
-- result.
pub data Answer : Type 0 where
  failed : Text → Bool → Answer
  answered : ToolResult → Answer

-- What the dispatcher calls: the generic map of a result, the text for a call that the hub's own deadline
-- ended, whether the store writes a row, the session's answer, and whether the caller's context is live.
pub record Outside : Type 0 where
  pub result_to_map : ToolResult → Map Text
  pub deadline_text : Text
  pub stores : CallRecord → Bool
  pub call_tool : Text → Option (Map Text) → Answer
  pub caller_live : Bool
  pub duration : ℕ

abbrev deref : Option Text → Text
deref none = []
deref (some t) = t

abbrev pub or_empty : Option (Map Text) → Map Text
or_empty none = []
or_empty (some m) = m

abbrev pub given : {A : Type 0} → A → Option (List A) → Option (List A)
given x none = none
given x (some xs) = some (xs ++ (x ∷ []))

abbrev pub observation : CallRecord → Observation
observation r = record {
  label = r.label;
  server = r.server;
  tool = r.tool;
  status = r.status;
  source = r.source;
  duration = r.duration;
}

abbrev pub line : CallRecord → Line
line r = record {
  call_id = r.id;
  tool = r.tool;
  status = r.status;
  error = r.error;
  duration = r.duration;
  agent_id = deref r.agent_id;
  run_id = deref r.run_id;
  label = r.label;
  server = r.server;
  source = r.source;
}

-- A row that the store refuses is only logged.
unfoldable pub finish : Outside → CallRecord → Dispatcher → Dispatcher
finish o r d = record {
  metrics = given (observation r) d.metrics;
  store = if o.stores r then given r d.store else d.store;
  loki = given (line r) d.loki;
  bus = given r.id d.bus;
}
