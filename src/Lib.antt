-- ===== src/Lib.antt =====
-- A model of the core of the hub: permissions, the tree of servers, the scopes, calls, chat streams
-- and the slots of the run scheduler. All Go code is under hub/internal.
--
-- Machines dial in over a tunnel and declare MCP servers; the registry holds the tree of them. A
-- consumer lists and calls tools at a scope that its URL names; an agent calls tools under names of
-- its own, where its grants permit. The dispatcher makes each call and records it. A run of an
-- agent works while it holds one of a limited number of slots, and publishes frames on its chat's
-- stream, which clients follow and resume.
--
--   Ref: server references and wildcards, ServerRef of hub/internal/registry/registry.go.
--   Grants: Resolve of hub/internal/agents/grants.go, and the patterns and deriveChildGrants of
--     hub/internal/agents/patterns.go. A Go map is an association list, whatever its order.
--   Registry: hub/internal/registry/registry.go, with ComposeToolName and ResolveTool; Registry/Naming has
--     ValidateName of hub/internal/protocol/protocol.go.
--   Endpoint: hub/internal/mcpserver/scope.go, and listing and resolution in server.go beside it.
--   Stream: hub/internal/chatstream/hub.go. Stream/Frame and Stream/Ring are a run's frames and its buffer,
--     Stream/Subscription is a client's queue, Stream/Hub is the hub, each method one step under its lock,
--     and Stream/Hub/Trace is any sequence of them.
--   Slots: acquire, releaseLocked, enterWait, leaveWait and the slots of finish in
--     hub/internal/agents/manager.go. Each critical section is a case of `Slots.step`, and the place where a
--     run's own code stands is its `Seat`.
--   Chats: the maps of runs in submit, finish and cancelRunState there, one operation for each critical
--     section.
--   Calls: Call, Deny, Local and finish of hub/internal/calls/dispatch.go; its types are in Calls/Records.
--   Tools: hub/internal/agents/naming.go and toolallow.go.
--   Approval: the approval gate, needsApproval, gate and approvalRuleNote of hub/internal/agents/tools.go.
--   Pending: the table of what waits for a person: Approve of tools.go there and Answer, toolAsk
--     and parseQuestions of questions.go. A channel is a place in a list.
--   Execution: execTool there, with outcomeFromResult: one call of an agent, from its name to its record.
--   Window: fitToWindow of hub/internal/llm/fitwindow.go.
--   Cap: the cap on the text of one tool result, hub/internal/agents/toolcap.go.
--   Bus: Publish, Subscribe and the end of a subscription in hub/internal/events/events.go.
--   Runs: the loop of execute in hub/internal/agents/run.go with budgetLimit, reserveToolCall and addUsage, and
--     mergeBudget of model.go beside it. What a turn of the model yields is given.
--   Transcript: repairToolPairs there.
--   GrantStore: the grants and edges of hub/internal/store/sqlite_grants.go, and descendantsCTE of
--     sqlite_agents.go there. A statement of SQL is a function on the list of the table's rows.
--   Loki: the exporter of hub/internal/loki/loki.go. Its callers, its pusher and Close are steps that may
--     interleave; Loki/Redaction, Loki/Labels and Loki/Payload are what it ships.
--   Json: decoded JSON.
--   Prelude: the libraries' names, Boolean tests, lists, byte strings and maps.
--   Witnesses: the theorems at concrete inputs, and tests.
--
-- A Go string is its list of bytes, in Window and Cap its list of runes. Counts are natural numbers; the
-- counters of the code start at 0 or 1 and only grow by one, so that 64 bits hold them. Options
-- that the code takes as not positive are 0. Loops go over lists, and that of
-- releaseLocked over its queues; only `Loki.drain` and `Runs.execute` run on fuel, for
-- which the length of the queue of a closed exporter and one more than the limit of turns are enough: an
-- exporter that is not closed drains as long as events keep coming.
--
-- Parameters stand for what is not the repository's code: JSON encoding and strconv in
-- `Stream.Frame.Codec` (with their round trip as `Stream.Hub.Resume.Prints`), an MCP session and
-- the store in `Calls.Records.Outside`, Go's formatting and the checker of arguments in
-- `Execution.Manager`, the printing of numbers in `Cap.marker`, path.Match and strings.TrimSpace in
-- `Tools.Glob`.
--
-- Not modelled: how a turn's prompt is put together and its answer read, prompt compaction, the
-- rest of the SQLite store, the tunnel's I/O, the providers of language models, the HTTP API, the web
-- interface, and the Python client and servers.
pub mod Prelude
pub mod Ref
pub mod Grants
pub mod Registry
pub mod Stream
pub mod Endpoint
pub mod Slots
pub mod Calls
pub mod Tools
pub mod Window
pub mod Chats
pub mod Bus
pub mod Approval
pub mod Execution
pub mod Json
pub mod Loki
pub mod Transcript
pub mod Runs
pub mod GrantStore
pub mod Pending
pub mod Cap
pub mod Witnesses
