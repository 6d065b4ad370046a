-- ===== src/Transcript.antt =====
-- The transcript that a model is shown: repairToolPairs of hub/internal/agents/run.go, over the messages
-- of hub/internal/llm/types.go.
pub mod Pairing
pub mod Unchanged
use mcp_switchboard.Prelude.{
  Bool, true, false, not, ◌&&◌, ◌||◌, List, [], ◌∷◌, ◌++◌, map, Text, bytes, text_eq, keep, any,
  if◌then◌else◌,
}
use mcp_switchboard.Window.{
  Block, block_text, ToolCall, ToolResult, Role, role_assistant, role_tool, Message, is_tool,
}

-- The keys of the map `want`. Deleting one leaves no entry of it.
abbrev pub Wanted : Type 0
Wanted = List Text

abbrev pub wants : Text → Wanted → Bool
wants id want = any (λ x. text_eq x id) want

abbrev pub delete_id : Text → Wanted → Wanted
delete_id id want = keep (λ x. not (text_eq x id)) want

abbrev pub call_ids : List ToolCall → Wanted
call_ids calls = map (λ c. c.id) calls

-- The innermost loop: the results of one message that are wanted, and what is wanted after them.
unfoldable pub keep_results : Wanted → List ToolResult → List ToolResult × Wanted
unfolding text_eq
keep_results want [] = ([], want)
keep_results want (r ∷ rs) =
    let kept = keep_results (delete_id r.id want) rs in
    let skipped = keep_results want rs in if wants r.id want then (r ∷ kept.0, kept.1) else skipped

abbrev pub tool_message : List ToolResult → Message
tool_message rs = record { role = role_tool; content = []; tool_calls = []; tool_results = rs }

abbrev pub unless_empty : List ToolResult → List Message → List Message
unless_empty [] ms = ms
unless_empty (r ∷ rs) ms = tool_message (r ∷ rs) ∷ ms

-- The loop over the tool messages that follow: those that remain, and what is still wanted.
unfoldable pub take_answers : Wanted → List Message → List Message × Wanted
unfolding keep_results
take_answers want [] = ([], want)
take_answers want (m ∷ ms) =
    let kept = keep_results want m.tool_results in
    let rest = take_answers kept.1 ms in
    if is_tool m.role then (unless_empty kept.0 rest.0, rest.1) else ([], want)

abbrev interrupted_result : Text → ToolResult
interrupted_result id = record {
  id = id;
  content =
      record {
        type = block_text;
        text = bytes "the call was interrupted before a result was recorded";
      }
      ∷ [];
  is_error = true;
}

abbrev pub interrupted : Text → Message
interrupted id = tool_message (interrupted_result id ∷ [])

-- The last loop, over the calls.
unfoldable pub missing_answers : Wanted → List ToolCall → List Message
unfolding text_eq
missing_answers want [] = []
missing_answers want (c ∷ cs) =
    let rest = missing_answers want cs in if wants c.id want then interrupted c.id ∷ rest else rest

abbrev pub is_assistant : Role → Bool
is_assistant role_assistant = true
is_assistant _ = false

-- The calls that a message asks to have answered.
abbrev pub asked : Message → List ToolCall
asked m = if is_assistant m.role then m.tool_calls else []

abbrev pub answers_of : Message → List Message → List Message
answers_of m rest =
    let taken = take_answers (call_ids (asked m)) rest in
    taken.0 ++ missing_answers taken.1 (asked m)

-- `repairToolPairs`. The tool messages that a call has consumed are passed over here too, as those that
-- answer nothing are, where the source goes on behind them.
unfoldable pub repair_tool_pairs : List Message → List Message
unfolding take_answers missing_answers
repair_tool_pairs [] = []
repair_tool_pairs (m ∷ rest) =
    let repaired = repair_tool_pairs rest in
    if is_tool m.role then repaired else m ∷ (answers_of m rest ++ repaired)
