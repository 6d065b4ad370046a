-- ===== src/Window.antt =====
-- Making a prompt smaller: fitToWindow of hub/internal/llm/fitwindow.go. A text is its list of runes here.
pub mod Accounting
pub mod Untouched
use mcp_switchboard.Prelude.{
  ℕ, zero, suc, ◌+◌, ◌-◌, ◌*◌, ◌/◌, max, Bool, true, false, not, ◌&&◌, List, [], ◌∷◌, ◌++◌, Option,
  none, some, Text, length, take, get_elem?, ltb, leb, ◌==◌, if◌then◌else◌,
}

-- Of a block only the type and the text are read.
pub data BlockType : Type 0 where
  block_text block_image block_thinking : BlockType

pub record Block : Type 0 where
  pub type : BlockType
  pub text : Text

pub record ToolCall : Type 0 where
  pub id : Text
  pub name : Text
  pub arguments : Text

pub record ToolResult : Type 0 where
  pub id : Text
  pub content : List Block
  pub is_error : Bool

pub data Role : Type 0 where
  role_system role_user role_assistant role_tool : Role

pub record Message : Type 0 where
  pub role : Role
  pub content : List Block
  pub tool_calls : List ToolCall
  pub tool_results : List ToolResult

abbrev pub is_tool : Role → Bool
is_tool role_tool = true
is_tool _ = false

abbrev pub is_text : BlockType → Bool
is_text block_text = true
is_text _ = false

-- The length of a call's arguments as JSON, and the note that so many characters are left out.
pub record Encoding : Type 0 where
  pub marshal : Text → ℕ
  pub note : ℕ → Text

abbrev pub shrunk_result_chars : ℕ
shrunk_result_chars = 800

abbrev pub min_latest_chars : ℕ
min_latest_chars = 2000

abbrev pub marker_allowance : ℕ
marker_allowance = 200

unfoldable pub block_chars : List Block → ℕ
block_chars [] = 0
block_chars (b ∷ bs) = length b.text + block_chars bs

unfoldable pub result_chars : List ToolResult → ℕ
unfolding block_chars
result_chars [] = 0
result_chars (r ∷ rs) = block_chars r.content + result_chars rs

abbrev pub tool_result_chars : Message → ℕ
tool_result_chars m = result_chars m.tool_results

unfoldable pub call_chars : Encoding → List ToolCall → ℕ
call_chars enc [] = 0
call_chars enc (c ∷ cs) = length c.name + enc.marshal c.arguments + call_chars enc cs

unfoldable pub message_chars : Encoding → Message → ℕ
unfolding block_chars call_chars result_chars
message_chars enc m = block_chars m.content + call_chars enc m.tool_calls + tool_result_chars m

unfoldable pub all_chars : Encoding → List Message → ℕ
unfolding message_chars
all_chars enc [] = 0
all_chars enc (m ∷ ms) = message_chars enc m + all_chars enc ms

unfoldable pub shrunk_text : Encoding → Text → ℕ → ℕ → Text
shrunk_text enc text n keep =
    if leb (length text) keep then text else take keep text ++ enc.note (n - keep)

-- One block, and the count of what is used.
unfoldable pub shrink_block : Encoding → ℕ → Block → ℕ → Block × ℕ
unfolding shrunk_text
shrink_block enc keep b used =
    let n = length b.text in
    let text = shrunk_text enc b.text n keep in
    if not (is_text b.type)
    then (b, used)
    else if leb n keep
    then (b, used)
    else (record b { text = text }, used - n + length text)

unfoldable pub shrink_blocks : Encoding → ℕ → List Block → ℕ → List Block × ℕ
unfolding shrink_block
shrink_blocks enc keep [] used = ([], used)
shrink_blocks enc keep (b ∷ bs) used =
    let (b', used') = shrink_block enc keep b used in
    let (bs', used'') = shrink_blocks enc keep bs used' in (b' ∷ bs', used'')

unfoldable pub shrink_results : Encoding → ℕ → List ToolResult → ℕ → List ToolResult × ℕ
unfolding shrink_blocks
shrink_results enc keep [] used = ([], used)
shrink_results enc keep (r ∷ rs) used =
    let (content, used') = shrink_blocks enc keep r.content used in
    let (rs', used'') = shrink_results enc keep rs used' in
    (record r { content = content } ∷ rs', used'')

-- The closure `shrink`, on the message at its index.
unfoldable pub shrink : Encoding → ℕ → Message → ℕ → Message × ℕ
unfolding shrink_results
shrink enc keep m used =
    let (results, used') = shrink_results enc keep m.tool_results used in
    (record m { tool_results = results }, used')

-- The position of the last tool message from position i on, else the one found before.
unfoldable pub last_tool : ℕ → Option ℕ → List Message → Option ℕ
last_tool i last [] = last
last_tool i last (m ∷ ms) = last_tool (suc i) (if is_tool m.role then some i else last) ms

abbrev pub is_at : ℕ → Option ℕ → Bool
is_at i none = false
is_at i (some j) = i == j

-- The loop over the older results, from position i on.
unfoldable pub shrink_older : Encoding → ℕ → Option ℕ → ℕ → List Message → ℕ → List Message × ℕ
unfolding shrink
shrink_older enc budget last i [] used = ([], used)
shrink_older enc budget last i (m ∷ ms) used =
    let (m', used') =
      if ltb budget used && is_tool m.role && not (is_at i last)
      then shrink enc shrunk_result_chars m used
      else (m, used) in
    let (ms', used'') = shrink_older enc budget last (suc i) ms used' in (m' ∷ ms', used'')

-- What is left for the latest results.
abbrev pub latest_keep : ℕ → ℕ → Message → ℕ
latest_keep budget used m =
    max (budget - (used - tool_result_chars m) - marker_allowance) min_latest_chars

-- The message at a position, counted from i, shrunk to what room there is.
unfoldable pub shrink_latest : Encoding → ℕ → Option ℕ → ℕ → List Message → ℕ → List Message × ℕ
unfolding shrink result_chars
shrink_latest enc budget last i [] used = ([], used)
shrink_latest enc budget last i (m ∷ ms) used =
    let (m', used') =
      if is_at i last then shrink enc (latest_keep budget used m) m used else (m, used) in
    let (ms', used'') = shrink_latest enc budget last (suc i) ms used' in (m' ∷ ms', used'')

abbrev pub budget_of : ℕ → ℕ
budget_of num_ctx = num_ctx * 85 / 100 * 3

-- Both passes, with the characters of the system prompt and the tool definitions in `fixed`.
unfoldable pub shrink_all : Encoding → ℕ → List Message → ℕ → List Message × ℕ
unfolding last_tool shrink_older shrink_latest
shrink_all enc budget msgs used =
    let last = last_tool 0 none msgs in
    let (older, used') = shrink_older enc budget last 0 msgs used in
    if ltb budget used' then shrink_latest enc budget last 0 older used' else (older, used')

-- The messages, and the count of the characters of the whole prompt at the end.
unfoldable pub fit_to_window : Encoding → List Message → ℕ → ℕ → List Message × ℕ
unfolding all_chars shrink_all
fit_to_window enc msgs fixed num_ctx =
    let used = fixed + all_chars enc msgs in
    if num_ctx == 0
    then (msgs, used)
    else if leb used (budget_of num_ctx)
    then (msgs, used)
    else shrink_all enc (budget_of num_ctx) msgs used
