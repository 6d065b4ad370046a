-- ===== src/Witnesses/Prompts.antt =====
-- A prompt of one question and one long result, for a window of ten tokens.
use mcp_switchboard.Prelude.{false, List, [], ◌∷◌, bytes, length}
use mcp_switchboard.Window.{Encoding, Message, fit_to_window, role_user, role_tool, block_text}
use mcp_switchboard.Window.Untouched.{AllSameBut, fit_to_window-AllSameBut}

abbrev encoding : Encoding
encoding = record { marshal = length; note = λ n. bytes "[omitted]" }

abbrev question : Message
question = record {
  role = role_user;
  content = record { type = block_text; text = bytes "What is in the log?" } ∷ [];
  tool_calls = [];
  tool_results = [];
}

abbrev answer : Message
answer = record {
  role = role_tool;
  content = [];
  tool_calls = [];
  tool_results =
      record {
        id = bytes "t1";
        content = record { type = block_text; text = bytes "nothing but a few lines" } ∷ [];
        is_error = false;
      }
      ∷ [];
}

abbrev prompt : List Message
prompt = question ∷ answer ∷ []

fit_to_window-AllSameBut_example : AllSameBut prompt (fit_to_window encoding prompt 5 10).0
fit_to_window-AllSameBut_example = fit_to_window-AllSameBut encoding prompt 5 10
