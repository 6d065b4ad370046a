-- ===== src/Stream/Frame.antt =====
-- Frames and options of hub/internal/chatstream/hub.go. Sequence numbers and sizes do not wrap.
use mcp_switchboard.Prelude.{
  ℕ, Bool, [], ◌∷◌, ◌++◌, Option, Text, Map, set, bytes, length, leb, if◌then◌else◌,
}

-- What the frames take from encoding/json and strconv: the JSON of an object of raw members, of a
-- text and of a number, a quoted text, and the reading of a decimal number that is not negative.
pub record Codec : Type 0 where
  pub marshal_object : Map Text → Text
  pub marshal_text : Text → Text
  pub quote : Text → Text
  pub format_int : ℕ → Text
  pub parse_seq : Text → Option ℕ

-- A size that is not positive is 0 here, and takes the default.
pub record Options : Type 0 where
  pub subscriber_budget : ℕ
  pub ring_frames : ℕ
  pub ring_bytes : ℕ

unfoldable pub with_defaults : Options → Options
with_defaults o = record {
  subscriber_budget = if leb o.subscriber_budget 0 then 1_048_576 else o.subscriber_budget;
  ring_frames = if leb o.ring_frames 0 then 8192 else o.ring_frames;
  ring_bytes = if leb o.ring_bytes 0 then 4_194_304 else o.ring_bytes;
}

pub record Frame : Type 0 where
  pub chat_id : Text
  pub run_id : Text
  pub seq : ℕ
  pub typ : Text
  pub payload : Text
  pub wire : Text

abbrev pub size : Frame → ℕ
size f = length f.wire

abbrev pub nonempty : Text → Bool
nonempty [] = Bool.false
nonempty (_ ∷ _) = Bool.true

abbrev pub colon : Text
colon = bytes ":"

-- Frame.ID
unfoldable pub frame_id : Codec → Text → ℕ → Text
frame_id codec run_id seq =
    if nonempty run_id then run_id ++ (colon ++ codec.format_int seq) else []

abbrev newline : Text
newline = 10 ∷ []

id_line : Text → Text
id_line id = if nonempty id then bytes "id: " ++ (id ++ newline) else []

members : Codec → Text → Text → ℕ → Text → Map Text → Map Text
members codec chat_id run_id seq typ payload =
    let typed = set (bytes "type") (codec.marshal_text typ) payload in
    if nonempty run_id
    then set (bytes "seq") (codec.format_int seq) (
        set (bytes "runId") (codec.marshal_text run_id)
          (set (bytes "chatId") (codec.marshal_text chat_id) typed))
    else typed

unfoldable pub new_frame : Codec → Text → Text → ℕ → Text → Map Text → Frame
unfolding members id_line
new_frame codec chat_id run_id seq typ payload =
    let json = codec.marshal_object (members codec chat_id run_id seq typ payload) in
    record {
      chat_id = chat_id;
      run_id = run_id;
      seq = seq;
      typ = typ;
      payload = json;
      wire =
          id_line (frame_id codec run_id seq)
          ++ (bytes "event: "
              ++ (typ ++ (newline ++ (bytes "data: " ++ (json ++ (newline ++ newline))))));
    }

abbrev pub slow_consumer : Text
slow_consumer = bytes "slow_consumer"

abbrev pub evicted : Text
evicted = bytes "evicted"

abbrev pub unknown_run : Text
unknown_run = bytes "unknown_run"

unfoldable pub overflow_frame : Codec → Text → Text → Frame
overflow_frame codec chat_id reason =
    new_frame codec chat_id [] 0 (bytes "overflow") ((bytes "reason", codec.quote reason) ∷ [])
