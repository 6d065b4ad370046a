-- ===== src/Witnesses/Streams.antt =====
-- A chat with one run of three frames, and a client that reconnects after the first.
use mcp_switchboard.Prelude.{
  ℕ, zero, suc, ◌+◌, ◌≤◌, ◌≡◌, refl, true, false, List, [], ◌∷◌, some, Text, bytes, get, set,
  text_eq, length, arith, ap,
}
use mcp_switchboard.Stream.Frame.{
  Codec, Options, Frame, with_defaults, new_frame, frame_id, evicted, overflow_frame, size,
}
use mcp_switchboard.Stream.Ring.{RunState, retain}
use mcp_switchboard.Stream.Ring.Bounds.{RingOk, total}
use mcp_switchboard.Stream.Subscription.{Subscription}
use mcp_switchboard.Stream.Subscription.Delivery.{IsSound}
use mcp_switchboard.Stream.Hub.{Hub, ChatState, fresh, publish}
use mcp_switchboard.Stream.Hub.Replay.{owed}
use mcp_switchboard.Stream.Hub.Resume.{
  Prints, Resumable, made, no_colon, subscribe_resumes, subscribe_missed,
}
use mcp_switchboard.Stream.Hub.Trace.{Op, publishes, new_hub, steps, steps-RingOk}

-- Numbers in unary, which a stand-in for strconv may print.
ones : ℕ → Text
ones zero = []
ones (suc n) = b'1' ∷ ones n

ones_plain : (n : ℕ) → no_colon (ones n) ≡ true
unfolding ones
ones_plain zero = refl
ones_plain (suc n) = ones_plain n

length-ones : (n : ℕ) → length (ones n) ≡ n
unfolding ones
length-ones zero = refl
length-ones (suc n) = ap suc (length-ones n)

abbrev codec : Codec
codec = record {
  marshal_object = λ m. bytes "{}";
  marshal_text = λ t. t;
  quote = λ t. t;
  format_int = ones;
  parse_seq = λ t. some (length t);
}

codec-Prints : Prints codec
codec-Prints = record { plain = λ n _. ones_plain n; reads = λ n _. ap some (length-ones n) }

abbrev opts : Options
opts = record { subscriber_budget = 1000; ring_frames = 2; ring_bytes = 1000 }

abbrev delta : Op
delta = publishes (bytes "chat") (bytes "run") (bytes "delta") []

abbrev frame : ℕ → Frame
frame n = new_frame codec (bytes "chat") (bytes "run") n (bytes "delta") []

-- The buffer holds two frames, so the first is gone.
abbrev run_after_three : RunState
run_after_three = record {
  ring = frame 2 ∷ frame 3 ∷ [];
  bytes = size (frame 2) + size (frame 3);
  next_seq = 4;
  ended = false;
  timer = false;
}

abbrev chat_after_three : ChatState
chat_after_three = record {
  subs = [];
  runs = (bytes "run", run_after_three) ∷ [];
  run_order = bytes "run" ∷ [];
}

abbrev three : List Op
three = delta ∷ delta ∷ delta ∷ []

published : get (bytes "chat") (steps codec three (new_hub opts)).chats ≡ some chat_after_three
unfolding steps new_hub publish retain get set text_eq ones new_frame frame_id
published = refl

abbrev hub : Hub
hub = record {
  opts = opts;
  chats = (bytes "chat", chat_after_three) ∷ [];
  closed = false;
  subscribers = 0;
  heap = [];
}

steps-RingOk_example : RingOk (with_defaults opts) run_after_three
unfolding get text_eq
steps-RingOk_example =
    steps-RingOk codec opts three (bytes "chat") (bytes "run") chat_after_three run_after_three
      published refl

after_one : Resumable codec hub (bytes "chat") (bytes "run") 1 chat_after_three run_after_three
unfolding get text_eq new_frame
after_one = record {
  prints = codec-Prints;
  small = omega arith;
  opened = refl;
  named = refl;
  state = refl;
  known = refl;
  once = refl;
  given = omega arith;
  kept = refl;
}

owed_after_one :
    owed chat_after_three.runs (bytes "run") 1 chat_after_three.run_order
    ≡ some (frame 2 ∷ frame 3 ∷ [])
unfolding owed get text_eq new_frame
owed_after_one = refl

small : total (frame 2 ∷ frame 3 ∷ []) ≤ 1000
unfolding new_frame ones frame_id
small = omega arith

subscribe_resumes_example :
    made codec (bytes "chat") (frame_id codec (bytes "run") 1) hub
    ≡ some (record (fresh hub (bytes "chat")) {
      queue = frame 2 ∷ frame 3 ∷ [];
      queued = total (frame 2 ∷ frame 3 ∷ []);
      attached = true;
    })
subscribe_resumes_example =
    subscribe_resumes codec hub (bytes "chat") (bytes "run") 1 chat_after_three run_after_three
      (frame 2 ∷ frame 3 ∷ []) after_one owed_after_one small

run_is_ok : RingOk opts run_after_three
unfolding get text_eq with_defaults
run_is_ok =
    steps-RingOk codec opts three (bytes "chat") (bytes "run") chat_after_three run_after_three
      published refl

-- The client has seen nothing, and frame 1 is gone.
subscribe_missed_example :
    made codec (bytes "chat") (frame_id codec (bytes "run") 0) hub
    ≡ some (record {
      chat_id = bytes "chat";
      budget = 1000;
      queue = overflow_frame codec (bytes "chat") evicted ∷ [];
      queued = size (overflow_frame codec (bytes "chat") evicted);
      closed = true;
      attached = false;
    })
unfolding get text_eq new_frame
subscribe_missed_example =
    subscribe_missed codec hub (bytes "chat") (bytes "run") 0 chat_after_three run_after_three
      codec-Prints (omega arith) refl refl refl refl run_is_ok (omega arith) refl

abbrev narrow : Subscription
narrow = record {
  chat_id = bytes "chat";
  budget = 20;
  queue = [];
  queued = 0;
  closed = false;
  attached = true;
}

narrow-IsSound : IsSound narrow
narrow-IsSound = record { counted = refl; within = λ _. omega arith }
