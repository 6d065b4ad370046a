-- ===== src/Stream/Ring.antt =====
-- A run's resume buffer: the part of Publish in hub/internal/chatstream/hub.go that is about one run.
pub mod Bounds
use mcp_switchboard.Prelude.{
  ℕ, suc, ◌+◌, ◌-◌, Bool, true, false, ◌&&◌, ◌||◌, List, [], ◌∷◌, ◌++◌, Text, Map, length, ltb,
  if◌then◌else◌,
}
use mcp_switchboard.Stream.Frame.{Codec, Options, Frame, size, new_frame}

-- runState. The timer is a flag: the purge is pending.
pub record RunState : Type 0 where
  pub ring : List Frame
  pub bytes : ℕ
  pub next_seq : ℕ
  pub ended : Bool
  pub timer : Bool

abbrev pub new_run : RunState
new_run = record { ring = []; bytes = 0; next_seq = 1; ended = false; timer = false }

-- The condition of the eviction loop.
abbrev pub over : Options → List Frame → ℕ → Bool
over o ring bytes =
    (ltb o.ring_frames (length ring) || ltb o.ring_bytes bytes) && ltb 1 (length ring)

-- The loop that evicts the oldest frames.
unfoldable pub evict : Options → List Frame → ℕ → List Frame × ℕ
evict o [] bytes = ([], bytes)
evict o (f ∷ ring) bytes =
    if over o (f ∷ ring) bytes then evict o ring (bytes - size f) else (f ∷ ring, bytes)

-- The next frame of the run, and the run that retains it.
unfoldable pub retain : Options → Frame → RunState → RunState
unfolding evict
retain o f r =
    let (ring, bytes) = evict o (r.ring ++ (f ∷ [])) (r.bytes + size f) in
    record r { ring = ring; bytes = bytes; next_seq = suc r.next_seq }
