-- ===== src/Stream/Subscription.antt =====
-- One client's queue: Subscription of hub/internal/chatstream/hub.go.
pub mod Delivery
use mcp_switchboard.Prelude.{
  ℕ, ◌+◌, ◌-◌, Bool, true, false, List, [], ◌∷◌, ◌++◌, Option, none, some, Text, ltb, if◌then◌else◌,
}
use mcp_switchboard.Stream.Frame.{Codec, Frame, size, slow_consumer, overflow_frame}

pub record Subscription : Type 0 where
  pub chat_id : Text
  pub budget : ℕ
  pub queue : List Frame
  pub queued : ℕ
  pub closed : Bool
  pub attached : Bool

-- The queue holds one overflow frame and takes no more.
abbrev pub overflowed : Codec → Text → Subscription → Subscription
overflowed codec reason s =
    let o = overflow_frame codec s.chat_id reason in
    record s { queue = o ∷ []; queued = size o; closed = true }

unfoldable pub offer : Codec → Frame → Subscription → Subscription
offer codec f s =
    if s.closed
    then s
    else if ltb s.budget (s.queued + size f)
    then overflowed codec slow_consumer s
    else record s { queue = s.queue ++ (f ∷ []); queued = s.queued + size f }

-- A loop of `s.offer(f)`.
unfoldable pub offer_list : Codec → List Frame → Subscription → Subscription
unfolding offer
offer_list codec [] s = s
offer_list codec (f ∷ fs) s = offer_list codec fs (offer codec f s)

unfoldable pub close_after_drain : Subscription → Subscription
close_after_drain s = record s { closed = true }

-- What `Next` finds without waiting: a frame, the end of the stream, or nothing yet.
pub data Reading : Type 0 where
  frame : Frame → Reading
  eof : Reading
  wait : Reading

-- `queue` is `s.queue`, so that the clauses can match it.
next_from : List Frame → Subscription → Subscription × Reading
next_from [] s = (s, if s.closed then eof else wait)
next_from (f ∷ rest) s = (record s { queue = rest; queued = s.queued - size f }, frame f)

unfoldable pub next : Subscription → Subscription × Reading
unfolding next_from
next s = next_from s.queue s
