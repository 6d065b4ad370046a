-- ===== src/Stream/Hub/Resume.antt =====
-- A client that reconnects with the id of the last frame it saw: Subscribe and replay of
-- hub/internal/chatstream/hub.go.
use mcp_switchboard.Prelude.{
  ℕ, suc, any, ◌+◌, ◌≤◌, ◌<◌, ◌≡◌, refl, Bool, true, false, not, ◌&&◌, List, [], ◌∷◌, ◌++◌, Option,
  none, some, arith, Text, get, leb, ◌==◌, get_elem?, length, get_elem?-append_last, ◌∙◌,
}
use mcp_switchboard.Stream.Frame.{
  Codec, Frame, Options, nonempty, frame_id, colon, evicted, overflow_frame, size,
}
use mcp_switchboard.Stream.Ring.{RunState}
use mcp_switchboard.Stream.Ring.Bounds.{total, Consecutive, RingOk}
use mcp_switchboard.Stream.Subscription.{Subscription, offer_list, overflowed}
use mcp_switchboard.Stream.Subscription.Delivery.{offer_list_lem, IsSound}
use mcp_switchboard.Stream.Hub.{
  Hub, ChatState, fresh, chat, subscribe, replay, replay_from, replay_runs, starts_past,
  split_last_colon,
}
use mcp_switchboard.Stream.Hub.Replay.{owed, listed_once, Delivers, replay_runs-owed}

abbrev pub no_colon : Text → Bool
no_colon [] = true
no_colon (c ∷ cs) = not (c == b':') && no_colon cs

-- An int64 is below this.
abbrev pub seq_limit : ℕ
seq_limit = 9223372036854775808

-- strconv: an int64 that is not negative is printed with no colon, and reads back.
pub record Prints (codec : Codec) : Type 0 where
  pub plain : (n : ℕ) → n < seq_limit → no_colon (codec.format_int n) ≡ true
  pub reads : (n : ℕ) → n < seq_limit → codec.parse_seq (codec.format_int n) ≡ some n

split_plain : (t : Text) → no_colon t ≡ true → split_last_colon t ≡ none
unfolding split_last_colon
split_plain [] h = refl
split_plain (c ∷ cs) h = ground (arith, split_plain cs)

split_colon : (a b : Text) → no_colon b ≡ true → split_last_colon (a ++ (colon ++ b)) ≡ some (a, b)
unfolding split_last_colon
split_colon [] b h = rw (split_plain b h)
split_colon (c ∷ a) b h = rw (split_colon a b h)

-- The event id that Frame.ID gives for an int64 reads back as its run and its number.
pub replay-frame_id :
    (codec : Codec) (c : ChatState) (run_id : Text) (k : ℕ) (s : Subscription)
    → Prints codec
    → k < seq_limit
    → nonempty run_id ≡ true
    → replay codec c (frame_id codec run_id k) s ≡ replay_from codec c run_id k s
unfolding replay frame_id
replay-frame_id codec c run_id k s p l n =
    rw (n, split_colon run_id (codec.format_int k) (p.plain k l), replay, p.reads k l, n) refl

-- The position that a client asks for, where the chat can resume it.
pub record Resumable (codec : Codec) (h : Hub) (chat_id run_id : Text) (k : ℕ) (c : ChatState)
    (r : RunState) : Type 0 where
  pub prints : Prints codec
  pub small : k < seq_limit
  pub opened : h.closed ≡ false
  pub named : nonempty run_id ≡ true
  pub state : chat h chat_id ≡ c
  pub known : get run_id c.runs ≡ some r
  pub once : listed_once c.run_order ≡ true
  pub given : k < r.next_seq
  pub kept : starts_past (k + 1) r.ring ≡ false

nonempty-frame_id :
    (codec : Codec) (run_id : Text) (k : ℕ)
    → nonempty run_id ≡ true
    → nonempty (frame_id codec run_id k) ≡ true
unfolding frame_id
nonempty-frame_id codec [] k h = cc
nonempty-frame_id codec (x ∷ run_id) k h = refl

replay_from-Resumable :
    (codec : Codec) (h : Hub) (chat_id run_id : Text) (k : ℕ) (c : ChatState) (r : RunState)
    (s : Subscription)
    → Resumable codec h chat_id run_id k c r
    → replay_from codec c run_id k s ≡ replay_runs codec c.runs run_id k false c.run_order s
unfolding replay_from
replay_from-Resumable codec h chat_id run_id k c r s v =
    let new : leb r.next_seq k ≡ false = ground (arith, v.given) in
    rw (v.known, replay_from, new, v.kept) refl

-- The subscription that `Subscribe` makes.
abbrev pub made : Codec → Text → Text → Hub → Option Subscription
made codec chat_id last h = get_elem? (subscribe codec chat_id last h).heap (length h.heap)

subscribe-replay :
    (codec : Codec) (h : Hub) (chat_id run_id : Text) (k : ℕ) (c : ChatState) (r : RunState)
    (s : Subscription)
    → Resumable codec h chat_id run_id k c r
    → replay_from codec c run_id k (fresh h chat_id) ≡ (s, none)
    → made codec chat_id (frame_id codec run_id k) h ≡ some (record s { attached = true })
unfolding subscribe
subscribe-replay codec h chat_id run_id k c r s v e =
    rw
      (
        v.opened,
        nonempty-frame_id codec run_id k v.named,
        v.state,
        replay-frame_id codec c run_id k (fresh h chat_id) v.prints v.small v.named,
        e,
      )
      (get_elem?-append_last h.heap (record s { attached = true }))

-- A client that reconnects with the id of frame k of a run gets, on a subscription that is open and
-- attached, exactly the frames that it is owed, where the hub is open, the chat holds them all and they fit the
-- budget.
pub subscribe_resumes :
    (codec : Codec) (h : Hub) (chat_id run_id : Text) (k : ℕ) (c : ChatState) (r : RunState)
    (fs : List Frame)
    → Resumable codec h chat_id run_id k c r
    → owed c.runs run_id k c.run_order ≡ some fs
    → total fs ≤ h.opts.subscriber_budget
    → made codec chat_id (frame_id codec run_id k) h
      ≡ some (record (fresh h chat_id) { queue = fs; queued = total fs; attached = true })
subscribe_resumes codec h chat_id run_id k c r fs v o fits =
    subscribe-replay codec h chat_id run_id k c r _ v (
      replay_from-Resumable codec h chat_id run_id k c r (fresh h chat_id) v
      ∙ delivered (owed c.runs run_id k c.run_order) o
          (replay_runs-owed codec c.runs run_id k c.run_order (fresh h chat_id) v.once))
  where
    empty_sound : IsSound (fresh h chat_id)
    empty_sound = record { counted = refl; within = λ _. omega arith }

    all_fit :
        offer_list codec fs (fresh h chat_id)
        ≡ record (fresh h chat_id) { queue = fs; queued = total fs }
    all_fit = offer_list_lem codec fs (fresh h chat_id) refl empty_sound ∙ ground arith

    delivered :
        (m : Option (List Frame))
        → m ≡ some fs
        → Delivers codec
            (fresh h chat_id)
            m
            (replay_runs codec c.runs run_id k false c.run_order (fresh h chat_id))
        → replay_runs codec c.runs run_id k false c.run_order (fresh h chat_id)
          ≡ (record (fresh h chat_id) { queue = fs; queued = total fs }, none)
    delivered none e d = cc
    delivered (some gs) e d = d ∙ cc all_fit

-- A number between the first and the last of a buffer is some frame's.
abbrev pub holds_frame : ℕ → List Frame → Bool
holds_frame seq ring = any (λ f. f.seq == seq) ring

holds_frame-Consecutive :
    (seq first next : ℕ) (ring : List Frame)
    → Consecutive first ring next
    → first ≤ seq
    → seq < next
    → holds_frame seq ring ≡ true
holds_frame-Consecutive seq first next [] c l u = absurd (omega (arith, c, l, u))
holds_frame-Consecutive seq first next (f ∷ ring) c l u =
    ground (arith, c.0, holds_frame-Consecutive seq (suc first) next ring c.1)

starts_past-missing :
    (o : Options) (r : RunState) (k : ℕ)
    → RingOk o r
    → suc k < r.next_seq
    → holds_frame (suc k) r.ring ≡ false
    → starts_past (k + 1) r.ring ≡ true
starts_past-missing o r k ok given missing = go r.ring ok.numbered (ok.held (omega arith)) missing
  where
    go :
        (ring : List Frame)
        → Consecutive ok.first ring r.next_seq
        → 1 ≤ length ring
        → holds_frame (suc k) ring ≡ false
        → starts_past (k + 1) ring ≡ true
    go [] c h m = absurd (omega (arith, h))
    go (f ∷ ring) c h m =
        ground (arith, c.0, holds_frame-Consecutive (suc k) ok.first r.next_seq (f ∷ ring) c)

-- A client of an open hub that has missed a frame for good, one that its run has published after the frame
-- of its id and that the run's buffer, which is well-formed, no longer holds, is told so and gets nothing
-- else: its subscription is closed and not attached, and its queue is one overflow frame with the reason.
pub subscribe_missed :
    (codec : Codec) (h : Hub) (chat_id run_id : Text) (k : ℕ) (c : ChatState) (r : RunState)
    → Prints codec
    → k < seq_limit
    → h.closed ≡ false
    → nonempty run_id ≡ true
    → chat h chat_id ≡ c
    → get run_id c.runs ≡ some r
    → RingOk h.opts r
    → suc k < r.next_seq
    → holds_frame (suc k) r.ring ≡ false
    → made codec chat_id (frame_id codec run_id k) h
      ≡ some (record {
        chat_id = chat_id;
        budget = h.opts.subscriber_budget;
        queue = overflow_frame codec chat_id evicted ∷ [];
        queued = size (overflow_frame codec chat_id evicted);
        closed = true;
        attached = false;
      })
unfolding subscribe
subscribe_missed codec h chat_id run_id k c r prints small opened named state known ok given
      missing =
    rw
      (
        opened,
        nonempty-frame_id codec run_id k named,
        state,
        replay-frame_id codec c run_id k (fresh h chat_id) prints small named,
        refused,
      )
      (get_elem?-append_last h.heap (overflowed codec evicted (fresh h chat_id)))
  where
    refused : replay_from codec c run_id k (fresh h chat_id) ≡ (fresh h chat_id, some evicted)
    refused =
        let new : leb r.next_seq k ≡ false = ground (arith, given) in
        let lost = starts_past-missing h.opts r k ok given missing in
        unfold replay_from in rw (known, replay_from, new, lost) refl
