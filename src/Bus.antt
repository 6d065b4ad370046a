-- ===== src/Bus.antt =====
-- The event bus, hub/internal/events/events.go. A channel is its buffer. Publishers are
-- serialised by the lock, but a reader may receive between any two operations on its channel.
pub mod Closing
pub mod Delivery
use mcp_switchboard.Prelude.{
  ℕ, zero, suc, ◌+◌, Bool, true, false, not, List, [], ◌∷◌, ◌++◌, Option, none, some, Text, length,
  drop, modify, ltb, if◌then◌else◌,
}

pub record Event : Type 0 where
  pub type : Text
  pub call_id : Text
  pub agent_id : Text
  pub chat_id : Text

abbrev pub queue_size : ℕ
queue_size = 256

abbrev pub Buffer : Type 0
Buffer = List Event

-- A send that does not block, and a receive that does not.
abbrev pub send : Event → Buffer → Buffer
send ev q = if ltb (length q) queue_size then q ++ (ev ∷ []) else q

abbrev pub receive : Buffer → Buffer
receive q = drop 1 q

-- What the reader receives meanwhile: before the publisher drops the oldest event, and after.
pub record Race : Type 0 where
  pub before : ℕ
  pub after : ℕ

-- `Publish`, for one subscriber.
unfoldable pub publish_to : Event → Race → Buffer → Buffer
publish_to ev race q =
    if ltb (length q) queue_size
    then q ++ (ev ∷ [])
    else send ev (drop race.after (receive (drop race.before q)))

-- A subscription: the buffer of its channel, whether that is closed, whether it is among the bus's
-- subscribers, and whether its `once` is done.
pub record Subscription : Type 0 where
  pub queue : Buffer
  pub closed : Bool
  pub listed : Bool
  pub stopped : Bool

-- The rest of a list, where neither it nor its head panics.
abbrev pub cons? : {A : Type 0} → Option A → Option (List A) → Option (List A)
cons? none rest = none
cons? (some x) none = none
cons? (some x) (some xs) = some (x ∷ xs)

-- The loop's body, where a send on a closed channel panics.
unfoldable pub offer : Event → Race → Subscription → Option Subscription
unfolding publish_to
offer ev race s =
    if not s.listed
    then some s
    else if s.closed
    then none
    else some (record s { queue = publish_to ev race s.queue })

-- `Publish`, with what each subscriber's reader does meanwhile.
unfoldable pub publish : Event → (ℕ → Race) → List Subscription → Option (List Subscription)
unfolding offer
publish ev races [] = some []
publish ev races (s ∷ subs) = cons? (offer ev (races zero) s) (publish ev (λ i. races (suc i)) subs)

abbrev pub subscription : Subscription
subscription = record { queue = []; closed = false; listed = true; stopped = false }

-- The function that `Subscribe` returns, which the end of the context calls too. To close a closed
-- channel panics.
unfoldable pub unsubscribe : Subscription → Option Subscription
unsubscribe s =
    if s.stopped
    then some s
    else if s.closed
    then none
    else some (record s { closed = true; listed = false; stopped = true })

unfoldable pub unsubscribe_at : ℕ → List Subscription → Option (List Subscription)
unfolding unsubscribe
unsubscribe_at i [] = some []
unsubscribe_at zero (s ∷ subs) = cons? (unsubscribe s) (some subs)
unsubscribe_at (suc i) (s ∷ subs) = cons? (some s) (unsubscribe_at i subs)

-- `Subscribers`.
unfoldable pub subscribers : List Subscription → ℕ
subscribers [] = 0
subscribers (s ∷ subs) = if s.listed then suc (subscribers subs) else subscribers subs

abbrev pub received : Subscription → Subscription
received s = record s { queue = receive s.queue }

-- What happens on a bus; a reader receives from the subscription at an index, and the one at an index
-- is stopped.
pub data Op : Type 0 where
  publishes : Event → (ℕ → Race) → Op
  subscribes : Op
  receives : ℕ → Op
  unsubscribes : ℕ → Op

unfoldable pub step : Op → List Subscription → Option (List Subscription)
unfolding publish unsubscribe_at
step (publishes ev races) subs = publish ev races subs
step subscribes subs = some (subs ++ (subscription ∷ []))
step (receives i) subs = some (modify i received subs)
step (unsubscribes i) subs = unsubscribe_at i subs

-- A panic ends the run.
abbrev pub unless_panicked :
    Option (List Subscription)
    → (List Subscription → Option (List Subscription))
    → Option (List Subscription)
unless_panicked none next = none
unless_panicked (some subs) next = next subs

unfoldable pub steps : List Op → List Subscription → Option (List Subscription)
unfolding step
steps [] subs = some subs
steps (x ∷ xs) subs = unless_panicked (step x subs) (steps xs)
