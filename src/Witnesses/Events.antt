-- ===== src/Witnesses/Events.antt =====
-- A bus with one reader, which stops twice, and a bus without any.
use mcp_switchboard.Prelude.{◌≡◌, refl, true, false, List, [], ◌∷◌, some, bytes}
use mcp_switchboard.Bus.{
  Event, Race, Subscription, subscribers, Op, publishes, subscribes, receives, unsubscribes, steps,
}
use mcp_switchboard.Bus.Closing.{IsSound, IsSound-steps}

abbrev event : Event
event = record { type = bytes "call"; call_id = bytes "c7"; agent_id = []; chat_id = [] }

abbrev still : Race
still = record { before = 0; after = 0 }

abbrev publishing : Op
publishing = publishes event (λ i. still)

abbrev history : List Op
history =
    subscribes
    ∷ publishing
    ∷ publishing
    ∷ receives 0
    ∷ unsubscribes 0
    ∷ unsubscribes 0
    ∷ publishing
    ∷ []

-- The reader can still receive what was sent before it stopped.
abbrev left : Subscription
left = record { queue = event ∷ []; closed = true; listed = false; stopped = true }

history_ends : steps history [] ≡ some (left ∷ [])
unfolding steps
history_ends = refl

left_is_gone : subscribers (left ∷ []) ≡ 0
unfolding subscribers
left_is_gone = refl

IsSound-steps_example : IsSound (steps history [])
IsSound-steps_example = IsSound-steps history [] refl
