-- ===== src/Bus/Closing.antt =====
-- The lifetime of a subscription: no channel of a bus is sent to once closed, nor closed twice.
use mcp_switchboard.Prelude.{
  ℕ, zero, suc, ◌≡◌, refl, Bool, true, not, ◌&&◌, List, [], ◌∷◌, Option, none, some, arith, modify,
  all, all-append, if◌then◌else◌, if_cases, length-drop,
}
use mcp_switchboard.Bus.{
  Event, Race, Subscription, cons?, offer, publish, subscription, unsubscribe, unsubscribe_at,
  received, Op, publishes, subscribes, receives, unsubscribes, step, steps, unless_panicked,
}
use mcp_switchboard.Bus.Delivery.{fits, fits-publish_to}

-- A subscription is stopped, closed and no longer listed, or none of these.
abbrev pub is_ok : Subscription → Bool
is_ok s = fits s.queue && (if s.stopped then s.closed && not s.listed else not s.closed && s.listed)

-- Nothing panicked, and what came out is well-formed.
abbrev IsOne : Option Subscription → Type 0
IsOne none = ⊥
IsOne (some s) = is_ok s ≡ true

abbrev pub IsSound : Option (List Subscription) → Type 0
IsSound none = ⊥
IsSound (some subs) = all is_ok subs ≡ true

IsSound-cons? :
    (s : Option Subscription) (rest : Option (List Subscription))
    → IsOne s
    → IsSound rest
    → IsSound (cons? s rest)
IsSound-cons? none rest h k = h
IsSound-cons? (some s) none h k = k
IsSound-cons? (some s) (some subs) h k = ground arith

IsOne-offer :
    (ev : Event) (race : Race) (s : Subscription) → is_ok s ≡ true → IsOne (offer ev race s)
unfolding offer
IsOne-offer ev race s h =
    if_cases IsOne (not s.listed) _ _ (λ l. h)
      (λ l.
        if_cases IsOne s.closed _ _ (λ c. absurd (ground arith))
          (λ c. ground (arith, fits-publish_to ev race s.queue)))

IsOne-unsubscribe : (s : Subscription) → is_ok s ≡ true → IsOne (unsubscribe s)
unfolding unsubscribe
IsOne-unsubscribe s h =
    if_cases IsOne s.stopped _ _ (λ t. h)
      (λ t. if_cases IsOne s.closed _ _ (λ c. absurd (ground arith)) (λ c. ground arith))

IsSound-publish :
    (ev : Event) (races : ℕ → Race) (subs : List Subscription)
    → all is_ok subs ≡ true
    → IsSound (publish ev races subs)
unfolding publish
IsSound-publish ev races [] h = refl
IsSound-publish ev races (s ∷ subs) h =
    IsSound-cons? _ _ (IsOne-offer ev (races zero) s (ground arith))
      (IsSound-publish ev (λ i. races (suc i)) subs (ground arith))

IsSound-unsubscribe_at :
    (i : ℕ) (subs : List Subscription) → all is_ok subs ≡ true → IsSound (unsubscribe_at i subs)
unfolding unsubscribe_at
IsSound-unsubscribe_at i [] h = refl
IsSound-unsubscribe_at zero (s ∷ subs) h =
    IsSound-cons? _ (some subs) (IsOne-unsubscribe s (ground arith)) (ground arith)
IsSound-unsubscribe_at (suc i) (s ∷ subs) h =
    IsSound-cons? (some s) _ (ground arith) (IsSound-unsubscribe_at i subs (ground arith))

received-ok :
    (i : ℕ) (subs : List Subscription)
    → all is_ok subs ≡ true
    → all is_ok (modify i received subs) ≡ true
received-ok i [] h = refl
received-ok zero (s ∷ subs) h = ground (arith, length-drop 1 s.queue)
received-ok (suc i) (s ∷ subs) h = ground (arith, received-ok i subs)

IsSound-step : (x : Op) (subs : List Subscription) → all is_ok subs ≡ true → IsSound (step x subs)
unfolding step
IsSound-step (publishes ev races) subs h = IsSound-publish ev races subs h
IsSound-step subscribes subs h = ground (arith, all-append is_ok subs (subscription ∷ []))
IsSound-step (receives i) subs h = received-ok i subs h
IsSound-step (unsubscribes i) subs h = IsSound-unsubscribe_at i subs h

IsSound-unless_panicked :
    (r : Option (List Subscription)) (next : List Subscription → Option (List Subscription))
    → IsSound r
    → ((subs : List Subscription) → all is_ok subs ≡ true → IsSound (next subs))
    → IsSound (unless_panicked r next)
IsSound-unless_panicked none next h k = h
IsSound-unless_panicked (some subs) next h k = k subs h

-- Whatever is subscribed, published, received and stopped, any number of times and in whatever
-- order, on a bus whose subscriptions are well-formed, nothing panics, and they still are: no buffer
-- is over its size, and each is stopped, closed and off the bus, or none of these.
pub IsSound-steps :
    (xs : List Op) (subs : List Subscription) → all is_ok subs ≡ true → IsSound (steps xs subs)
unfolding steps
IsSound-steps [] subs h = h
IsSound-steps (x ∷ xs) subs h =
    IsSound-unless_panicked (step x subs) (steps xs) (IsSound-step x subs h)
      (λ subs'. IsSound-steps xs subs')
