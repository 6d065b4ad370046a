-- ===== src/Stream/Subscription/Delivery.antt =====
-- What a queue delivers: every frame in order, or an overflow frame and the end.
use mcp_switchboard.Prelude.{
  ◌+◌, ◌≤◌, ◌≡◌, refl, inl, inr, true, false, List, [], ◌∷◌, ◌++◌, arith, ltb, if◌then◌else◌,
  Bool-cases, ◌∙◌,
}
use mathlib.Core.List.{append_assoc, append-nil}
use mcp_switchboard.Stream.Frame.{Codec, Frame, size, slow_consumer}
use mcp_switchboard.Stream.Ring.Bounds.{total}
use mcp_switchboard.Stream.Subscription.{Subscription, overflowed, offer, offer_list, next}

-- The count of bytes is exact, and an open queue is within its budget.
pub record IsSound (s : Subscription) : Type 0 where
  pub counted : s.queued ≡ total s.queue
  pub within : s.closed ≡ false → s.queued ≤ s.budget

total-append : (xs : List Frame) (f : Frame) → total (xs ++ (f ∷ [])) ≡ total xs + size f
total-append [] f = omega arith
total-append (x ∷ xs) f = omega (arith, total-append xs f)

pub offer-IsSound :
    (codec : Codec) (f : Frame) (s : Subscription) → IsSound s → IsSound (offer codec f s)
unfolding offer
offer-IsSound codec f s v = ground (arith, total-append s.queue f)

pub offer_list-IsSound :
    (codec : Codec) (fs : List Frame) (s : Subscription)
    → IsSound s
    → IsSound (offer_list codec fs s)
unfolding offer_list
offer_list-IsSound codec [] s v = v
offer_list-IsSound codec (f ∷ fs) s v =
    offer_list-IsSound codec fs (offer codec f s) (offer-IsSound codec f s v)

-- A reader takes the oldest frame, and the queue stays sound.
pub next-IsSound : (s : Subscription) → IsSound s → IsSound (next s).0
unfolding next
next-IsSound s v = ground arith

abbrev taken : Frame → Subscription → Subscription
taken f s = record s { queue = s.queue ++ (f ∷ []); queued = s.queued + size f }

offer_closed :
    (codec : Codec) (f : Frame) (s : Subscription) → s.closed ≡ true → offer codec f s ≡ s
unfolding offer
offer_closed codec f s h = ground arith

offer_past :
    (codec : Codec) (f : Frame) (s : Subscription)
    → s.closed ≡ false
    → ltb s.budget (s.queued + size f) ≡ true
    → offer codec f s ≡ overflowed codec slow_consumer s
unfolding offer
offer_past codec f s h past = ground arith

offer_fits :
    (codec : Codec) (f : Frame) (s : Subscription)
    → s.closed ≡ false
    → ltb s.budget (s.queued + size f) ≡ false
    → offer codec f s ≡ taken f s
unfolding offer
offer_fits codec f s h fits = ground arith

offer_list_closed :
    (codec : Codec) (fs : List Frame) (s : Subscription)
    → s.closed ≡ true
    → offer_list codec fs s ≡ s
unfolding offer_list
offer_list_closed codec [] s h = refl
offer_list_closed codec (f ∷ fs) s h =
    rw (offer_closed codec f s h) (offer_list_closed codec fs s h)

-- An open queue that is sound takes in all frames in order where they fit its budget, and where they
-- do not it ends in an overflow frame alone: no frame is left out in silence.
pub offer_list_lem :
    (codec : Codec) (fs : List Frame) (s : Subscription)
    → s.closed ≡ false
    → IsSound s
    → offer_list codec fs s ≡ (
        if ltb s.budget (s.queued + total fs)
        then overflowed codec slow_consumer s
        else record s { queue = s.queue ++ fs; queued = s.queued + total fs })
unfolding offer_list
offer_list_lem codec [] s h v = ground (arith, append-nil s.queue, v.within)
offer_list_lem codec (f ∷ fs) s h v = elim (Bool-cases (ltb s.budget (s.queued + size f))) [
  | inl past ↦
      rw (offer_past codec f s h past)
        (offer_list_closed codec fs (overflowed codec slow_consumer s) refl ∙ ground arith)
  | inr fits ↦ rw (offer_fits codec f s h fits) (
      offer_list_lem codec fs (taken f s) h (taken_sound fits)
      ∙ ground (arith, append_assoc s.queue (f ∷ []) fs))
]
  where
    taken_sound : ltb s.budget (s.queued + size f) ≡ false → IsSound (taken f s)
    taken_sound fits = ground (arith, total-append s.queue f)
