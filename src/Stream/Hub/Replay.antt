-- ===== src/Stream/Hub/Replay.antt =====
-- What `replay` queues, against what a client that reconnects is owed.
use mcp_switchboard.Prelude.{
  ℕ, suc, ◌+◌, ◌≤◌, ◌<◌, ◌≡◌, refl, inl, inr, Bool, true, false, not, ◌&&◌, List, [], ◌∷◌, ◌++◌,
  Option, none, some, arith, Text, Map, get, text_eq, text_eq_iff, text_eq_refl, if◌then◌else◌,
  Bool-cases, Option-cases, ap, length,
}
use mathlib.Core.List.{append-nil}
use mcp_switchboard.Stream.Frame.{Codec, Frame, Options, evicted}
use mcp_switchboard.Stream.Ring.{RunState}
use mcp_switchboard.Stream.Ring.Bounds.{newer, RingOk, Consecutive, newer-Consecutive}
use mcp_switchboard.Stream.Subscription.{Subscription, offer_list}
use mcp_switchboard.Stream.Hub.{replay_runs, starts_past}

-- The frames owed: those of the run after the number seen, then all of each later run; `none` where
-- a later run has lost its beginning.
abbrev also : List Frame → Option (List Frame) → Option (List Frame)
also fs none = none
also fs (some gs) = some (fs ++ gs)

unfoldable pub owed_later : Map RunState → List Text → Option (List Frame)
owed_later runs [] = some []
owed_later runs (id ∷ order) =
    let rest = owed_later runs order in
    elim (get id runs) [
      | none ↦ rest
      | some r ↦ if starts_past 1 r.ring then none else also r.ring rest
    ]

unfoldable pub owed : Map RunState → Text → ℕ → List Text → Option (List Frame)
unfolding owed_later
owed runs run_id seq [] = some []
owed runs run_id seq (id ∷ order) =
    let rest = owed runs run_id seq order in
    let later = owed_later runs order in
    elim (get id runs) [
      | none ↦ rest
      | some r ↦ if text_eq id run_id then also (newer seq r.ring) later else rest
    ]

offer_list-append :
    (codec : Codec) (xs ys : List Frame) (s : Subscription)
    → offer_list codec (xs ++ ys) s ≡ offer_list codec ys (offer_list codec xs s)
unfolding offer_list
offer_list-append codec [] ys s = refl
offer_list-append codec (x ∷ xs) ys s = offer_list-append codec xs ys _

-- The run ids of a chat are listed once each.
abbrev pub absent : Text → List Text → Bool
absent id [] = true
absent id (x ∷ xs) = not (text_eq x id) && absent id xs

abbrev pub listed_once : List Text → Bool
listed_once [] = true
listed_once (x ∷ xs) = absent x xs && listed_once xs

-- A replay queues the frames in order, or it reports a hole.
abbrev pub Delivers :
    Codec → Subscription → Option (List Frame) → Subscription × Option Text → Type 0
Delivers codec s none r = r.1 ≡ some evicted
Delivers codec s (some fs) r = r ≡ (offer_list codec fs s, none)

Delivers-also :
    (codec : Codec) (s : Subscription) (fs : List Frame) (m : Option (List Frame))
    (r : Subscription × Option Text)
    → Delivers codec (offer_list codec fs s) m r
    → Delivers codec s (also fs m) r
Delivers-also codec s fs none r d = d
Delivers-also codec s fs (some gs) r d = rw (offer_list-append codec fs gs s) d

replay_runs_later :
    (codec : Codec) (runs : Map RunState) (run_id : Text) (seq : ℕ) (order : List Text)
    (s : Subscription)
    → absent run_id order ≡ true
    → Delivers codec s (owed_later runs order) (replay_runs codec runs run_id seq true order s)
unfolding replay_runs owed_later offer_list
replay_runs_later codec runs run_id seq [] s h = refl
replay_runs_later codec runs run_id seq (id ∷ order) s h = elim (Option-cases (get id runs)) [
  | inl e ↦
      rw (e, replay_runs, owed_later)
        (replay_runs_later codec runs run_id seq order s (ground arith))
  | inr (r, e) ↦
      let other : text_eq id run_id ≡ false = ground arith in
      elim (Bool-cases (starts_past 1 r.ring)) [
        | inl hole ↦ rw (e, replay_runs, owed_later, other, hole) refl
        | inr whole ↦
            rw (e, replay_runs, owed_later, other, whole)
              (Delivers-also codec s r.ring (owed_later runs order) _ (
                replay_runs_later codec runs run_id seq order (offer_list codec r.ring s)
                  (ground arith)))
      ]
]

pub replay_runs-owed :
    (codec : Codec) (runs : Map RunState) (run_id : Text) (seq : ℕ) (order : List Text)
    (s : Subscription)
    → listed_once order ≡ true
    → Delivers codec s
        (owed runs run_id seq order)
        (replay_runs codec runs run_id seq false order s)
unfolding replay_runs owed offer_list
replay_runs-owed codec runs run_id seq [] s h = refl
replay_runs-owed codec runs run_id seq (id ∷ order) s h = elim (Option-cases (get id runs)) [
  | inl e ↦
      rw (e, replay_runs, owed) (replay_runs-owed codec runs run_id seq order s (ground arith))
  | inr (r, e) ↦ elim (Bool-cases (text_eq id run_id)) [
    | inr other ↦
        rw (e, replay_runs, owed, other)
          (replay_runs-owed codec runs run_id seq order s (ground arith))
    | inl same ↦
        rw (e, replay_runs, owed, same)
          (Delivers-also codec s (newer seq r.ring) (owed_later runs order) _ (
            replay_runs_later codec runs run_id seq order (offer_list codec (newer seq r.ring) s)
              (ground (arith, text_eq_iff id run_id))))
  ]
]

owed_newest_frames :
    (runs : Map RunState) (run_id : Text) (k : ℕ) (before : List Text) (r : RunState)
    → get run_id runs ≡ some r
    → absent run_id before ≡ true
    → owed runs run_id k (before ++ (run_id ∷ [])) ≡ some (newer k r.ring)
unfolding owed owed_later
owed_newest_frames runs run_id k [] r known a =
    rw (known, owed, text_eq_refl run_id) (ap some (append-nil (newer k r.ring)))
owed_newest_frames runs run_id k (x ∷ xs) r known a = elim (Option-cases (get x runs)) [
  | inl e ↦ rw (e, owed) (owed_newest_frames runs run_id k xs r known (ground arith))
  | inr (q, e) ↦
      let other : text_eq x run_id ≡ false = ground arith in
      rw (e, owed, other) (owed_newest_frames runs run_id k xs r known (ground arith))
]

-- Of the newest run of a chat the client is owed the frames after the one it saw, numbered on from
-- it with none missing.
pub owed_newest :
    (o : Options) (runs : Map RunState) (run_id : Text) (k : ℕ) (before : List Text) (r : RunState)
    → get run_id runs ≡ some r
    → absent run_id before ≡ true
    → RingOk o r
    → k < r.next_seq
    → starts_past (k + 1) r.ring ≡ false
    → (owed runs run_id k (before ++ (run_id ∷ [])) ≡ some (newer k r.ring))
      × Consecutive (suc k) (newer k r.ring) r.next_seq
owed_newest o runs run_id k before r known new ok given kept = (
  owed_newest_frames runs run_id k before r known new,
  numbered ok.first r.ring ok.numbered kept ok.held,
)
  where
    numbered :
        (first : ℕ) (ring : List Frame)
        → Consecutive first ring r.next_seq
        → starts_past (k + 1) ring ≡ false
        → (1 < r.next_seq → 1 ≤ length ring)
        → Consecutive (suc k) (newer k ring) r.next_seq
    numbered first [] c s held = grind arith
    numbered first (f ∷ ring) c s held =
        newer-Consecutive k first r.next_seq (f ∷ ring) (ground (arith, c.0)) given c
