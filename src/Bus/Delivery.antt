-- ===== src/Bus/Delivery.antt =====
-- A slow reader loses its oldest events and never the newest one, whatever it does meanwhile.
use mcp_switchboard.Prelude.{
  ℕ, zero, suc, ◌+◌, ◌≤◌, ◌≡◌, refl, Bool, true, List, [], ◌∷◌, ◌++◌, arith, ap, length, drop, ltb,
  leb, if◌then◌else◌, length-drop, length-append, Bool-cases, inl, inr, sym, ◌∙◌,
}
use mcp_switchboard.Bus.{Event, Buffer, Race, queue_size, receive, publish_to}

drop-nil : {A : Type 0} (n : ℕ) → drop {A = A} n [] ≡ []
drop-nil zero = refl
drop-nil (suc n) = refl

drop-drop : {A : Type 0} (m n : ℕ) (xs : List A) → drop m (drop n xs) ≡ drop (n + m) xs
drop-drop m zero xs = let e : 0 + m ≡ m = omega arith in rw (e) refl
drop-drop m (suc n) [] = drop-nil m ∙ sym (drop-nil (suc n + m))
drop-drop m (suc n) (x ∷ xs) =
    let e : suc n + m ≡ suc (n + m) = omega arith in rw (e) (drop-drop m n xs)

-- The event always ends up in the buffer, behind the events that were there less the oldest: all of them
-- where there is room, and else those that are left once the reader has received what it receives and
-- one more is dropped.
pub publish_to_lem :
    (ev : Event) (race : Race) (q : Buffer)
    → length q ≤ queue_size
    → publish_to ev race q
      ≡ (if ltb (length q) queue_size then q else drop (race.before + 1 + race.after) q)
        ++ (ev ∷ [])
unfolding publish_to
publish_to_lem ev race q h = elim (Bool-cases (ltb (length q) queue_size)) [
  | inl room ↦ rw (room, publish_to) refl
  | inr full ↦
      let e : drop race.after (receive (drop race.before q))
          ≡ drop (race.before + 1 + race.after) q =
        ap (drop race.after) (drop-drop 1 race.before q)
        ∙ drop-drop race.after (race.before + 1) q in
      let less : ltb (length (drop (race.before + 1 + race.after) q)) queue_size ≡ true =
        ground (arith, length-drop (race.before + 1 + race.after) q) in
      rw (full, publish_to, e, less) refl
]

abbrev pub fits : Buffer → Bool
fits q = leb (length q) queue_size

pub fits-publish_to :
    (ev : Event) (race : Race) (q : Buffer) → fits q ≡ true → fits (publish_to ev race q) ≡ true
fits-publish_to ev race q h =
    let k = race.before + 1 + race.after in
    ground (
      arith,
      publish_to_lem ev race q,
      length-append q (ev ∷ []),
      length-append (drop k q) (ev ∷ []),
      length-drop k q,
    )
