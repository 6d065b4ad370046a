-- ===== src/Grants/Match.antt =====
-- What the pattern operations of patterns.go mean for the servers that the patterns match.
use mcp_switchboard.Prelude.{
  ◌≡◌, refl, sym, ◌∙◌, ◌↔◌, Bool, true, false, ◌&&◌, Option, none, some, Text, text_eq_iff, arith,
}
use mcp_switchboard.Ref.{ServerRef, wildcard, field_matches, matches, matches_refl}
use mcp_switchboard.Grants.{field_intersect, intersect, field_covers, covers, ref_eq, three}

abbrev pub field_matches? : Option Text → Text → Bool
field_matches? none v = false
field_matches? (some p) v = field_matches p v

-- A failed intersection matches nothing.
abbrev pub matches? : Option ServerRef → ServerRef → Bool
matches? none ref = false
matches? (some p) ref = matches p ref

pub field_intersect_lem :
    (a b v : Text)
    → field_matches? (field_intersect a b) v ≡ (field_matches a v && field_matches b v)
unfolding field_intersect field_matches
field_intersect_lem a b v = ground (
  arith,
  text_eq_iff a wildcard,
  text_eq_iff b wildcard,
  text_eq_iff a b,
  text_eq_iff a v,
  text_eq_iff b v,
)

matches?-three :
    (l p s : Option Text) (ref : ServerRef)
    → matches? (three l p s) ref
      ≡ (field_matches? l ref.label && field_matches? p ref.project && field_matches? s ref.server)
unfolding matches
matches?-three none p s ref = refl
matches?-three (some l) none s ref = ground arith
matches?-three (some l) (some p) none ref = ground arith
matches?-three (some l) (some p) (some s) ref = refl

-- The intersection matches exactly the servers that both patterns match, and where it fails there
-- is no such server.
pub intersect_lem :
    (a b ref : ServerRef) → matches? (intersect a b) ref ≡ (matches a ref && matches b ref)
unfolding intersect matches
intersect_lem a b ref =
    rw
      (
        matches?-three (field_intersect a.label b.label) (field_intersect a.project b.project)
            (field_intersect a.server b.server) ref,
        field_intersect_lem a.label b.label ref.label,
        field_intersect_lem a.project b.project ref.project,
        field_intersect_lem a.server b.server ref.server,
      )
      (ground arith)

covers-matches : (p c : ServerRef) → covers p c ≡ matches p c
unfolding covers field_covers matches field_matches
covers-matches p c = refl

field_matches_trans :
    (p c v : Text) → field_matches p c ≡ true → field_matches c v ≡ true → field_matches p v ≡ true
unfolding field_matches
field_matches_trans p c v h k =
    ground (arith, text_eq_iff p wildcard, text_eq_iff c wildcard, text_eq_iff p c, text_eq_iff c v)

matches_trans :
    (p c ref : ServerRef) → matches p c ≡ true → matches c ref ≡ true → matches p ref ≡ true
unfolding matches
matches_trans p c ref h k = ground (
  arith,
  field_matches_trans p.label c.label ref.label,
  field_matches_trans p.project c.project ref.project,
  field_matches_trans p.server c.server ref.server,
)

-- `covers p c` holds exactly when every server that `c` matches is matched by `p`.
pub covers_iff :
    (p c : ServerRef)
    → (covers p c ≡ true) ↔ ((ref : ServerRef) → matches c ref ≡ true → matches p ref ≡ true)
covers_iff p c = (
  λ h ref k. matches_trans p c ref (sym (covers-matches p c) ∙ h) k,
  λ all. covers-matches p c ∙ all c (matches_refl c),
)

pub ref_eq_sound : (a b : ServerRef) → ref_eq a b ≡ true → a ≡ b
unfolding ref_eq
ref_eq_sound a b h = ground (
  arith,
  text_eq_iff a.label b.label,
  text_eq_iff a.project b.project,
  text_eq_iff a.server b.server,
)
