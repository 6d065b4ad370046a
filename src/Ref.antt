-- ===== src/Ref.antt =====
-- The stable identity of a server, hub/internal/registry/registry.go (ServerRef).
use mcp_switchboard.Prelude.{
  ℕ, ◌+◌, ◌≡◌, Bool, true, ◌&&◌, ◌||◌, ◌∷◌, [], Text, text_eq, text_eq_iff, arith, if◌then◌else◌,
}

-- The literal that a grant field uses for "any value".
abbrev pub wildcard : Text
wildcard = b'*' ∷ []

pub record ServerRef : Type 0 where
  pub label : Text
  pub project : Text
  pub server : Text

unfoldable pub field_matches : Text → Text → Bool
field_matches pattern value = text_eq pattern wildcard || text_eq pattern value

-- Only the fields of the first argument are read as wildcards.
unfoldable pub matches : ServerRef → ServerRef → Bool
matches r other =
    field_matches r.label other.label
    && field_matches r.project other.project
    && field_matches r.server other.server

abbrev count_exact : Text → ℕ
count_exact field = if text_eq field wildcard then 0 else 1

-- The number of fields that are no wildcard.
unfoldable pub specificity : ServerRef → ℕ
specificity r = count_exact r.label + count_exact r.project + count_exact r.server

pub matches_refl : (r : ServerRef) → matches r r ≡ true
unfolding matches field_matches
matches_refl r = ground (
  arith,
  text_eq_iff r.label r.label,
  text_eq_iff r.project r.project,
  text_eq_iff r.server r.server,
)
