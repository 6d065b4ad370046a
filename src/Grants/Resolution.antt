-- ===== src/Grants/Resolution.antt =====
-- `Resolve` against its description: a deny that matches wins, whatever its place.
use mcp_switchboard.Prelude.{
  ◌≡◌, Bool, not, ◌&&◌, ◌||◌, List, [], ◌∷◌, Option, none, some, arith, any, if◌then◌else◌,
}
use mcp_switchboard.Ref.{ServerRef, matches}
use mcp_switchboard.Grants.{Rule, is_some, takes_over, resolve_from, resolve}

abbrev pub allows : ServerRef → Rule → Bool
allows ref r = r.allowed && matches r.ref ref

abbrev pub denies : ServerRef → Rule → Bool
denies ref r = not r.allowed && matches r.ref ref

-- Some rule allows the server, and no rule denies it.
abbrev pub permits : List Rule → ServerRef → Bool
permits rules ref = any (allows ref) rules && not (any (denies ref) rules)

resolve_from-permits :
    (ref : ServerRef) (best : Option Rule) (rules : List Rule)
    → (resolve_from ref best rules).0
      ≡ ((is_some best || any (allows ref) rules) && not (any (denies ref) rules))
unfolding resolve_from
resolve_from-permits ref best [] = ground arith
resolve_from-permits ref best (r ∷ rules) = ground (
  arith,
  resolve_from-permits ref best rules,
  resolve_from-permits ref (if takes_over r best then some r else best) rules,
)

-- `Resolve` permits a server exactly when some rule that matches it allows and none that matches it
-- denies, so neither the order of the rules nor how specific a deny is plays any part.
pub resolve-permits :
    (rules : List Rule) (ref : ServerRef) → (resolve rules ref).0 ≡ permits rules ref
unfolding resolve
resolve-permits rules ref = resolve_from-permits ref none rules
