-- ===== src/Grants.antt =====
-- Grants: which servers an agent may reach, and what a spawned child may reach.
-- hub/internal/agents/grants.go (Resolve), patterns.go (deriveChildGrants).
pub mod Match
pub mod Order
pub mod Resolution
pub mod Derivation
use mcp_switchboard.Prelude.{
  ◌≡◌, Bool, true, false, not, ◌&&◌, ◌||◌, List, [], ◌∷◌, ◌++◌, map, Option, none, some, Text,
  text_eq, if◌then◌else◌, bytes,
}
use mcp_switchboard.Ref.{ServerRef, wildcard, matches}

-- grants.go: one grant reduced to what resolution needs.
pub record Rule : Type 0 where
  pub ref : ServerRef
  pub allowed : Bool

-- The loop over the three field pairs: the first pair that differs in exactness decides.
more_specific_fields : List (Text × Text) → Bool
more_specific_fields [] = false
more_specific_fields ((a, b) ∷ rest) =
    let next = more_specific_fields rest in
    let a_exact = not (text_eq a wildcard) in
    if a_exact
    then (if text_eq b wildcard then true else next)
    else (if text_eq b wildcard then next else false)

unfoldable pub more_specific : ServerRef → ServerRef → Bool
unfolding more_specific_fields
more_specific a b =
    more_specific_fields ((a.label, b.label) ∷ (a.project, b.project) ∷ (a.server, b.server) ∷ [])

-- `best == nil || moreSpecific(r.Ref, best.Ref)`
abbrev takes_over : Rule → Option Rule → Bool
takes_over r none = true
takes_over r (some b) = more_specific r.ref b.ref

abbrev is_some {ℓ} : {A : Type ℓ} → Option A → Bool
is_some none = false
is_some (some _) = true

-- The loop of `Resolve`, with the best allow so far.
unfoldable pub resolve_from : ServerRef → Option Rule → List Rule → Bool × Option Rule
resolve_from ref best [] = (is_some best, best)
resolve_from ref best (r ∷ rules) =
    let skipped = resolve_from ref best rules in
    let taken = resolve_from ref (if takes_over r best then some r else best) rules in
    if matches r.ref ref then (if r.allowed then taken else (false, some r)) else skipped

unfoldable pub resolve : List Rule → ServerRef → Bool × Option Rule
unfolding resolve_from
resolve rules ref = resolve_from ref none rules

-- patterns.go: the pattern that matches what both match.
unfoldable pub field_intersect : Text → Text → Option Text
field_intersect a b =
    if text_eq a wildcard
    then some b
    else if text_eq b wildcard || text_eq a b
    then some a
    else none

abbrev three : Option Text → Option Text → Option Text → Option ServerRef
three (some l) (some p) (some s) = some (record { label = l; project = p; server = s })
three _ _ _ = none

unfoldable pub intersect : ServerRef → ServerRef → Option ServerRef
intersect a b =
    three (field_intersect a.label b.label) (field_intersect a.project b.project)
      (field_intersect a.server b.server)

unfoldable pub field_covers : Text → Text → Bool
field_covers p c = text_eq p wildcard || text_eq p c

unfoldable pub covers : ServerRef → ServerRef → Bool
covers p c =
    field_covers p.label c.label
    && field_covers p.project c.project
    && field_covers p.server c.server

unfoldable pub ref_eq : ServerRef → ServerRef → Bool
ref_eq a b = text_eq a.label b.label && text_eq a.project b.project && text_eq a.server b.server

-- store.Grant, without its agent id and its times, which no code here reads.
pub record Grant : Type 0 where
  pub label : Text
  pub project : Text
  pub server : Text
  pub allowed : Bool
  pub source : Text

abbrev pub inherited : Text
inherited = bytes "inherited"

abbrev pub pat_of : Grant → ServerRef
pat_of g = record { label = g.label; project = g.project; server = g.server }

abbrev pub rule_of : Grant → Rule
rule_of g = record { ref = pat_of g; allowed = g.allowed }

-- tools.go: the stored grants as rules.
abbrev pub agent_rules : List Grant → List Rule
agent_rules = map rule_of

abbrev pub grant_of : ServerRef → Bool → Text → Grant
grant_of p allowed source = record {
  label = p.label;
  project = p.project;
  server = p.server;
  allowed = allowed;
  source = source;
}

-- The map `out` of `deriveChildGrants`, as an association list by pattern: `put` writes unless the
-- entry there is a deny, or an allow and the new one an allow.
unfoldable pub put : ServerRef → Bool → Text → List Grant → List Grant
unfolding ref_eq
put p allowed source [] = grant_of p allowed source ∷ []
put p allowed source (cur ∷ out) =
    if ref_eq (pat_of cur) p
    then (if not cur.allowed || allowed then cur ∷ out else grant_of p allowed source ∷ out)
    else cur ∷ put p allowed source out

abbrev put_deny : Option ServerRef → List Grant → List Grant
put_deny none out = out
put_deny (some di) out = put di false inherited out

-- `for _, d := range pDeny`
unfoldable pub put_denies : ServerRef → List ServerRef → List Grant → List Grant
unfolding put
put_denies i [] out = out
put_denies i (d ∷ denies) out = put_denies i denies (put_deny (intersect i d) out)

abbrev put_allow : Option ServerRef → List ServerRef → List Grant → List Grant
put_allow none denies out = out
put_allow (some i) denies out = put_denies i denies (put i true inherited out)

-- `for _, p := range pAllow`
unfoldable pub put_allows : ServerRef → List ServerRef → List ServerRef → List Grant → List Grant
unfolding put_denies
put_allows r [] denies out = out
put_allows r (p ∷ allows) denies out =
    put_allows r allows denies (put_allow (intersect r p) denies out)

-- `for _, r := range reqs`
unfoldable pub put_requests : List ServerRef → List ServerRef → List Grant → List Grant → List Grant
unfolding put_allows put
put_requests allows denies [] out = out
put_requests allows denies (r ∷ reqs) out = put_requests allows denies reqs (
    if r.allowed
    then put_allows (pat_of r) allows denies out
    else put (pat_of r) false inherited out)

unfoldable pub allow_patterns : List Grant → List ServerRef
allow_patterns [] = []
allow_patterns (g ∷ gs) = if g.allowed then pat_of g ∷ allow_patterns gs else allow_patterns gs

unfoldable pub deny_patterns : List Grant → List ServerRef
deny_patterns [] = []
deny_patterns (g ∷ gs) = if g.allowed then deny_patterns gs else pat_of g ∷ deny_patterns gs

-- What is asked for: all that the parent is allowed, when no request is given (`nil`).
unfoldable pub requests_of : List Grant → Option (List Grant) → List Grant
unfolding allow_patterns
requests_of parent (some reqs) = reqs
requests_of parent none = map (λ p. grant_of p true []) (allow_patterns parent)

-- The child's grants; the order of the result is a map's, so it means nothing.
unfoldable pub derive_child_grants : List Grant → Option (List Grant) → List Grant
unfolding put_requests allow_patterns deny_patterns requests_of
derive_child_grants parent requested =
    put_requests (allow_patterns parent) (deny_patterns parent) (requests_of parent requested) []

abbrev pub harness : Text
harness = bytes "harness"

unfoldable pub holds_harness : List Grant → Bool
holds_harness [] = false
holds_harness (g ∷ gs) =
    g.allowed && (text_eq g.server harness || text_eq g.server wildcard) || holds_harness gs
