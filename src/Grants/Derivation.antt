-- ===== src/Grants/Derivation.antt =====
-- What a spawned child may reach (`deriveChildGrants`) is what its parent may reach and it asked for.
use mcp_switchboard.Prelude.{
  ◌≡◌, refl, Bool, true, false, not, ◌&&◌, ◌||◌, List, [], ◌∷◌, Option, none, some, arith, any, map,
  Text, if◌then◌else◌,
}
use mcp_switchboard.Ref.{ServerRef, matches}
use mcp_switchboard.Grants.{
  Grant, agent_rules, pat_of, rule_of, grant_of, put, put_deny, put_denies, put_allow, put_allows,
  put_requests, allow_patterns, deny_patterns, requests_of, derive_child_grants, intersect, ref_eq,
  resolve, inherited,
}
use mcp_switchboard.Grants.Match.{matches?, intersect_lem, ref_eq_sound}
use mcp_switchboard.Grants.Resolution.{allows, denies, permits, resolve-permits}

abbrev hits : ServerRef → List ServerRef → Bool
hits ref = any (λ p. matches p ref)

-- Some entry of the map has a pattern that matches; some deny among them does.
abbrev covered : ServerRef → List Grant → Bool
covered ref = any (λ g. matches (pat_of g) ref)

abbrev denied : ServerRef → List Grant → Bool
denied ref = any (λ g. not g.allowed && matches (pat_of g) ref)

same_pattern : (g : Grant) (ref : ServerRef) → matches (rule_of g).ref ref ≡ matches (pat_of g) ref
same_pattern g ref = refl

denied-rules :
    (ref : ServerRef) (out : List Grant) → any (denies ref) (agent_rules out) ≡ denied ref out
denied-rules ref [] = refl
denied-rules ref (g ∷ out) = ground (arith, denied-rules ref out, same_pattern g ref)

covered-rules :
    (ref : ServerRef) (out : List Grant)
    → (any (allows ref) (agent_rules out) || denied ref out) ≡ covered ref out
covered-rules ref [] = refl
covered-rules ref (g ∷ out) = ground (arith, covered-rules ref out, same_pattern g ref)

permits-covered :
    (ref : ServerRef) (out : List Grant)
    → permits (agent_rules out) ref ≡ (covered ref out && not (denied ref out))
permits-covered ref out = ground (arith, covered-rules ref out, denied-rules ref out)

matches_of_ref_eq : (a b ref : ServerRef) → ref_eq a b ≡ true → matches a ref ≡ matches b ref
matches_of_ref_eq a b ref h = rw (ref_eq_sound a b h)

covered-put :
    (ref p : ServerRef) (b : Bool) (s : Text) (out : List Grant)
    → covered ref (put p b s out) ≡ (covered ref out || matches p ref)
unfolding put
covered-put ref p b s [] = ground arith
covered-put ref p b s (cur ∷ out) =
    ground (arith, covered-put ref p b s out, matches_of_ref_eq (pat_of cur) p ref)

-- A deny that is put stays, and one that is there is not overwritten.
denied-put :
    (ref p : ServerRef) (b : Bool) (s : Text) (out : List Grant)
    → denied ref (put p b s out) ≡ (denied ref out || (not b && matches p ref))
unfolding put
denied-put ref p b s [] = ground arith
denied-put ref p b s (cur ∷ out) =
    ground (arith, denied-put ref p b s out, matches_of_ref_eq (pat_of cur) p ref)

covered-put_deny :
    (ref : ServerRef) (d : Option ServerRef) (out : List Grant)
    → covered ref (put_deny d out) ≡ (covered ref out || matches? d ref)
covered-put_deny ref none out = ground arith
covered-put_deny ref (some d) out = covered-put ref d false inherited out

denied-put_deny :
    (ref : ServerRef) (d : Option ServerRef) (out : List Grant)
    → denied ref (put_deny d out) ≡ (denied ref out || matches? d ref)
denied-put_deny ref none out = ground arith
denied-put_deny ref (some d) out = denied-put ref d false inherited out

covered-put_denies :
    (ref i : ServerRef) (ds : List ServerRef) (out : List Grant)
    → covered ref (put_denies i ds out) ≡ (covered ref out || (matches i ref && hits ref ds))
unfolding put_denies
covered-put_denies ref i [] out = ground arith
covered-put_denies ref i (d ∷ ds) out =
    rw
      (
        covered-put_denies ref i ds (put_deny (intersect i d) out),
        covered-put_deny ref (intersect i d) out,
        intersect_lem i d ref,
      )
      (ground arith)

denied-put_denies :
    (ref i : ServerRef) (ds : List ServerRef) (out : List Grant)
    → denied ref (put_denies i ds out) ≡ (denied ref out || (matches i ref && hits ref ds))
unfolding put_denies
denied-put_denies ref i [] out = ground arith
denied-put_denies ref i (d ∷ ds) out =
    rw
      (
        denied-put_denies ref i ds (put_deny (intersect i d) out),
        denied-put_deny ref (intersect i d) out,
        intersect_lem i d ref,
      )
      (ground arith)

covered-put_allow :
    (ref : ServerRef) (i : Option ServerRef) (ds : List ServerRef) (out : List Grant)
    → covered ref (put_allow i ds out) ≡ (covered ref out || matches? i ref)
covered-put_allow ref none ds out = ground arith
covered-put_allow ref (some i) ds out =
    rw
      (covered-put_denies ref i ds (put i true inherited out), covered-put ref i true inherited out)
      (ground arith)

denied-put_allow :
    (ref : ServerRef) (i : Option ServerRef) (ds : List ServerRef) (out : List Grant)
    → denied ref (put_allow i ds out) ≡ (denied ref out || (matches? i ref && hits ref ds))
denied-put_allow ref none ds out = ground arith
denied-put_allow ref (some i) ds out =
    rw (denied-put_denies ref i ds (put i true inherited out), denied-put ref i true inherited out)
      (ground arith)

covered-put_allows :
    (ref r : ServerRef) (ps ds : List ServerRef) (out : List Grant)
    → covered ref (put_allows r ps ds out) ≡ (covered ref out || (matches r ref && hits ref ps))
unfolding put_allows
covered-put_allows ref r [] ds out = ground arith
covered-put_allows ref r (p ∷ ps) ds out =
    rw
      (
        covered-put_allows ref r ps ds (put_allow (intersect r p) ds out),
        covered-put_allow ref (intersect r p) ds out,
        intersect_lem r p ref,
      )
      (ground arith)

denied-put_allows :
    (ref r : ServerRef) (ps ds : List ServerRef) (out : List Grant)
    → denied ref (put_allows r ps ds out)
      ≡ (denied ref out || (matches r ref && hits ref ps && hits ref ds))
unfolding put_allows
denied-put_allows ref r [] ds out = ground arith
denied-put_allows ref r (p ∷ ps) ds out =
    rw
      (
        denied-put_allows ref r ps ds (put_allow (intersect r p) ds out),
        denied-put_allow ref (intersect r p) ds out,
        intersect_lem r p ref,
      )
      (ground arith)

-- The body of the outer loop.
abbrev put_request : List ServerRef → List ServerRef → Grant → List Grant → List Grant
put_request ps ds r out =
    if r.allowed then put_allows (pat_of r) ps ds out else put (pat_of r) false inherited out

covered-put_request :
    (ref : ServerRef) (ps ds : List ServerRef) (r : Grant) (out : List Grant)
    → covered ref (put_request ps ds r out)
      ≡ (covered ref out || (matches (pat_of r) ref && (not r.allowed || hits ref ps)))
covered-put_request ref ps ds r out = ground (
  arith,
  covered-put_allows ref (pat_of r) ps ds out,
  covered-put ref (pat_of r) false inherited out,
)

denied-put_request :
    (ref : ServerRef) (ps ds : List ServerRef) (r : Grant) (out : List Grant)
    → denied ref (put_request ps ds r out) ≡ (
        denied ref out || (matches (pat_of r) ref && (not r.allowed || hits ref ps && hits ref ds)))
denied-put_request ref ps ds r out = ground (
  arith,
  denied-put_allows ref (pat_of r) ps ds out,
  denied-put ref (pat_of r) false inherited out,
)

abbrev asked : ServerRef → List Grant → Bool
asked ref reqs = any (allows ref) (agent_rules reqs)

abbrev declined : ServerRef → List Grant → Bool
declined ref reqs = any (denies ref) (agent_rules reqs)

covered-put_requests :
    (ref : ServerRef) (ps ds : List ServerRef) (reqs out : List Grant)
    → covered ref (put_requests ps ds reqs out)
      ≡ (covered ref out || declined ref reqs || (asked ref reqs && hits ref ps))
unfolding put_requests
covered-put_requests ref ps ds [] out = ground arith
covered-put_requests ref ps ds (r ∷ reqs) out =
    rw
      (
        covered-put_requests ref ps ds reqs (put_request ps ds r out),
        covered-put_request ref ps ds r out,
      )
      (ground arith)

denied-put_requests :
    (ref : ServerRef) (ps ds : List ServerRef) (reqs out : List Grant)
    → denied ref (put_requests ps ds reqs out)
      ≡ (denied ref out || declined ref reqs || (asked ref reqs && hits ref ps && hits ref ds))
unfolding put_requests
denied-put_requests ref ps ds [] out = ground arith
denied-put_requests ref ps ds (r ∷ reqs) out =
    rw
      (
        denied-put_requests ref ps ds reqs (put_request ps ds r out),
        denied-put_request ref ps ds r out,
      )
      (ground arith)

hits-allow_patterns :
    (ref : ServerRef) (gs : List Grant) → hits ref (allow_patterns gs) ≡ asked ref gs
unfolding allow_patterns
hits-allow_patterns ref [] = refl
hits-allow_patterns ref (g ∷ gs) = ground (arith, hits-allow_patterns ref gs)

hits-deny_patterns :
    (ref : ServerRef) (gs : List Grant) → hits ref (deny_patterns gs) ≡ declined ref gs
unfolding deny_patterns
hits-deny_patterns ref [] = refl
hits-deny_patterns ref (g ∷ gs) = ground (arith, hits-deny_patterns ref gs)

permits-put_requests :
    (ref : ServerRef) (parent reqs : List Grant)
    → permits
        (agent_rules (put_requests (allow_patterns parent) (deny_patterns parent) reqs []))
        ref
      ≡ (permits (agent_rules parent) ref && permits (agent_rules reqs) ref)
permits-put_requests ref parent reqs =
    rw
      (
        permits-covered ref (put_requests (allow_patterns parent) (deny_patterns parent) reqs []),
        covered-put_requests ref (allow_patterns parent) (deny_patterns parent) reqs [],
        denied-put_requests ref (allow_patterns parent) (deny_patterns parent) reqs [],
        hits-allow_patterns ref parent,
        hits-deny_patterns ref parent,
      )
      (ground arith)

asked-grants :
    (ref : ServerRef) (ps : List ServerRef)
    → asked ref (map (λ p. grant_of p true []) ps) ≡ hits ref ps
asked-grants ref [] = refl
asked-grants ref (p ∷ ps) = ground (arith, asked-grants ref ps)

declined-grants :
    (ref : ServerRef) (ps : List ServerRef)
    → declined ref (map (λ p. grant_of p true []) ps) ≡ false
declined-grants ref [] = refl
declined-grants ref (p ∷ ps) = ground (arith, declined-grants ref ps)

-- With a request, the child may reach a server exactly when its parent may and the request, read as
-- grants, permits it: the child only narrows, and no wildcard in the request opens a parent's deny.
pub resolve-derive_child_grants :
    (parent reqs : List Grant) (ref : ServerRef)
    → (resolve (agent_rules (derive_child_grants parent (some reqs))) ref).0
      ≡ ((resolve (agent_rules parent) ref).0 && (resolve (agent_rules reqs) ref).0)
unfolding derive_child_grants
resolve-derive_child_grants parent reqs ref =
    rw
      (
        resolve-permits (agent_rules (derive_child_grants parent (some reqs))) ref,
        resolve-permits (agent_rules parent) ref,
        resolve-permits (agent_rules reqs) ref,
      )
      (permits-put_requests ref parent reqs)

-- With no request at all the child may reach exactly what its parent may.
pub resolve-derive_child_grants-none :
    (parent : List Grant) (ref : ServerRef)
    → (resolve (agent_rules (derive_child_grants parent none)) ref).0
      ≡ (resolve (agent_rules parent) ref).0
unfolding derive_child_grants requests_of
resolve-derive_child_grants-none parent ref =
    rw
      (
        resolve-permits (agent_rules (derive_child_grants parent none)) ref,
        resolve-permits (agent_rules parent) ref,
        permits-put_requests ref parent (map (λ p. grant_of p true []) (allow_patterns parent)),
        asked-grants ref (allow_patterns parent),
        declined-grants ref (allow_patterns parent),
        hits-allow_patterns ref parent,
      )
      (ground arith)
