-- ===== src/GrantStore.antt =====
-- The tables of grants and edges: hub/internal/store/sqlite_grants.go, with the descendants of
-- sqlite_agents.go beside it. A table is a list of its rows, each statement of SQL a function on it.
pub mod Tree
pub mod Revocation
pub mod Edges
use mcp_switchboard.Prelude.{
  Bool, true, false, not, ◌&&◌, ◌||◌, List, [], ◌∷◌, ◌++◌, map, Option, none, some, Text, bytes,
  text_eq, text_lt, keep, any, if◌then◌else◌,
}
use mcp_switchboard.Ref.{ServerRef, wildcard}
use mcp_switchboard.Grants.{Grant, inherited, pat_of}
use mcp_switchboard.Registry.{is_empty}

-- The agents in the order in which they were created, each with its parent.
abbrev pub Agents : Type 0
Agents = List (Text × Option Text)

abbrev pub member : Text → List Text → Bool
member id ids = any (λ x. text_eq x id) ids

abbrev pub parent_in : Option Text → List Text → Bool
parent_in none ids = false
parent_in (some p) ids = member p ids

-- The descendants of any of some agents: descendantsCTE.
unfoldable pub below : List Text → Agents → List Text
unfolding text_eq
below ids [] = []
below ids ((id, parent) ∷ rest) =
    let found = below (id ∷ ids) rest in
    let skipped = below ids rest in if parent_in parent ids then id ∷ found else skipped

-- A row of the table of grants, without its times.
pub record Row : Type 0 where
  pub agent_id : Text
  pub grant : Grant

abbrev pub explicit : Text
explicit = bytes "explicit"

abbrev with_source : Grant → Grant
with_source g = record g { source = if is_empty g.source then explicit else g.source }

-- The key of a row.
abbrev pub is_key : Text → ServerRef → Row → Bool
is_key agent_id p r =
    text_eq r.agent_id agent_id
    && text_eq r.grant.label p.label
    && text_eq r.grant.project p.project
    && text_eq r.grant.server p.server

-- `upsertGrantTx`
unfoldable pub upsert_grant : Text → Grant → List Row → List Row
unfolding text_eq
upsert_grant agent_id g [] = record { agent_id = agent_id; grant = with_source g } ∷ []
upsert_grant agent_id g (r ∷ rows) =
    let rest = upsert_grant agent_id g rows in
    if is_key agent_id (pat_of g) r
    then record r {
      grant = record r.grant { allowed = g.allowed; source = (with_source g).source };
    }
      ∷ rows
    else r ∷ rest

abbrev pub field_matched : Text → Text → Bool
field_matched p value = text_eq p wildcard || text_eq value p

-- The condition of the DELETE in `revokeBelowTx`.
abbrev pub revoked_row : List Text → ServerRef → Row → Bool
revoked_row ids p r =
    member r.agent_id ids
    && text_eq r.grant.source inherited
    && r.grant.allowed
    && field_matched p.label r.grant.label
    && field_matched p.project r.grant.project
    && field_matched p.server r.grant.server

-- What is deleted, and what remains.
unfoldable pub revoke_below : Agents → Text → ServerRef → List Row → List Row × List Row
unfolding below
revoke_below agents agent_id p rows =
    let ids = below (agent_id ∷ []) agents in
    (keep (revoked_row ids p) rows, keep (λ r. not (revoked_row ids p r)) rows)

-- `SetGrant` and `DeleteGrant`: the grants revoked, and the table.
unfoldable pub set_grant : Agents → Text → Grant → List Row → List Row × List Row
unfolding upsert_grant revoke_below
set_grant agents agent_id g rows =
    let rows' = upsert_grant agent_id g rows in
    if g.allowed then ([], rows') else revoke_below agents agent_id (pat_of g) rows'

unfoldable pub delete_grant : Agents → Text → ServerRef → List Row → List Row × List Row
unfolding revoke_below
delete_grant agents agent_id p rows =
    revoke_below agents agent_id p (keep (λ r. not (is_key agent_id p r)) rows)

-- `ListGrants`, but for the order, which `Resolve` does not depend on.
abbrev pub list_grants : Text → List Row → List Grant
list_grants agent_id rows = map (λ r. r.grant) (keep (λ r. text_eq r.agent_id agent_id) rows)

-- An edge has the smaller id first.
pub record Edge : Type 0 where
  pub a : Text
  pub b : Text
  pub allowed : Bool

unfoldable pub canon_edge : Text → Text → Text × Text
canon_edge a b = if text_lt b a then (b, a) else (a, b)

abbrev pub is_edge : Text × Text → Edge → Bool
is_edge (a, b) e = text_eq e.a a && text_eq e.b b

unfoldable pub upsert_edge : Text × Text → Bool → List Edge → List Edge
upsert_edge (a, b) allowed [] = record { a = a; b = b; allowed = allowed } ∷ []
upsert_edge (a, b) allowed (e ∷ es) =
    let rest = upsert_edge (a, b) allowed es in
    if is_edge (a, b) e then record e { allowed = allowed } ∷ es else e ∷ rest

unfoldable pub set_edge : Text → Text → Bool → List Edge → List Edge
unfolding canon_edge upsert_edge
set_edge from to allowed es = upsert_edge (canon_edge from to) allowed es

unfoldable pub delete_edge : Text → Text → List Edge → List Edge
unfolding canon_edge
delete_edge from to es = keep (λ e. not (is_edge (canon_edge from to) e)) es

unfoldable pub find_edge : Text × Text → List Edge → Bool
find_edge k [] = false
find_edge k (e ∷ es) = let rest = find_edge k es in if is_edge k e then e.allowed else rest

-- `EdgeAllowed`
unfoldable pub edge_allowed : Text → Text → List Edge → Bool
unfolding canon_edge find_edge
edge_allowed from to es = find_edge (canon_edge from to) es
