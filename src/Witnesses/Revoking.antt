-- ===== src/Witnesses/Revoking.antt =====
-- Three generations of agents, of which the eldest loses a grant.
use mcp_switchboard.Prelude.{
  ◌≡◌, refl, inl, inr, Bool, true, false, List, [], ◌∷◌, none, some, Text, bytes, text_eq,
  if◌then◌else◌,
}
use mcp_switchboard.Ref.{ServerRef, matches, field_matches}
use mcp_switchboard.Grants.{Grant, inherited, pat_of, covers, resolve}
use mcp_switchboard.GrantStore.{Agents, Row, set_grant, set_edge, edge_allowed}
use mcp_switchboard.GrantStore.Tree.{Below, child, deeper}
use mcp_switchboard.GrantStore.Revocation.{revocation_complete, may_reach, may_reach-others}
use mcp_switchboard.GrantStore.Edges.{same_pair, edge_allowed-set_edge}

abbrev agents : Agents
agents = (bytes "a", none) ∷ (bytes "b", some (bytes "a")) ∷ (bytes "c", some (bytes "b")) ∷ []

abbrev grant : Text → Bool → Text → Grant
grant label allowed source = record {
  label = label;
  project = bytes "*";
  server = bytes "*";
  allowed = allowed;
  source = source;
}

abbrev row : Text → Grant → Row
row id g = record { agent_id = id; grant = g }

-- The grandchild has a grant for the laptop of its parent's, and one for the desk that a person gave it.
abbrev rows : List Row
rows =
    row (bytes "a") (grant (bytes "*") true (bytes "explicit"))
    ∷ row (bytes "c") (grant (bytes "laptop") true inherited)
    ∷ row (bytes "c") (grant (bytes "desk") true (bytes "human"))
    ∷ []

abbrev no_laptop : Grant
no_laptop = grant (bytes "laptop") false (bytes "human")

abbrev files_at : Text → ServerRef
files_at label = record { label = label; project = []; server = bytes "files" }

lost :
    may_reach
      (bytes "c")
      (files_at (bytes "laptop"))
      (set_grant agents (bytes "a") no_laptop rows).1
    ≡ false
unfolding set_grant resolve matches text_eq field_matches
lost = refl

survives :
    may_reach (bytes "c") (files_at (bytes "desk")) (set_grant agents (bytes "a") no_laptop rows).1
    ≡ true
unfolding set_grant resolve matches text_eq field_matches
survives = refl

-- The child's inherited grant is wider than what its parent is denied, and stays.
abbrev wide_rows : List Row
wide_rows =
    row (bytes "a") (grant (bytes "*") true (bytes "explicit"))
    ∷ row (bytes "b") (grant (bytes "*") true inherited)
    ∷ []

parent_lost :
    may_reach
      (bytes "a")
      (files_at (bytes "laptop"))
      (set_grant agents (bytes "a") no_laptop wide_rows).1
    ≡ false
unfolding set_grant resolve matches text_eq field_matches
parent_lost = refl

child_keeps :
    may_reach
      (bytes "b")
      (files_at (bytes "laptop"))
      (set_grant agents (bytes "a") no_laptop wide_rows).1
    ≡ true
unfolding set_grant resolve matches text_eq field_matches
child_keeps = refl

grandchild : Below agents (bytes "a") (bytes "c")
grandchild = deeper (child (inr (inl refl))) (inr (inr (inl refl)))

abbrev narrower : Row
narrower = row (bytes "c") (grant (bytes "desk") true inherited)

revocation_complete_example : covers (pat_of no_laptop) (pat_of narrower.grant) ≡ false
unfolding set_grant text_eq
revocation_complete_example =
    revocation_complete agents (bytes "a") no_laptop (narrower ∷ rows) narrower refl refl grandchild
      refl refl (inl (inl refl))

different : text_eq (bytes "a") (bytes "c") ≡ false
unfolding text_eq
different = refl

may_reach-others_example : may_reach (bytes "c") (files_at (bytes "desk")) rows ≡ true
may_reach-others_example =
    may_reach-others agents (bytes "c") (bytes "a") no_laptop (files_at (bytes "desk")) rows
      different (inl survives)

edge_allowed-set_edge_example :
    edge_allowed (bytes "b") (bytes "a") (set_edge (bytes "a") (bytes "b") true []) ≡ (
      if same_pair (bytes "b") (bytes "a") (bytes "a") (bytes "b")
      then true
      else edge_allowed (bytes "b") (bytes "a") [])
edge_allowed-set_edge_example =
    edge_allowed-set_edge (bytes "b") (bytes "a") (bytes "a") (bytes "b") true []
