-- ===== src/GrantStore/Tree.antt =====
-- The descendants that the store finds are all that there are.
use mcp_switchboard.Prelude.{
  ◌≡◌, ap, sym, inl, inr, Bool, true, not, ◌&&◌, ◌||◌, List, [], ◌∷◌, Option, none, some, Text,
  text_eq, text_eq_iff, text_eq_refl, any, In, if_cases, subst, arith,
}
use mcp_switchboard.GrantStore.{Agents, member, parent_in, below}

-- `Below agents a d`: d is a child of a, or of one below a.
pub data Below (agents : Agents) (a : Text) : Text → Type 0 where
  child : {d : Text} → In (d, some a) agents → Below agents a d
  deeper : {p d : Text} → Below agents a p → In (d, some p) agents → Below agents a d

-- An agent is created before its children, and once.
abbrev pub names : Text → Agents → Bool
names id agents = any (λ e. text_eq e.0 id) agents

abbrev older : Option Text → Agents → Bool
older none agents = true
older (some p) agents = not (names p agents)

abbrev pub in_order : Agents → Bool
in_order [] = true
in_order ((id, parent) ∷ rest) = older parent ((id, parent) ∷ rest) && in_order rest

-- Whose parent is among the ids, or found with them.
abbrev known : Text → List Text → Agents → Bool
known p ids agents = member p ids || member p (below ids agents)

member-names :
    (p : Text) (ids : List Text) (agents : Agents)
    → member p (below ids agents) ≡ true
    → names p agents ≡ true
unfolding below
member-names p ids [] h = h
member-names p ids ((id, parent) ∷ rest) h =
    ground (arith, member-names p (id ∷ ids) rest, member-names p ids rest)

below_complete :
    (d p : Text) (ids : List Text) (agents : Agents)
    → in_order agents ≡ true
    → In (d, some p) agents
    → known p ids agents ≡ true
    → member d (below ids agents) ≡ true
unfolding below
below_complete d p ids [] o i k = absurd i
below_complete d p ids ((id, parent) ∷ rest) o (inl e) k =
    let same : d ≡ id = ap (λ x. x.0) e in
    let mine : some p ≡ parent = ap (λ x. x.1) e in
    let first : older parent ((id, parent) ∷ rest) ≡ true = ground arith in
    let before : not (names p ((id, parent) ∷ rest)) ≡ true =
      subst (λ q. older q ((id, parent) ∷ rest) ≡ true) (sym mine) first in
    let now : member p ids ≡ parent_in parent ids = ap (λ q. parent_in q ids) mine in
    if_cases (λ l. member d l ≡ true) (parent_in parent ids) _ _
      (λ e. ground (arith, text_eq_iff id d))
      (λ e. absurd (ground (arith, member-names p ids ((id, parent) ∷ rest))))
below_complete d p ids ((id, parent) ∷ rest) o (inr i) k =
    if_cases (λ l. member d l ≡ true) (parent_in parent ids) _ _
      (λ e. ground (arith, below_complete d p (id ∷ ids) rest (ground arith) i))
      (λ e. below_complete d p ids rest (ground arith) i (ground arith))

-- The store finds every descendant of an agent, however deep, where agents are listed in the order in
-- which they were created.
pub Below-member :
    (agents : Agents) (a d : Text)
    → in_order agents ≡ true
    → Below agents a d
    → member d (below (a ∷ []) agents) ≡ true
Below-member agents a d o (child i) =
    below_complete d a (a ∷ []) agents o i (ground (arith, text_eq_refl a))
Below-member agents a d o (deeper {p} b i) =
    below_complete d p (a ∷ []) agents o i (ground (arith, Below-member agents a p o b))
