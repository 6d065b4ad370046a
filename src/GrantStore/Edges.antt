-- ===== src/GrantStore/Edges.antt =====
-- Edges are symmetric.
use mcp_switchboard.Prelude.{
  ◌≡◌, refl, ap, ◌∙◌, Bool, true, false, ◌&&◌, ◌||◌, List, [], ◌∷◌, Text, text_eq, text_eq_iff,
  text_eq_refl, text_lt, text_lt_asym, text_lt_total, if◌then◌else◌, if_cases, Bool-cases, inl, inr,
  arith,
}
use mcp_switchboard.GrantStore.{Edge, canon_edge, upsert_edge, set_edge, find_edge, edge_allowed}

abbrev pair_eq : Text × Text → Text × Text → Bool
pair_eq (a, b) (c, d) = text_eq a c && text_eq b d

-- The same two ids, in either order.
abbrev pub same_pair : Text → Text → Text → Text → Bool
same_pair x y a b = text_eq x a && text_eq y b || text_eq x b && text_eq y a

find_edge-upsert_edge :
    (k l : Text × Text) (allowed : Bool) (es : List Edge)
    → find_edge k (upsert_edge l allowed es) ≡ (if pair_eq l k then allowed else find_edge k es)
unfolding find_edge upsert_edge
find_edge-upsert_edge (a, b) (c, d) allowed [] = ground arith
find_edge-upsert_edge (a, b) (c, d) allowed (e ∷ es) = ground (
  arith,
  find_edge-upsert_edge (a, b) (c, d) allowed es,
  text_eq_iff e.a a,
  text_eq_iff e.b b,
  text_eq_iff e.a c,
  text_eq_iff e.b d,
  text_eq_iff c a,
  text_eq_iff d b,
)

canon_edge-swap : (a b : Text) → canon_edge a b ≡ canon_edge b a
unfolding canon_edge
canon_edge-swap a b =
    if_cases (λ (p : Text × Text). p ≡ canon_edge b a) (text_lt b a) _ _
      (λ e.
        if_cases (λ (p : Text × Text). (b, a) ≡ p) (text_lt a b) _ _
          (λ f. absurd (ground (arith, text_lt_asym b a e))) (λ f. refl))
      (λ e.
        if_cases (λ (p : Text × Text). (a, b) ≡ p) (text_lt a b) _ _ (λ f. refl)
          (λ f. ground (arith, text_eq_iff a b, text_lt_total a b f e)))

-- Where the pair is another, so is its key.
pair_eq-other :
    (x y a b : Text) → same_pair x y a b ≡ false → pair_eq (canon_edge a b) (canon_edge x y) ≡ false
unfolding canon_edge
pair_eq-other x y a b h =
    if_cases (λ (p : Text × Text). pair_eq p (canon_edge x y) ≡ false) (text_lt b a) _ _
      (λ e.
        if_cases (λ (q : Text × Text). pair_eq (b, a) q ≡ false) (text_lt y x) _ _
          (λ f. ground (arith, text_eq_iff b y, text_eq_iff a x, text_eq_iff x a, text_eq_iff y b))
          (λ f. ground (arith, text_eq_iff b x, text_eq_iff a y, text_eq_iff y a, text_eq_iff x b)))
      (λ e.
        if_cases (λ (q : Text × Text). pair_eq (a, b) q ≡ false) (text_lt y x) _ _
          (λ f. ground (arith, text_eq_iff a y, text_eq_iff b x, text_eq_iff x b, text_eq_iff y a))
          (λ f. ground (arith, text_eq_iff a x, text_eq_iff b y, text_eq_iff y b, text_eq_iff x a)))

pair_eq_refl : (k : Text × Text) → pair_eq k k ≡ true
pair_eq_refl (a, b) = ground (arith, text_eq_refl a, text_eq_refl b)

pair_eq-canon_edge :
    (x y a b : Text) → pair_eq (canon_edge a b) (canon_edge x y) ≡ same_pair x y a b
pair_eq-canon_edge x y a b = elim (Bool-cases (text_eq x a && text_eq y b)) [
  | inl e ↦
      let p : x ≡ a = ground (arith, text_eq_iff x a) in
      let q : y ≡ b = ground (arith, text_eq_iff y b) in
      rw (p, q) (ground (arith, pair_eq_refl (canon_edge a b), text_eq_refl a, text_eq_refl b))
  | inr e ↦ elim (Bool-cases (text_eq x b && text_eq y a)) [
    | inl f ↦
        let p : x ≡ b = ground (arith, text_eq_iff x b) in
        let q : y ≡ a = ground (arith, text_eq_iff y a) in
        rw (p, q, canon_edge-swap b a)
          (ground (arith, pair_eq_refl (canon_edge a b), text_eq_refl a, text_eq_refl b))
    | inr f ↦ ground (arith, pair_eq-other x y a b)
  ]
]

-- An edge that is set is the one between its two agents from either side, and no other changes.
pub edge_allowed-set_edge :
    (x y a b : Text) (allowed : Bool) (es : List Edge)
    → edge_allowed x y (set_edge a b allowed es)
      ≡ (if same_pair x y a b then allowed else edge_allowed x y es)
unfolding edge_allowed set_edge
edge_allowed-set_edge x y a b allowed es =
    find_edge-upsert_edge (canon_edge x y) (canon_edge a b) allowed es
    ∙ ap (λ t. if t then allowed else edge_allowed x y es) (pair_eq-canon_edge x y a b)
