-- ===== src/Grants/Order.antt =====
-- The rule that decides: among the allows that match, none is more specific.
use mcp_switchboard.Prelude.{
  ℕ, ◌+◌, ◌*◌, ◌≤◌, ◌≡◌, true, false, List, [], ◌∷◌, Option, none, some, arith, All, Text, text_eq,
  ltb, if◌then◌else◌, Bool-cases, inl, inr,
}
use mcp_switchboard.Ref.{ServerRef, wildcard, matches}
use mcp_switchboard.Grants.{Rule, more_specific, resolve_from, resolve, takes_over}
use mcp_switchboard.Grants.Resolution.{allows}

abbrev exact : Text → ℕ
exact field = if text_eq field wildcard then 0 else 1

-- The order of `moreSpecific` as a number: exact fields are binary digits, the label's the highest.
weight : ServerRef → ℕ
weight r = 4 * exact r.label + 2 * exact r.project + exact r.server

more_specific-weight : (a b : ServerRef) → more_specific a b ≡ ltb (weight b) (weight a)
unfolding more_specific weight
more_specific-weight a b = ground arith

-- What is known of the rule that decides an allow, for each rule of the list.
abbrev Beats : ServerRef → ℕ → Rule → Type 0
Beats ref w r = allows ref r ≡ true → weight r.ref ≤ w

Beats-mono :
    (ref : ServerRef) (v w : ℕ) (rules : List Rule)
    → v ≤ w
    → All (Beats ref v) rules
    → All (Beats ref w) rules
Beats-mono ref v w [] h a = tt
Beats-mono ref v w (r ∷ rules) h a = (λ e. omega (arith, a.0 e), Beats-mono ref v w rules h a.1)

abbrev best_weight : Option Rule → ℕ
best_weight none = 0
best_weight (some b) = weight b.ref

abbrev after : Rule → Option Rule → Option Rule
after r best = if takes_over r best then some r else best

after-weight :
    (r : Rule) (best : Option Rule)
    → (best_weight best ≤ best_weight (after r best)) × (weight r.ref ≤ best_weight (after r best))
after-weight r none = (omega arith, omega arith)
after-weight r (some b) = ground (arith, more_specific-weight r.ref b.ref)

-- The loop only moves to a heavier rule, and ends at one that no rule which it passed outweighs.
resolve_from_max :
    (ref : ServerRef) (best : Option Rule) (rules : List Rule) (b : Rule)
    → resolve_from ref best rules ≡ (true, some b)
    → (best_weight best ≤ weight b.ref) × All (Beats ref (weight b.ref)) rules
unfolding resolve_from
resolve_from_max ref best [] b h = (ground arith, tt)
resolve_from_max ref best (r ∷ rules) b h = elim (Bool-cases (matches r.ref ref)) [
  | inl hit ↦ elim (Bool-cases r.allowed) [
    | inl allowed ↦
        let rest : (best_weight (after r best) ≤ weight b.ref)
            × All (Beats ref (weight b.ref)) rules =
          resolve_from_max ref (after r best) rules b (ground arith) in
        (
          omega (arith, rest.0, after-weight r best),
          (λ _. omega (arith, rest.0, after-weight r best), rest.1),
        )
    | inr denied ↦ absurd (ground arith)
  ]
  | inr miss ↦
      let rest : (best_weight best ≤ weight b.ref) × All (Beats ref (weight b.ref)) rules =
        resolve_from_max ref best rules b (ground arith) in
      (rest.0, (λ e. absurd (ground arith), rest.1))
]

-- An allow that `Resolve` returns is at least as specific, in the order of `moreSpecific`, as every
-- rule of the list that allows the server.
pub resolve_most_specific :
    (rules : List Rule) (ref : ServerRef) (b : Rule)
    → resolve rules ref ≡ (true, some b)
    → All (λ r. allows ref r ≡ true → more_specific r.ref b.ref ≡ false) rules
unfolding resolve
resolve_most_specific rules ref b h = go rules (resolve_from_max ref none rules b h).1
  where
    go :
        (rs : List Rule)
        → All (Beats ref (weight b.ref)) rs
        → All (λ r. allows ref r ≡ true → more_specific r.ref b.ref ≡ false) rs
    go [] a = tt
    go (r ∷ rs) a = (λ e. ground (arith, a.0 e, more_specific-weight r.ref b.ref), go rs a.1)
