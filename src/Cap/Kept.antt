-- ===== src/Cap/Kept.antt =====
-- What the cap of hub/internal/agents/toolcap.go leaves alone.
use mcp_switchboard.Prelude.{
  ℕ, ◌+◌, ◌-◌, ◌≤◌, ◌≡◌, refl, not, List, [], ◌∷◌, arith, ap, Text, length, leb, ltb, ◌==◌, if_ind,
  if_cases, All,
}
use mcp_switchboard.Window.{Block, is_text}
use mcp_switchboard.Cap.{
  min_keep, keep_of, head_of, cut, head_tail, total_chars, cap_from, cap_blocks,
}

-- A block that is never shortened.
abbrev IsSmall : Block → Type 0
IsSmall b = length b.text ≤ min_keep

head_tail-small :
    (decimal : ℕ → Text) (text : Text) (n keep : ℕ)
    → length text ≤ min_keep
    → head_tail decimal text n keep ≡ text
unfolding head_tail keep_of head_of cut
head_tail-small decimal text n keep u =
    let kept = keep_of keep in
    let h : min_keep ≤ kept =
      if_cases (λ k. 200 ≤ k) (ltb keep 200) 200 keep (λ e. omega arith) (λ e. ground arith) in
    if_cases (λ (t : Text). t ≡ text) (leb (length text) (head_of kept + (kept - head_of kept))) _ _
      (λ e. refl) (λ e. absurd (ground (arith, h)))

with_same_text :
    (b : Block) (bs : List Block) (text : Text) (rest : List Block)
    → text ≡ b.text
    → rest ≡ bs
    → (record b { text = text } ∷ rest) ≡ b ∷ bs
with_same_text b bs text rest e e' = rw (e, e') refl

cap_from-small :
    (decimal : ℕ → Text) (remaining : ℕ) (bs : List Block)
    → All IsSmall bs
    → cap_from decimal remaining bs ≡ bs
unfolding cap_from
cap_from-small decimal remaining [] u = refl
cap_from-small decimal remaining (b ∷ bs) (u, us) =
    let P : List Block → Type 0 = λ bs'. bs' ≡ b ∷ bs in
    let n = length b.text in
    if_ind P (not (is_text b.type)) _ _ (ap (λ r. b ∷ r) (cap_from-small decimal remaining bs us)) (
      if_ind P (leb n remaining) _ _
        (ap (λ r. b ∷ r) (cap_from-small decimal (remaining - n) bs us))
        (with_same_text b bs _ _ (head_tail-small decimal b.text n remaining u)
          (cap_from-small decimal 0 bs us)))

cap_blocks-small :
    (decimal : ℕ → Text) (blocks : List Block) (max_chars : ℕ)
    → All IsSmall blocks
    → cap_blocks decimal blocks max_chars ≡ blocks
unfolding cap_blocks
cap_blocks-small decimal blocks max_chars u =
    let P : List Block → Type 0 = λ bs. bs ≡ blocks in
    if_ind P (max_chars == 0) _ _ refl (
      if_ind P (leb (total_chars blocks) max_chars) _ _ refl
        (cap_from-small decimal max_chars blocks u))
