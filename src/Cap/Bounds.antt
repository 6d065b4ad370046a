-- ===== src/Cap/Bounds.antt =====
-- How long a capped result of hub/internal/agents/toolcap.go can still be.
use mcp_switchboard.Prelude.{
  ℕ, suc, ◌+◌, ◌-◌, ◌*◌, ◌≤◌, ◌<◌, not, List, [], ◌∷◌, ◌++◌, arith, Text, bytes, length, All, take,
  drop, ltb, leb, ◌==◌, if_ind, if_cases, length-append, length-take, length-drop,
}
use mcp_switchboard.Window.{Block, is_text}
use mcp_switchboard.Cap.{
  marker, keep_of, head_of, cut, head_tail, total_chars, cap_from, cap_blocks,
}

module _ (decimal : ℕ → Text) (d limit : ℕ)
    (short : (n : ℕ) → n ≤ limit → length (decimal n) ≤ d) where
  length-marker :
      (omitted n : ℕ)
      → omitted ≤ limit
      → n ≤ limit
      → length (marker decimal omitted n) ≤ 142 + 2 * d
  length-marker omitted n u v =
      let end =
        bytes
          " characters omitted to fit the model's context window. Ask for less: a narrower path or filter, a limit, or read it in pages ...]"
        ++ (10 ∷ 10 ∷ []) in
      let rest = bytes " of " ++ (decimal n ++ end) in
      omega (
        arith,
        length-append (decimal omitted) rest,
        length-append (decimal n) end,
        short omitted u,
        short n v,
      )

  length-cut :
      (text : Text) (n head tail : ℕ)
      → length text ≤ limit
      → n ≤ limit
      → length (cut decimal text n head tail) ≤ head + tail + (142 + 2 * d)
  unfolding cut
  length-cut text n head tail u v =
      let omitted = length text - head - tail in
      let m = marker decimal omitted n in
      let end = drop (length text - tail) text in
      if_cases (λ (t : Text). length t ≤ head + tail + (142 + 2 * d))
        (leb (length text) (head + tail)) _ _ (λ h. ground arith)
        (λ h. omega (
          arith,
          length-append (take head text) (m ++ end),
          length-append m end,
          length-take head text,
          length-drop (length text - tail) text,
          length-marker omitted n (omega (arith, u)) v,
        ))

  length-head_tail :
      (text : Text) (n keep : ℕ)
      → length text ≤ limit
      → n ≤ limit
      → length (head_tail decimal text n keep) ≤ keep + (342 + 2 * d)
  unfolding head_tail keep_of head_of
  length-head_tail text n keep u v =
      let kept = keep_of keep in
      let h : kept ≤ keep + 200 =
        if_ind (λ k. k ≤ keep + 200) (ltb keep 200) 200 keep (omega arith) (omega arith) in
      omega (arith, h, length-cut text n (head_of kept) (kept - head_of kept) u v)

  -- A block whose length is among the numbers that print short.
  abbrev IsPrintable : Block → Type 0
  IsPrintable b = length b.text ≤ limit

  total_chars-cap_from :
      (remaining : ℕ) (bs : List Block)
      → All IsPrintable bs
      → total_chars (cap_from decimal remaining bs) ≤ remaining + length bs * (342 + 2 * d)
  unfolding total_chars cap_from
  total_chars-cap_from remaining [] u = omega arith
  total_chars-cap_from remaining (b ∷ bs) (u, us) =
      let P : List Block → Type 0 =
        λ bs'. total_chars bs' ≤ remaining + suc (length bs) * (342 + 2 * d) in
      let n = length b.text in
      if_cases P (not (is_text b.type)) _ _
        (λ h. ground (arith, total_chars-cap_from remaining bs us))
        (λ h.
          if_cases P (leb n remaining) _ _
            (λ k. ground (arith, total_chars-cap_from (remaining - n) bs us))
            (λ k.
              ground
                (arith, total_chars-cap_from 0 bs us, length-head_tail b.text n remaining u u)))

  -- Where the numbers up to `limit` print in at most `d` digits and no block is longer than that, a
  -- capped result has at most the cap's characters and, for each of its blocks, the 200 that are
  -- always kept and a marker of 142 and two numbers.
  pub cap_blocks_bounds :
      (blocks : List Block) (max_chars : ℕ)
      → All IsPrintable blocks
      → 0 < max_chars
      → total_chars (cap_blocks decimal blocks max_chars)
        ≤ max_chars + length blocks * (342 + 2 * d)
  unfolding cap_blocks
  cap_blocks_bounds blocks max_chars u h =
      let P : List Block → Type 0 =
        λ bs. total_chars bs ≤ max_chars + length blocks * (342 + 2 * d) in
      if_cases P (max_chars == 0) _ _ (λ e. absurd (ground arith))
        (λ e.
          if_cases P (leb (total_chars blocks) max_chars) _ _ (λ k. ground arith)
            (λ k. total_chars-cap_from max_chars blocks u))
