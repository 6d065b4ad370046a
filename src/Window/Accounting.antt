-- ===== src/Window/Accounting.antt =====
-- The count that the passes keep is the length of the prompt that they return.
use mcp_switchboard.Prelude.{
  ℕ, suc, ◌+◌, ◌-◌, ◌≡◌, refl, false, not, ◌&&◌, List, [], ◌∷◌, Option, none, arith, Text, length,
  ltb, leb, ◌==◌, if◌then◌else◌, if_ind, ◌<◌, take, length-append, length-take,
}
use mcp_switchboard.Window.{
  Block, ToolResult, Message, Encoding, is_text, is_tool, block_chars, result_chars, call_chars,
  message_chars, all_chars, shrunk_text, shrink_block, shrink_blocks, shrink_results, shrink, is_at,
  shrunk_result_chars, latest_keep, shrink_older, shrink_latest, shrink_all, fit_to_window,
  budget_of, last_tool,
}

shrink_block-used :
    (enc : Encoding) (keep : ℕ) (b : Block) (used k : ℕ)
    → used ≡ k + length b.text
    → (shrink_block enc keep b used).1 ≡ k + length (shrink_block enc keep b used).0.text
unfolding shrink_block
shrink_block-used enc keep b used k e =
    let P : Block × ℕ → Type 0 = λ p. p.1 ≡ k + length p.0.text in
    if_ind P (not (is_text b.type)) _ _ e
      (if_ind P (leb (length b.text) keep) _ _ e (omega (arith, e)))

shrink_blocks-used :
    (enc : Encoding) (keep : ℕ) (bs : List Block) (used k : ℕ)
    → used ≡ k + block_chars bs
    → (shrink_blocks enc keep bs used).1 ≡ k + block_chars (shrink_blocks enc keep bs used).0
unfolding shrink_blocks block_chars
shrink_blocks-used enc keep [] used k e = e
shrink_blocks-used enc keep (b ∷ bs) used k e =
    let p = shrink_block enc keep b used in
    let h = shrink_block-used enc keep b used (k + block_chars bs) (omega (arith, e)) in
    omega (arith, shrink_blocks-used enc keep bs p.1 (k + length p.0.text) (omega (arith, h)))

shrink_results-used :
    (enc : Encoding) (keep : ℕ) (rs : List ToolResult) (used k : ℕ)
    → used ≡ k + result_chars rs
    → (shrink_results enc keep rs used).1 ≡ k + result_chars (shrink_results enc keep rs used).0
unfolding shrink_results result_chars
shrink_results-used enc keep [] used k e = e
shrink_results-used enc keep (r ∷ rs) used k e =
    let p = shrink_blocks enc keep r.content used in
    let h = shrink_blocks-used enc keep r.content used (k + result_chars rs) (omega (arith, e)) in
    omega (arith, shrink_results-used enc keep rs p.1 (k + block_chars p.0) (omega (arith, h)))

-- A message and a count that goes with the characters of the others.
abbrev Counted : Encoding → ℕ → Message × ℕ → Type 0
Counted enc k (m, used) = used ≡ k + message_chars enc m

shrink-used :
    (enc : Encoding) (keep : ℕ) (m : Message) (used k : ℕ)
    → Counted enc k (m, used)
    → Counted enc k (shrink enc keep m used)
unfolding shrink message_chars
shrink-used enc keep m used k e =
    let c = block_chars m.content + call_chars enc m.tool_calls in
    omega (arith, shrink_results-used enc keep m.tool_results used (k + c) (omega (arith, e)))

shrink_older-used :
    (enc : Encoding) (budget : ℕ) (last : Option ℕ) (i : ℕ) (ms : List Message) (used k : ℕ)
    → used ≡ k + all_chars enc ms
    → let (ms', used') = shrink_older enc budget last i ms used in used' ≡ k + all_chars enc ms'
unfolding shrink_older all_chars
shrink_older-used enc budget last i [] used k e = e
shrink_older-used enc budget last i (m ∷ ms) used k e =
    let p =
      if ltb budget used && is_tool m.role && not (is_at i last)
      then shrink enc shrunk_result_chars m used
      else (m, used) in
    let e' : used ≡ (k + all_chars enc ms) + message_chars enc m = omega (arith, e) in
    let h : Counted enc (k + all_chars enc ms) p =
      if_ind (Counted enc (k + all_chars enc ms)) _ _ _ (shrink-used enc _ m used _ e') e' in
    omega (
      arith,
      shrink_older-used enc budget last (suc i) ms p.1 (k + message_chars enc p.0)
          (omega (arith, h)),
    )

shrink_latest-used :
    (enc : Encoding) (budget : ℕ) (last : Option ℕ) (i : ℕ) (ms : List Message) (used k : ℕ)
    → used ≡ k + all_chars enc ms
    → let (ms', used') = shrink_latest enc budget last i ms used in used' ≡ k + all_chars enc ms'
unfolding shrink_latest all_chars
shrink_latest-used enc budget last i [] used k e = e
shrink_latest-used enc budget last i (m ∷ ms) used k e =
    let p = if is_at i last then shrink enc (latest_keep budget used m) m used else (m, used) in
    let e' : used ≡ (k + all_chars enc ms) + message_chars enc m = omega (arith, e) in
    let h : Counted enc (k + all_chars enc ms) p =
      if_ind (Counted enc (k + all_chars enc ms)) _ _ _ (shrink-used enc _ m used _ e') e' in
    omega (
      arith,
      shrink_latest-used enc budget last (suc i) ms p.1 (k + message_chars enc p.0)
          (omega (arith, h)),
    )

abbrev Whole : Encoding → ℕ → List Message × ℕ → Type 0
Whole enc fixed (ms, used) = used ≡ fixed + all_chars enc ms

shrink_all-used :
    (enc : Encoding) (budget fixed : ℕ) (ms : List Message) (used : ℕ)
    → Whole enc fixed (ms, used)
    → Whole enc fixed (shrink_all enc budget ms used)
unfolding shrink_all
shrink_all-used enc budget fixed ms used e =
    let last = last_tool 0 none ms in
    let h = shrink_older-used enc budget last 0 ms used fixed e in
    if_ind (Whole enc fixed) _ _ _ (shrink_latest-used enc budget last 0 _ _ fixed h) h

-- The count that decides whether the prompt fits is, at the end, exactly the number of characters of the
-- prompt with the messages that are returned.
pub fit_to_window-used :
    (enc : Encoding) (msgs : List Message) (fixed num_ctx : ℕ)
    → let (msgs', used) = fit_to_window enc msgs fixed num_ctx in used ≡ fixed + all_chars enc msgs'
unfolding fit_to_window
fit_to_window-used enc msgs fixed num_ctx =
    let whole : List Message × ℕ = (msgs, fixed + all_chars enc msgs) in
    let shrunk = shrink_all enc (budget_of num_ctx) msgs (fixed + all_chars enc msgs) in
    let fits = leb (fixed + all_chars enc msgs) (budget_of num_ctx) in
    if_ind (Whole enc fixed) (num_ctx == 0) whole (if fits then whole else shrunk) refl (
      if_ind (Whole enc fixed) fits whole shrunk refl
        (shrink_all-used enc (budget_of num_ctx) fixed msgs (fixed + all_chars enc msgs) refl))

-- A text that is over the limit, yet shorter than the limit and the note together, comes out of the
-- shortening longer than it was.
pub length-shrunk_text :
    (enc : Encoding) (text : Text) (keep : ℕ)
    → keep < length text
    → length text < keep + length (enc.note (length text - keep))
    → length text < length (shrunk_text enc text (length text) keep)
unfolding shrunk_text
length-shrunk_text enc text keep l n =
    let f : leb (length text) keep ≡ false = ground arith in
    rw (f) (
      omega (
        arith,
        length-append (take keep text) (enc.note (length text - keep)),
        length-take keep text,
      ))
