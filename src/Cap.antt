-- ===== src/Cap.antt =====
-- The cap on the text of one tool result: capBlocks of hub/internal/agents/toolcap.go. A text is its list of runes here, and a negative maxChars is 0: no cap, too.
pub mod Bounds
pub mod Kept
use mcp_switchboard.Prelude.{
  ℕ, zero, suc, ◌+◌, ◌-◌, ◌*◌, ◌/◌, Bool, true, false, not, List, [], ◌∷◌, ◌++◌, Text, bytes,
  length, take, drop, ltb, leb, ◌==◌, if◌then◌else◌,
}
use mcp_switchboard.Window.{Block, is_text}

abbrev pub min_keep : ℕ
min_keep = 200

-- What stands for the middle that is left out, with the numbers printed by `decimal`.
abbrev pub marker : (ℕ → Text) → ℕ → ℕ → Text
marker decimal omitted n =
    (10 ∷ 10 ∷ bytes "[... ")
    ++ (decimal omitted
        ++ (bytes " of "
            ++ (decimal n
                ++ (bytes
                      " characters omitted to fit the model's context window. Ask for less: a narrower path or filter, a limit, or read it in pages ...]"
                    ++ (10 ∷ 10 ∷ [])))))

-- How much of a text is kept, and how much of that at its start.
unfoldable pub keep_of : ℕ → ℕ
keep_of keep = if ltb keep min_keep then min_keep else keep

unfoldable pub head_of : ℕ → ℕ
head_of keep = (keep * 6) / 10

unfoldable pub cut : (ℕ → Text) → Text → ℕ → ℕ → ℕ → Text
cut decimal text n head tail =
    let omitted = length text - head - tail in
    if leb (length text) (head + tail)
    then text
    else take head text ++ (marker decimal omitted n ++ drop (length text - tail) text)

unfoldable pub head_tail : (ℕ → Text) → Text → ℕ → ℕ → Text
unfolding keep_of head_of cut
head_tail decimal text n keep =
    let kept = keep_of keep in cut decimal text n (head_of kept) (kept - head_of kept)

-- The first loop: the length of the text blocks.
unfoldable pub total_chars : List Block → ℕ
total_chars [] = 0
total_chars (b ∷ bs) =
    let rest = total_chars bs in if is_text b.type then length b.text + rest else rest

-- The second loop, with what remains of the budget.
unfoldable pub cap_from : (ℕ → Text) → ℕ → List Block → List Block
unfolding head_tail
cap_from decimal remaining [] = []
cap_from decimal remaining (b ∷ bs) =
    let n = length b.text in
    let same = cap_from decimal remaining bs in
    let less = cap_from decimal (remaining - n) bs in
    let spent = cap_from decimal 0 bs in
    if not (is_text b.type)
    then b ∷ same
    else if leb n remaining
    then b ∷ less
    else record b { text = head_tail decimal b.text n remaining } ∷ spent

unfoldable pub cap_blocks : (ℕ → Text) → List Block → ℕ → List Block
unfolding total_chars cap_from
cap_blocks decimal blocks max_chars =
    if max_chars == 0
    then blocks
    else if leb (total_chars blocks) max_chars
    then blocks
    else cap_from decimal max_chars blocks
