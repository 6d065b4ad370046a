-- ===== src/Window/Untouched.antt =====
-- What the passes leave alone.
use mcp_switchboard.Prelude.{
  ℕ, suc, ◌≡◌, refl, Bool, true, false, not, ◌&&◌, List, [], ◌∷◌, Option, none, some, arith, Text,
  length, map, ltb, leb, ap, sym, ◌||◌, ◌==◌, if◌then◌else◌, if_cases, if_ind, ◌⊎◌, inl, inr, ◌<◌,
  ◌≤◌, ◌+◌, ◌∙◌, Bool-cases,
}
use mcp_switchboard.Window.{
  Block, BlockType, is_text, shrink_block, shrink_blocks, ToolResult, Message, Encoding, is_tool,
  shrink_results, shrink, is_at, shrunk_result_chars, latest_keep, shrink_older, shrink_latest,
  shrink_all, fit_to_window, last_tool, budget_of, all_chars,
}

-- A block, less its text if that is what it is.
abbrev pub outline : Block → BlockType × Text
outline b = (b.type, if is_text b.type then [] else b.text)

-- The ids of a message's results, whether they are errors, and their blocks but for the texts.
abbrev pub verdicts : List ToolResult → List (Text × Bool × List (BlockType × Text))
verdicts [] = []
verdicts (r ∷ rs) = (r.id, r.is_error, map outline r.content) ∷ verdicts rs

-- A message as it was but for the texts of its results' text blocks, and those only of a tool's message.
pub record SameBut (m m' : Message) : Type 0 where
  pub role : m'.role ≡ m.role
  pub content : m'.content ≡ m.content
  pub tool_calls : m'.tool_calls ≡ m.tool_calls
  pub results : verdicts m'.tool_results ≡ verdicts m.tool_results
  pub spared : (is_tool m.role ≡ true) ⊎ (m' ≡ m)

abbrev pub AllSameBut : List Message → List Message → Type 0
AllSameBut [] [] = Unit
AllSameBut [] (m ∷ ms) = ⊥
AllSameBut (m ∷ ms) [] = ⊥
AllSameBut (m ∷ ms) (m' ∷ ms') = SameBut m m' × AllSameBut ms ms'

SameBut-refl : (m : Message) → SameBut m m
SameBut-refl m = record {
  role = refl;
  content = refl;
  tool_calls = refl;
  results = refl;
  spared = inr refl;
}

AllSameBut-refl : (ms : List Message) → AllSameBut ms ms
AllSameBut-refl [] = tt
AllSameBut-refl (m ∷ ms) = (SameBut-refl m, AllSameBut-refl ms)

SameBut-trans : (a b c : Message) → SameBut a b → SameBut b c → SameBut a c
SameBut-trans a b c p q = record {
  role = q.role ∙ p.role;
  content = q.content ∙ p.content;
  tool_calls = q.tool_calls ∙ p.tool_calls;
  results = q.results ∙ p.results;
  spared = elim p.spared [
    | inl t ↦ inl t
    | inr e ↦ elim q.spared [
      | inl t ↦ inl (ap (λ r. is_tool r) (sym p.role) ∙ t)
      | inr f ↦ inr (f ∙ e)
    ]
  ];
}

AllSameBut-trans :
    (xs ys zs : List Message) → AllSameBut xs ys → AllSameBut ys zs → AllSameBut xs zs
AllSameBut-trans [] [] [] p q = tt
AllSameBut-trans [] [] (c ∷ zs) p q = q
AllSameBut-trans [] (b ∷ ys) zs p q = absurd p
AllSameBut-trans (a ∷ xs) [] zs p q = absurd p
AllSameBut-trans (a ∷ xs) (b ∷ ys) [] p q = q
AllSameBut-trans (a ∷ xs) (b ∷ ys) (c ∷ zs) p q =
    (SameBut-trans a b c p.0 q.0, AllSameBut-trans xs ys zs p.1 q.1)

outline-shrink_block :
    (enc : Encoding) (keep : ℕ) (b : Block) (used : ℕ)
    → outline (shrink_block enc keep b used).0 ≡ outline b
unfolding shrink_block
outline-shrink_block enc keep b used =
    let P : Block × ℕ → Type 0 = λ p. outline p.0 ≡ outline b in
    if_cases P (not (is_text b.type)) _ _ (λ h. refl)
      (λ h.
        if_ind P (leb (length b.text) keep) _ _ refl
          (ap (λ t. (b.type, t)) (both_texts (is_text b.type) _ b.text (ground arith))))
  where
    both_texts : (t : Bool) (x y : Text) → t ≡ true → (if t then [] else x) ≡ (if t then [] else y)
    both_texts t x y h = ground arith

outlines-shrink_blocks :
    (enc : Encoding) (keep : ℕ) (bs : List Block) (used : ℕ)
    → map outline (shrink_blocks enc keep bs used).0 ≡ map outline bs
unfolding shrink_blocks
outlines-shrink_blocks enc keep [] used = refl
outlines-shrink_blocks enc keep (b ∷ bs) used =
    let p = shrink_block enc keep b used in
    same_lists (outline-shrink_block enc keep b used) (outlines-shrink_blocks enc keep bs p.1)
  where
    same_lists : {A : Type 0} → {x y : A} → {xs ys : List A} → x ≡ y → xs ≡ ys → (x ∷ xs) ≡ (y ∷ ys)
    same_lists e f = cc

verdicts-shrink_results :
    (enc : Encoding) (keep : ℕ) (rs : List ToolResult) (used : ℕ)
    → verdicts (shrink_results enc keep rs used).0 ≡ verdicts rs
unfolding shrink_results
verdicts-shrink_results enc keep [] used = refl
verdicts-shrink_results enc keep (r ∷ rs) used =
    rw
      (
        outlines-shrink_blocks enc keep r.content used,
        verdicts-shrink_results enc keep rs (shrink_blocks enc keep r.content used).1,
      )
      refl

shrink-SameBut :
    (enc : Encoding) (keep : ℕ) (m : Message) (used : ℕ)
    → is_tool m.role ≡ true
    → SameBut m (shrink enc keep m used).0
unfolding shrink
shrink-SameBut enc keep m used t = record {
  role = refl;
  content = refl;
  tool_calls = refl;
  results = verdicts-shrink_results enc keep m.tool_results used;
  spared = inl t;
}

abbrev Same : Message → Message × ℕ → Type 0
Same m p = SameBut m p.0

shrink_older-AllSameBut :
    (enc : Encoding) (budget : ℕ) (last : Option ℕ) (i : ℕ) (ms : List Message) (used : ℕ)
    → AllSameBut ms (shrink_older enc budget last i ms used).0
unfolding shrink_older
shrink_older-AllSameBut enc budget last i [] used = tt
shrink_older-AllSameBut enc budget last i (m ∷ ms) used = (
  if_cases (Same m) (ltb budget used && is_tool m.role && not (is_at i last)) _ (m, used)
      (λ h. shrink-SameBut enc shrunk_result_chars m used (ground (arith, h)))
      (λ _. SameBut-refl m),
  shrink_older-AllSameBut enc budget last (suc i) ms _,
)

-- Where a position is one of these messages', the message is a tool's.
abbrev tool_at : ℕ → Option ℕ → List Message → Bool
tool_at i last [] = true
tool_at i last (m ∷ ms) = (not (is_at i last) || is_tool m.role) && tool_at (suc i) last ms

shrink_latest-AllSameBut :
    (enc : Encoding) (budget : ℕ) (last : Option ℕ) (i : ℕ) (ms : List Message) (used : ℕ)
    → tool_at i last ms ≡ true
    → AllSameBut ms (shrink_latest enc budget last i ms used).0
unfolding shrink_latest
shrink_latest-AllSameBut enc budget last i [] used t = tt
shrink_latest-AllSameBut enc budget last i (m ∷ ms) used t = (
  if_cases (Same m) (is_at i last) (shrink enc (latest_keep budget used m) m used) (m, used)
      (λ h. shrink-SameBut enc (latest_keep budget used m) m used (ground (arith, h, t)))
      (λ _. SameBut-refl m),
  shrink_latest-AllSameBut enc budget last (suc i) ms _ (ground (arith, t)),
)

tool_at-AllSameBut :
    (last : Option ℕ) (i : ℕ) (ms ms' : List Message)
    → AllSameBut ms ms'
    → tool_at i last ms ≡ true
    → tool_at i last ms' ≡ true
tool_at-AllSameBut last i [] [] s t = refl
tool_at-AllSameBut last i [] (m ∷ ms) s t = absurd s
tool_at-AllSameBut last i (m ∷ ms) [] s t = absurd s
tool_at-AllSameBut last i (m ∷ ms) (m' ∷ ms') s t =
    ground (arith, tool_at-AllSameBut last (suc i) ms ms' s.1, s.0.role)

-- The search for the last tool message never returns to a position that it has passed.
last_tool_passed :
    (p i : ℕ) (last : Option ℕ) (ms : List Message)
    → p < i
    → is_at p (last_tool i last ms) ≡ true
    → is_at p last ≡ true
unfolding last_tool
last_tool_passed p i last [] l h = h
last_tool_passed p i last (m ∷ ms) l h = elim (Bool-cases (is_tool m.role)) [
  | inl t ↦ absurd (ground (arith, last_tool_passed p (suc i) (some i) ms (omega arith)))
  | inr t ↦ last_tool_passed p (suc i) last ms (omega arith) (ground (arith, h))
]

tool_at-last_tool :
    (i : ℕ) (last : Option ℕ) (ms : List Message)
    → ((p : ℕ) → i ≤ p → is_at p last ≡ false)
    → tool_at i (last_tool i last ms) ms ≡ true
unfolding last_tool
tool_at-last_tool i last [] h = refl
tool_at-last_tool i last (m ∷ ms) h = elim (Bool-cases (is_tool m.role)) [
  | inl t ↦ ground (arith, tool_at-last_tool (suc i) (some i) ms (λ p l. ground arith))
  | inr t ↦ ground (
    arith,
    tool_at-last_tool (suc i) last ms (λ p l. h p (omega arith)),
    last_tool_passed i (suc i) last ms (omega arith),
    h i (omega arith),
  )
]

abbrev Kept : List Message → List Message × ℕ → Type 0
Kept ms p = AllSameBut ms p.0

Kept-shrink_all :
    (enc : Encoding) (budget : ℕ) (ms : List Message) (used : ℕ)
    → Kept ms (shrink_all enc budget ms used)
unfolding shrink_all
Kept-shrink_all enc budget ms used =
    let last = last_tool 0 none ms in
    let older = shrink_older enc budget last 0 ms used in
    let s = shrink_older-AllSameBut enc budget last 0 ms used in
    let t = tool_at-AllSameBut last 0 ms older.0 s (tool_at-last_tool 0 none ms (λ p l. refl)) in
    let latest = shrink_latest enc budget last 0 older.0 older.1 in
    if_ind (Kept ms) (ltb budget older.1) latest older
      (AllSameBut-trans ms older.0 latest.0 s
        (shrink_latest-AllSameBut enc budget last 0 older.0 older.1 t))
      s

-- No message is lost or moved, and none changes but a tool's, of which only the texts of its results'
-- text blocks do: no block is lost or moved or changes its type, and what is no text stays as it is.
pub fit_to_window-AllSameBut :
    (enc : Encoding) (msgs : List Message) (fixed num_ctx : ℕ)
    → AllSameBut msgs (fit_to_window enc msgs fixed num_ctx).0
unfolding fit_to_window
fit_to_window-AllSameBut enc msgs fixed num_ctx =
    let whole : List Message × ℕ = (msgs, fixed + all_chars enc msgs) in
    let shrunk = shrink_all enc (budget_of num_ctx) msgs (fixed + all_chars enc msgs) in
    let fits = leb (fixed + all_chars enc msgs) (budget_of num_ctx) in
    if_ind (Kept msgs) (num_ctx == 0) whole (if fits then whole else shrunk) (AllSameBut-refl msgs)
      (if_ind (Kept msgs) fits whole shrunk (AllSameBut-refl msgs)
        (Kept-shrink_all enc (budget_of num_ctx) msgs (fixed + all_chars enc msgs)))
