-- ===== src/Loki/Labels.antt =====
-- The names and values of labels: cleanName, cleanValue and cleanLabels of hub/internal/loki/loki.go. A
-- name is its runes.
use mcp_switchboard.Prelude.{
  ℕ, ◌≡◌, refl, ap, ◌∙◌, Bool, true, false, not, ◌&&◌, ◌||◌, [], ◌∷◌, Text, Map, length, take, all,
  leb, ltb, ◌==◌, set, if◌then◌else◌, if_cases, arith,
}
use mcp_switchboard.Registry.{is_empty}

abbrev is_digit : ℕ → Bool
is_digit c = leb b'0' c && leb c b'9'

unfoldable pub name_char : ℕ → Bool
name_char c = leb b'a' c && leb c b'z' || leb b'A' c && leb c b'Z' || is_digit c || c == b'_'

abbrev clean_char : ℕ → ℕ
clean_char c = if name_char c then c else b'_'

unfoldable pub clean_chars : Text → Text
unfolding name_char
clean_chars [] = []
clean_chars (c ∷ cs) = clean_char c ∷ clean_chars cs

abbrev guarded : Text → Text
guarded [] = []
guarded (c ∷ cs) = if is_digit c then b'_' ∷ c ∷ cs else c ∷ cs

unfoldable pub clean_name : Text → Text
unfolding clean_chars
clean_name name = guarded (clean_chars name)

abbrev pub max_label_value : ℕ
max_label_value = 128

abbrev pub clean_value : Text → Text
clean_value value = if ltb max_label_value (length value) then take max_label_value value else value

-- The labels in whichever order the map is ranged over.
unfoldable pub clean_labels : Map Text → Map Text
unfolding clean_name set
clean_labels [] = []
clean_labels ((k, v) ∷ labels) =
    let rest = clean_labels labels in
    if is_empty (clean_name k) then rest else set (clean_name k) (clean_value v) rest

-- [a-zA-Z_][a-zA-Z0-9_]*
abbrev pub is_label_name : Text → Bool
is_label_name [] = false
is_label_name (c ∷ cs) = not (is_digit c) && all name_char (c ∷ cs)

name_char-clean_char : (c : ℕ) → name_char (clean_char c) ≡ true
unfolding name_char
name_char-clean_char c =
    if_cases (λ x. name_char x ≡ true) (name_char c) _ _ (λ h. h) (λ h. ground arith)

all-clean_chars : (s : Text) → all name_char (clean_chars s) ≡ true
unfolding clean_chars
all-clean_chars [] = refl
all-clean_chars (c ∷ cs) = ground (arith, name_char-clean_char c, all-clean_chars cs)

guarded_lem : (s : Text) → all name_char s ≡ true → (is_label_name (guarded s) || is_empty s) ≡ true
unfolding name_char
guarded_lem [] h = refl
guarded_lem (c ∷ cs) h =
    if_cases (λ x. (is_label_name x || false) ≡ true) (is_digit c) _ _ (λ d. ground arith)
      (λ d. ground arith)

is_empty-clean_chars : (s : Text) → is_empty (clean_chars s) ≡ is_empty s
unfolding clean_chars
is_empty-clean_chars [] = refl
is_empty-clean_chars (c ∷ cs) = refl

clean_chars-id : (s : Text) → all name_char s ≡ true → clean_chars s ≡ s
unfolding clean_chars
clean_chars-id [] h = refl
clean_chars-id (c ∷ cs) h =
    if_cases (λ x. x ∷ clean_chars cs ≡ c ∷ cs) (name_char c) _ _
      (λ e. ap (λ t. c ∷ t) (clean_chars-id cs (ground arith))) (λ e. absurd (ground arith))

guarded-id : (s : Text) → is_label_name s ≡ true → guarded s ≡ s
guarded-id [] h = refl
guarded-id (c ∷ cs) h =
    if_cases (λ x. x ≡ c ∷ cs) (is_digit c) _ _ (λ d. absurd (ground arith)) (λ d. refl)

clean_name-id : (name : Text) → is_label_name name ≡ true → clean_name name ≡ name
unfolding clean_name
clean_name-id [] h = refl
clean_name-id (c ∷ cs) h =
    ap guarded (clean_chars-id (c ∷ cs) (ground arith)) ∙ guarded-id (c ∷ cs) h

clean_name-proper : (name : Text) → (is_label_name (clean_name name) || is_empty name) ≡ true
unfolding clean_name
clean_name-proper name =
    ground (arith, guarded_lem (clean_chars name) (all-clean_chars name), is_empty-clean_chars name)

clean_name-twice : (name : Text) → clean_name (clean_name name) ≡ clean_name name
unfolding clean_name
clean_name-twice [] = refl
clean_name-twice (c ∷ cs) =
    clean_name-id (clean_name (c ∷ cs)) (ground (arith, clean_name-proper (c ∷ cs)))

-- A cleaned name is one that Loki takes, or is empty as the name itself is; and cleaning it once more
-- changes nothing.
pub clean_name_lem :
    (name : Text)
    → ((is_label_name (clean_name name) || is_empty name) ≡ true)
      × (clean_name (clean_name name) ≡ clean_name name)
clean_name_lem name = (clean_name-proper name, clean_name-twice name)
