-- ===== src/Pending/Parsing.antt =====
-- parseQuestions of hub/internal/agents/questions.go: which questions may be put to the user. Of a
-- failure the case and the number of the question are kept; encoding/json is given by what it decodes.
use mcp_switchboard.Prelude.{
  ℕ, suc, ◌≡◌, refl, Bool, true, false, not, ◌&&◌, List, [], ◌∷◌, Option, none, some, ◌⊎◌, inl, inr,
  arith, Text, length, all, ltb, leb, ◌==◌, if◌then◌else◌, if_cases,
}
use mcp_switchboard.Registry.{is_empty}
use mcp_switchboard.Pending.{Question}

abbrev max_questions : ℕ
max_questions = 4

abbrev max_options : ℕ
max_options = 6

data Failure : Type 0 where
  not_questions too_many : Failure
  no_text too_many_options no_label : ℕ → Failure

abbrev prepend : {A : Type 0} → Failure ⊎ A → Failure ⊎ List A → Failure ⊎ List A
prepend (inl e) rest = inl e
prepend (inr x) (inl e) = inl e
prepend (inr x) (inr xs) = inr (x ∷ xs)

unfoldable parse_options : (Text → Text) → ℕ → List (Text × Text) → Failure ⊎ List (Text × Text)
parse_options trim i [] = inr []
parse_options trim i ((label, description) ∷ options) =
    let option =
      if is_empty (trim label) then inl (no_label i) else inr (trim label, trim description) in
    prepend option (parse_options trim i options)

abbrev with_options : (Text → Text) → Question → Failure ⊎ List (Text × Text) → Failure ⊎ Question
with_options trim q (inl e) = inl e
with_options trim q (inr options) =
    inr (record q { question = trim q.question; header = trim q.header; options = options })

-- The question of a number, from 1.
unfoldable parse_question : (Text → Text) → ℕ → Question → Failure ⊎ Question
unfolding parse_options
parse_question trim i q =
    if is_empty (trim q.question)
    then inl (no_text i)
    else if ltb max_options (length q.options)
    then inl (too_many_options i)
    else with_options trim q (parse_options trim i q.options)

unfoldable parse_from : (Text → Text) → ℕ → List Question → Failure ⊎ List Question
unfolding parse_question
parse_from trim i [] = inr []
parse_from trim i (q ∷ qs) = prepend (parse_question trim i q) (parse_from trim (suc i) qs)

-- The argument as decoded, if it could be.
unfoldable parse_questions : (Text → Text) → Option (List Question) → Failure ⊎ List Question
unfolding parse_from
parse_questions trim none = inl not_questions
parse_questions trim (some qs) =
    if length qs == 0
    then inl not_questions
    else if ltb max_questions (length qs)
    then inl too_many
    else parse_from trim 1 qs

-- What the user can sensibly be shown.
abbrev has_label : Text × Text → Bool
has_label (label, description) = not (is_empty label)

abbrev is_shown : Question → Bool
is_shown q =
    not (is_empty q.question) && leb (length q.options) max_options && all has_label q.options

-- A result that is a failure, or a list of a length of which all pass a test.
abbrev Passes : {A : Type 0} → (A → Bool) → ℕ → Failure ⊎ List A → Type 0
Passes p n (inl e) = Unit
Passes p n (inr xs) = (length xs ≡ n) × (all p xs ≡ true)

abbrev PassesOne : {A : Type 0} → (A → Bool) → Failure ⊎ A → Type 0
PassesOne p (inl e) = Unit
PassesOne p (inr x) = p x ≡ true

Passes-prepend :
    {A : Type 0} (p : A → Bool) (n : ℕ) (x : Failure ⊎ A) (rest : Failure ⊎ List A)
    → PassesOne p x
    → Passes p n rest
    → Passes p (suc n) (prepend x rest)
Passes-prepend p n (inl e) rest h k = tt
Passes-prepend p n (inr x) (inl e) h k = tt
Passes-prepend p n (inr x) (inr xs) h k = (ground arith, ground arith)

Passes-parse_options :
    (trim : Text → Text) (i : ℕ) (options : List (Text × Text))
    → Passes has_label (length options) (parse_options trim i options)
unfolding parse_options
Passes-parse_options trim i [] = (refl, refl)
Passes-parse_options trim i ((label, description) ∷ options) =
    Passes-prepend has_label (length options) _ _
      (if_cases (PassesOne has_label) (is_empty (trim label)) _ _ (λ e. tt) (λ e. ground arith))
      (Passes-parse_options trim i options)

PassesOne-with_options :
    (trim : Text → Text) (q : Question) (options : Failure ⊎ List (Text × Text))
    → is_empty (trim q.question) ≡ false
    → ltb max_options (length q.options) ≡ false
    → Passes has_label (length q.options) options
    → PassesOne is_shown (with_options trim q options)
PassesOne-with_options trim q (inl e) h k l = tt
PassesOne-with_options trim q (inr options) h k l = ground arith

PassesOne-parse_question :
    (trim : Text → Text) (i : ℕ) (q : Question) → PassesOne is_shown (parse_question trim i q)
unfolding parse_question
PassesOne-parse_question trim i q =
    if_cases (PassesOne is_shown) (is_empty (trim q.question)) _ _ (λ e. tt)
      (λ e.
        if_cases (PassesOne is_shown) (ltb max_options (length q.options)) _ _ (λ k. tt)
          (λ k. PassesOne-with_options trim q _ e k (Passes-parse_options trim i q.options)))

Passes-parse_from :
    (trim : Text → Text) (i : ℕ) (qs : List Question)
    → Passes is_shown (length qs) (parse_from trim i qs)
unfolding parse_from
Passes-parse_from trim i [] = (refl, refl)
Passes-parse_from trim i (q ∷ qs) =
    Passes-prepend is_shown (length qs) _ _ (PassesOne-parse_question trim i q)
      (Passes-parse_from trim (suc i) qs)

-- Questions that can be asked: one to four of them.
abbrev CanAsk : Failure ⊎ List Question → Type 0
CanAsk (inl e) = Unit
CanAsk (inr qs) = (leb 1 (length qs) && leb (length qs) max_questions && all is_shown qs) ≡ true

CanAsk-Passes :
    (n : ℕ) (r : Failure ⊎ List Question)
    → (n == 0) ≡ false
    → ltb max_questions n ≡ false
    → Passes is_shown n r
    → CanAsk r
CanAsk-Passes n (inl e) h k l = tt
CanAsk-Passes n (inr qs) h k l = ground arith

-- Whatever the model asks, parseQuestions fails or returns one to four questions, each with a text
-- and at most six options that all have a label.
CanAsk-parse_questions :
    (trim : Text → Text) (raw : Option (List Question)) → CanAsk (parse_questions trim raw)
unfolding parse_questions
CanAsk-parse_questions trim none = tt
CanAsk-parse_questions trim (some qs) =
    if_cases CanAsk (length qs == 0) _ _ (λ e. tt)
      (λ e.
        if_cases CanAsk (ltb max_questions (length qs)) _ _ (λ k. tt)
          (λ k. CanAsk-Passes (length qs) _ e k (Passes-parse_from trim 1 qs)))
