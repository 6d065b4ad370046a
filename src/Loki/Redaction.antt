-- ===== src/Loki/Redaction.antt =====
-- Credentials in the fields of an event: redact, looksSecret and the line of build in
-- hub/internal/loki/loki.go. The fields are scalars, objects and arrays as JSON decodes them; a composite of
-- another Go type, which redact leaves as it is and no caller passes, has no counterpart.
use mcp_switchboard.Prelude.{
  ℕ, zero, suc, ◌+◌, ◌≡◌, refl, Bool, true, false, not, ◌&&◌, ◌||◌, List, [], ◌∷◌, Text, bytes, ltb,
  text_eq, text_eq_refl, has_prefix, any, if◌then◌else◌, if_cases, if_ind, arith,
}
use mcp_switchboard.Json.{
  Value, null, boolean, number, text, array, object, Items, no_item, item, Fields, no_field, field,
}

abbrev pub redacted : Text
redacted = bytes "[redacted]"

abbrev secretish : List Text
secretish =
    bytes "token"
    ∷ bytes "secret"
    ∷ bytes "password"
    ∷ bytes "passwd"
    ∷ bytes "apikey"
    ∷ bytes "api_key"
    ∷ bytes "authorization"
    ∷ bytes "credential"
    ∷ bytes "private_key"
    ∷ []

-- strings.Contains, the part first.
unfoldable pub contains : Text → Text → Bool
unfolding has_prefix
contains needle [] = has_prefix needle []
contains needle (c ∷ s) = has_prefix needle (c ∷ s) || contains needle s

-- The first argument is strings.ToLower.
unfoldable pub looks_secret : (Text → Text) → Text → Bool
unfolding contains
looks_secret to_lower key = any (λ needle. contains needle (to_lower key)) secretish

-- `redact`, from a depth on. All that it looks at first of a value is its key and its depth.
unfoldable mutual
  pub redact : (Text → Text) → Text → ℕ → Value → Value
  redact lower key depth null = if looks_secret lower key then text redacted else null
  redact lower key depth (boolean b) = if looks_secret lower key then text redacted else boolean b
  redact lower key depth (number n) = if looks_secret lower key then text redacted else number n
  redact lower key depth (text s) = if looks_secret lower key then text redacted else text s
  redact lower key depth (array xs) =
      let inner = redact_items lower key (suc depth) xs in
      if looks_secret lower key
      then text redacted
      else if ltb 8 depth
      then array xs
      else array inner
  redact lower key depth (object fs) =
      let inner = redact_fields lower (suc depth) fs in
      if looks_secret lower key
      then text redacted
      else if ltb 8 depth
      then object fs
      else object inner

  pub redact_items : (Text → Text) → Text → ℕ → Items → Items
  redact_items lower key depth no_item = no_item
  redact_items lower key depth (item x xs) =
      item (redact lower key depth x) (redact_items lower key depth xs)

  pub redact_fields : (Text → Text) → ℕ → Fields → Fields
  redact_fields lower depth no_field = no_field
  redact_fields lower depth (field k v fs) =
      field k (redact lower k depth v) (redact_fields lower depth fs)

-- The fields of an event's line.
abbrev pub line_fields : (Text → Text) → Fields → Fields
line_fields lower fs = redact_fields lower 0 fs

abbrev is_redacted : Value → Bool
is_redacted (text s) = text_eq s redacted
is_redacted _ = false

-- No field under a key that looks like a credential's has a value other than the mark, as far as a number
-- of levels below this one.
unfoldable mutual
  pub hides : (Text → Bool) → ℕ → Text → Value → Bool
  hides secret n key null = not (secret key)
  hides secret n key (boolean b) = not (secret key)
  hides secret n key (number x) = not (secret key)
  hides secret n key (text s) = not (secret key) || text_eq s redacted
  hides secret zero key (array xs) = not (secret key)
  hides secret (suc n) key (array xs) = not (secret key) && hides_items secret n key xs
  hides secret zero key (object fs) = not (secret key)
  hides secret (suc n) key (object fs) = not (secret key) && hides_fields secret n fs

  pub hides_items : (Text → Bool) → ℕ → Text → Items → Bool
  hides_items secret n key no_item = true
  hides_items secret n key (item x xs) = hides secret n key x && hides_items secret n key xs

  pub hides_fields : (Text → Bool) → ℕ → Fields → Bool
  hides_fields secret n no_field = true
  hides_fields secret n (field k v fs) = hides secret n k v && hides_fields secret n fs

module _ (lower : Text → Text) where
  abbrev secret : Text → Bool
  secret = looks_secret lower

  marked : (n : ℕ) (key : Text) → hides secret n key (text redacted) ≡ true
  unfolding hides
  marked n key = ground (arith, text_eq_refl redacted)

  -- A value that `redact` replaces where its key is secret hides all where it does so otherwise.
  hides_cases :
      (n : ℕ) (key : Text) (v : Value)
      → (secret key ≡ false → hides secret n key v ≡ true)
      → hides secret n key (if secret key then text redacted else v) ≡ true
  hides_cases n key v h =
      if_cases (λ v'. hides secret n key v' ≡ true) (secret key) _ _ (λ s. marked n key) h

  mutual
    unfolding redact hides

    redact-hides :
        (n depth : ℕ) (key : Text) (v : Value)
        → n + depth ≡ 9
        → hides secret n key (redact lower key depth v) ≡ true
    redact-hides n depth key null h = hides_cases n key null (λ s. ground arith)
    redact-hides n depth key (boolean b) h = hides_cases n key (boolean b) (λ s. ground arith)
    redact-hides n depth key (number x) h = hides_cases n key (number x) (λ s. ground arith)
    redact-hides n depth key (text s) h = hides_cases n key (text s) (λ e. ground arith)
    redact-hides zero depth key (array xs) h = hides_cases zero key _ (λ s.
        if_ind (λ v. hides secret zero key v ≡ true) (ltb 8 depth) _ _ (ground arith)
          (ground arith))
    redact-hides (suc n) depth key (array xs) h = hides_cases (suc n) key _ (λ s.
        if_cases (λ v. hides secret (suc n) key v ≡ true) (ltb 8 depth) _ _
          (λ l. absurd (ground arith))
          (λ l. ground (arith, redact_items-hides n (suc depth) key xs (omega (arith, h)))))
    redact-hides zero depth key (object fs) h = hides_cases zero key _ (λ s.
        if_ind (λ v. hides secret zero key v ≡ true) (ltb 8 depth) _ _ (ground arith)
          (ground arith))
    redact-hides (suc n) depth key (object fs) h = hides_cases (suc n) key _ (λ s.
        if_cases (λ v. hides secret (suc n) key v ≡ true) (ltb 8 depth) _ _
          (λ l. absurd (ground arith))
          (λ l. ground (arith, redact_fields-hides n (suc depth) fs (omega (arith, h)))))

    redact_items-hides :
        (n depth : ℕ) (key : Text) (xs : Items)
        → n + depth ≡ 9
        → hides_items secret n key (redact_items lower key depth xs) ≡ true
    redact_items-hides n depth key no_item h = refl
    redact_items-hides n depth key (item x xs) h =
        ground (arith, redact-hides n depth key x h, redact_items-hides n depth key xs h)

    redact_fields-hides :
        (n depth : ℕ) (fs : Fields)
        → n + depth ≡ 9
        → hides_fields secret n (redact_fields lower depth fs) ≡ true
    redact_fields-hides n depth no_field h = refl
    redact_fields-hides n depth (field k v fs) h =
        ground (arith, redact-hides n depth k v h, redact_fields-hides n depth fs h)

-- In the line of an event, no field whose key looks like a credential's, at the top or up to nine levels
-- below, has a value other than the mark.
pub line_fields-hides :
    (lower : Text → Text) (fs : Fields)
    → hides_fields (looks_secret lower) 9 (line_fields lower fs) ≡ true
line_fields-hides lower fs = redact_fields-hides lower 9 0 fs (omega arith)
