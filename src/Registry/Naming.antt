-- ===== src/Registry/Naming.antt =====
-- How a composed tool name relates to its parts: ComposeToolName of
-- hub/internal/registry/registry.go and ValidateName of hub/internal/protocol/protocol.go.
use mcp_switchboard.Prelude.{
  ℕ, ◌≡◌, refl, ◌≤◌, ◌≢◌, ap, sym, ◌∙◌, Bool, true, false, not, ◌&&◌, ◌||◌, [], ◌∷◌, ◌++◌, some,
  arith, Text, length, ◌==◌,
}
use mcp_switchboard.Registry.{
  Scope, scope_all, compose_tool_name, valid_tool_name, name_parts, join, separator, max_tool_name,
  is_empty,
}

-- strings.Contains(name, "__")
unfoldable pub contains_separator : Text → Bool
contains_separator [] = false
contains_separator (c ∷ []) = false
contains_separator (c ∷ d ∷ cs) = (c == b'_' && d == b'_') || contains_separator (d ∷ cs)

-- protocol.go: no error, that is.
unfoldable pub validate_name : Text → Bool
unfolding contains_separator
validate_name name = not (is_empty name) && not (contains_separator name)

-- Every composed name is within the limit, and its tool's name is one that MCP allows.
pub compose_tool_name_bounds :
    (scope : Scope) (label project server tool name : Text)
    → compose_tool_name scope label project server tool ≡ some name
    → (length name ≤ max_tool_name)
      × (valid_tool_name tool ≡ true)
      × (name ≡ join separator (name_parts scope label project server tool))
unfolding compose_tool_name
compose_tool_name_bounds scope label project server tool name h = ground arith

-- No separator inside, and no underscore at the end: what a part needs to be read back.
abbrev pub clean : Text → Bool
clean [] = true
clean (c ∷ []) = not (c == b'_')
clean (c ∷ d ∷ cs) = not (c == b'_' && d == b'_') && clean (d ∷ cs)

clean_tail : (c : ℕ) (x : Text) → clean (c ∷ x) ≡ true → clean x ≡ true
clean_tail c [] h = refl
clean_tail c (d ∷ x) h = ground arith

-- The first separator of a text ends its first part.
split_first :
    (x y u v : Text)
    → clean x ≡ true
    → clean y ≡ true
    → x ++ (separator ++ u) ≡ y ++ (separator ++ v)
    → (x ≡ y) × (u ≡ v)
split_first [] [] u v hx hy e = (refl, ground arith)
split_first [] (c ∷ []) u v hx hy e = absurd (ground arith)
split_first [] (c ∷ d ∷ y) u v hx hy e = absurd (ground arith)
split_first (c ∷ []) [] u v hx hy e = absurd (ground arith)
split_first (c ∷ d ∷ x) [] u v hx hy e = absurd (ground arith)
split_first (c ∷ x) (d ∷ y) u v hx hy e =
    let (p, q) = split_first x y u v (clean_tail c x hx) (clean_tail d y hy) (ground arith) in
    (ground arith, q)

contains_separator-append : (x y : Text) → contains_separator (x ++ (separator ++ y)) ≡ true
unfolding contains_separator
contains_separator-append [] y = refl
contains_separator-append (c ∷ []) y = ground (arith, contains_separator-append [] y)
contains_separator-append (c ∷ d ∷ x) y = ground (arith, contains_separator-append (d ∷ x) y)

-- The parts of a fully qualified name, read back: a label, perhaps a project, a server and a tool.
abbrev qualified : Text → Text → Text → Text → Text
qualified label project server tool =
    join separator (name_parts scope_all label project server tool)

qualified_plain :
    (l s t l' s' t' : Text)
    → clean l ≡ true
    → clean s ≡ true
    → clean l' ≡ true
    → clean s' ≡ true
    → qualified l [] s t ≡ qualified l' [] s' t'
    → (l ≡ l') × (s ≡ s') × (t ≡ t')
unfolding join name_parts
qualified_plain l s t l' s' t' hl hs hl' hs' e =
    let (p, q) = split_first l l' _ _ hl hl' e in
    let (r, u) = split_first s s' t t' hs hs' q in (p, r, u)

-- A project cannot be taken for a server: the rest would be a tool that contains the separator.
qualified_mixed :
    (l s t l' p' s' t' : Text)
    → clean l ≡ true
    → clean s ≡ true
    → clean l' ≡ true
    → clean p' ≡ true
    → contains_separator t ≡ false
    → qualified l [] s t ≢ l' ++ (separator ++ (p' ++ (separator ++ (s' ++ (separator ++ t')))))
unfolding join name_parts
qualified_mixed l s t l' p' s' t' hl hs hl' hp' ht e =
    let (p, q) = split_first l l' _ _ hl hl' e in
    let (r, u) = split_first s p' t _ hs hp' q in ground (arith, contains_separator-append s' t')

qualified_injective :
    (l p s t l' p' s' t' : Text)
    → (clean l ≡ true) × (clean p ≡ true) × (clean s ≡ true) × (contains_separator t ≡ false)
    → (clean l' ≡ true) × (clean p' ≡ true) × (clean s' ≡ true) × (contains_separator t' ≡ false)
    → qualified l p s t ≡ qualified l' p' s' t'
    → (l ≡ l') × (p ≡ p') × (s ≡ s') × (t ≡ t')
unfolding join name_parts
qualified_injective l [] s t l' [] s' t' h h' e =
    let (a, b, c) = qualified_plain l s t l' s' t' h.0 h.2 h'.0 h'.2 e in (a, refl, b, c)
qualified_injective l [] s t l' (x ∷ p') s' t' h h' e =
    absurd (qualified_mixed l s t l' (x ∷ p') s' t' h.0 h.2 h'.0 h'.1 h.3 e)
qualified_injective l (x ∷ p) s t l' [] s' t' h h' e =
    absurd (qualified_mixed l' s' t' l (x ∷ p) s t h'.0 h'.2 h.0 h.1 h'.3 (sym e))
qualified_injective l (x ∷ p) s t l' (y ∷ p') s' t' h h' e =
    let (a, b) = split_first l l' _ _ h.0 h'.0 e in
    let (c, d) = split_first (x ∷ p) (y ∷ p') _ _ h.1 h'.1 b in
    let (f, g) = split_first s s' t t' h.2 h'.2 d in (a, c, f, g)

-- At the scope of /mcp a composed name tells the label, the project, the server and the tool, where
-- no label, project or server contains the separator or ends in an underscore, and no tool contains
-- the separator.
pub compose_tool_name_injective :
    (l p s t l' p' s' t' name : Text)
    → (clean l ≡ true) × (clean p ≡ true) × (clean s ≡ true) × (contains_separator t ≡ false)
    → (clean l' ≡ true) × (clean p' ≡ true) × (clean s' ≡ true) × (contains_separator t' ≡ false)
    → compose_tool_name scope_all l p s t ≡ some name
    → compose_tool_name scope_all l' p' s' t' ≡ some name
    → (l ≡ l') × (p ≡ p') × (s ≡ s') × (t ≡ t')
compose_tool_name_injective l p s t l' p' s' t' name h h' e e' =
    qualified_injective l p s t l' p' s' t' h h' (
      sym (compose_tool_name_bounds scope_all l p s t name e).2
      ∙ (compose_tool_name_bounds scope_all l' p' s' t' name e').2)

underscore-append :
    (x : Text) → x ≢ [] → validate_name (x ++ (b'_' ∷ [])) ≡ true → validate_name x ≡ true
unfolding validate_name
underscore-append [] n h = absurd (n refl)
underscore-append (c ∷ []) n h = ground arith
underscore-append (c ∷ d ∷ x) n h = ground (arith, underscore-append (d ∷ x) (λ e. cc))

shift_underscore :
    (x y : Text) → (x ++ (b'_' ∷ [])) ++ (separator ++ y) ≡ x ++ (separator ++ (b'_' ∷ y))
shift_underscore [] y = refl
shift_underscore (c ∷ x) y = ap (◌∷◌ c) (shift_underscore x y)

-- Names that ValidateName accepts can still compose alike: an underscore at the end of a label and
-- one at the start of a server are the same to a reader of the name, for every tool.
pub compose_tool_name_ambiguous :
    (x y tool : Text)
    → x ≢ []
    → y ≢ []
    → validate_name (x ++ (b'_' ∷ [])) ≡ true
    → validate_name (b'_' ∷ y) ≡ true
    → (validate_name x ≡ true)
      × (validate_name y ≡ true)
      × (compose_tool_name scope_all (x ++ (b'_' ∷ [])) [] y tool
          ≡ compose_tool_name scope_all x [] (b'_' ∷ y) tool)
unfolding compose_tool_name
compose_tool_name_ambiguous x y tool nx ny hx hy = (
  underscore-append x nx hx,
  valid_tail y ny hy,
  rw (shift_underscore x (y ++ (separator ++ tool))),
)
  where
    valid_tail : (y : Text) → y ≢ [] → validate_name (b'_' ∷ y) ≡ true → validate_name y ≡ true
    valid_tail [] n h = absurd (n refl)
    valid_tail (c ∷ y) n h = unfold validate_name in ground arith
