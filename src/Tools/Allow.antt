-- ===== src/Tools/Allow.antt =====
-- What a list of tool patterns holds, and what a child gets of its parent's.
use mcp_switchboard.Prelude.{
  ◌≡◌, refl, ◌⊎◌, inl, inr, Bool, true, false, not, ◌&&◌, ◌||◌, List, [], ◌∷◌, ◌++◌, arith, Text,
  text_eq, text_eq_iff, Bool-cases, all, all-append, any-append,
}
use mcp_switchboard.Registry.{is_empty}
use mcp_switchboard.Tools.{
  Glob, valid, tool_allowed, listed, Allowlist, patterns, invalid, denied, normalize_from,
  normalize_tool_allow, check_within, narrowed, derive_tool_allow,
}

-- Neither blank nor no glob.
abbrev pub proper : Glob → Text → Bool
proper glob p = not (is_empty p) && valid (glob.glob_match p [])

abbrev pub distinct : List Text → Bool
distinct [] = true
distinct (p ∷ ps) = not (listed p ps) && distinct ps

distinct-append_one :
    (p : Text) (ps : List Text)
    → distinct ps ≡ true
    → listed p ps ≡ false
    → distinct (ps ++ (p ∷ [])) ≡ true
distinct-append_one p [] d n = refl
distinct-append_one p (q ∷ ps) d n = ground (
  arith,
  distinct-append_one p ps,
  any-append (λ x. text_eq x q) ps (p ∷ []),
  text_eq_iff p q,
  text_eq_iff q p,
)

normalize_from_lem :
    (glob : Glob) (out ps out' : List Text)
    → normalize_from glob out ps ≡ patterns out'
    → all (proper glob) out ≡ true
    → distinct out ≡ true
    → (all (proper glob) out' ≡ true) × (distinct out' ≡ true)
unfolding normalize_from
normalize_from_lem glob out [] out' h a d = (ground arith, ground arith)
normalize_from_lem glob out (p' ∷ ps) out' h a d =
    let p = glob.trim_space p' in
    elim (Bool-cases (is_empty p || listed p out)) [
      | inl e ↦ normalize_from_lem glob out ps out' (ground arith) a d
      | inr e ↦ elim (Bool-cases (valid (glob.glob_match p []))) [
        | inr v ↦ absurd (ground arith)
        | inl v ↦
            normalize_from_lem glob (out ++ (p ∷ [])) ps out' (ground arith)
              (ground (arith, all-append (proper glob) out (p ∷ [])))
              (distinct-append_one p out d (ground arith))
      ]
    ]

-- The patterns that `normalizeToolAllow` returns are not blank, are valid globs, and do not repeat.
pub normalize_tool_allow_lem :
    (glob : Glob) (ps out : List Text)
    → normalize_tool_allow glob ps ≡ patterns out
    → (all (proper glob) out ≡ true) × (distinct out ≡ true)
unfolding normalize_tool_allow
normalize_tool_allow_lem glob ps out h = normalize_from_lem glob [] ps out h refl refl

check_within_lem :
    (glob : Glob) (parent req ps out : List Text)
    → check_within glob parent req ps ≡ patterns out
    → (out ≡ req) × (all (tool_allowed glob parent) ps ≡ true)
unfolding check_within
check_within_lem glob parent req [] out h = (ground arith, refl)
check_within_lem glob parent req (p ∷ ps) out h = elim (Bool-cases (tool_allowed glob parent p)) [
  | inl e ↦ let (q, a) = check_within_lem glob parent req ps out (ground arith) in (q, ground arith)
  | inr e ↦ absurd (ground arith)
]

all_without_parent : (glob : Glob) (ps : List Text) → all (tool_allowed glob []) ps ≡ true
unfolding tool_allowed
all_without_parent glob [] = refl
all_without_parent glob (p ∷ ps) = all_without_parent glob ps

narrowed_lem :
    (glob : Glob) (parent : List Text) (l : Allowlist) (out : List Text)
    → narrowed glob parent l ≡ patterns out
    → (out ≡ parent) ⊎ (all (tool_allowed glob parent) out ≡ true)
narrowed_lem glob parent (patterns []) out h = inl (ground arith)
narrowed_lem glob [] (patterns (p ∷ ps)) out h = inr (all_without_parent glob out)
narrowed_lem glob (q ∷ qs) (patterns (p ∷ ps)) out h =
    let (e, a) = check_within_lem glob (q ∷ qs) (p ∷ ps) (p ∷ ps) out h in inr (rw (e) a)
narrowed_lem glob parent (invalid p) out h = absurd (ground arith)
narrowed_lem glob parent (denied p) out h = absurd (ground arith)

-- A child's list is its parent's, or each of its patterns is one that the parent's list allows as the
-- name of a tool.
pub derive_tool_allow_lem :
    (glob : Glob) (parent requested out : List Text)
    → derive_tool_allow glob parent requested ≡ patterns out
    → (out ≡ parent) ⊎ (all (tool_allowed glob parent) out ≡ true)
unfolding derive_tool_allow
derive_tool_allow_lem glob parent requested out h =
    narrowed_lem glob parent (normalize_tool_allow glob requested) out h
