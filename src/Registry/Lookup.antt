-- ===== src/Registry/Lookup.antt =====
-- ResolveTool of hub/internal/registry/registry.go: what it finds, and that it misses nothing.
use mcp_switchboard.Prelude.{
  ◌≡◌, refl, ◌≢◌, inl, inr, true, List, [], ◌∷◌, Option, none, some, arith, Text, text_eq,
  text_eq_iff, In, All, Bool-cases, Option-cases,
}
use mcp_switchboard.Registry.{
  Registry, Scope, Connection, ServerChannel, ToolInfo, Filter, filter_matches, compose_tool_name,
  resolve_in, resolve_entries, resolve_tool, iter_servers,
}

-- The name that a tool of a channel is exposed under.
abbrev pub exposes : Scope → Connection → ServerChannel → ToolInfo → Option Text
exposes scope c channel t = compose_tool_name scope c.label channel.project channel.name t.name

pub resolve_in_sound :
    (scope : Scope) (exposed : Text) (c : Connection) (ch : ServerChannel) (ts : List ToolInfo)
    (tool : Text)
    → resolve_in scope exposed c ch ts ≡ some tool
    → (t : ToolInfo) × In t ts × (t.name ≡ tool) × (exposes scope c ch t ≡ some exposed)
unfolding resolve_in
resolve_in_sound scope exposed c ch [] tool h = absurd (ground arith)
resolve_in_sound scope exposed c ch (t ∷ ts) tool h = elim (Option-cases (exposes scope c ch t)) [
  | inl e ↦
      let (u, m, n, x) = resolve_in_sound scope exposed c ch ts tool (ground arith) in
      (u, inr m, n, x)
  | inr (composed, e) ↦ elim (Bool-cases (text_eq composed exposed)) [
    | inl same ↦ (t, inl refl, ground arith, ground (arith, text_eq_iff composed exposed))
    | inr other ↦
        let (u, m, n, x) = resolve_in_sound scope exposed c ch ts tool (ground arith) in
        (u, inr m, n, x)
  ]
]

resolve_in_complete :
    (scope : Scope) (exposed : Text) (c : Connection) (ch : ServerChannel) (ts : List ToolInfo)
    → resolve_in scope exposed c ch ts ≡ none
    → All (λ t. exposes scope c ch t ≢ some exposed) ts
unfolding resolve_in
resolve_in_complete scope exposed c ch [] h = tt
resolve_in_complete scope exposed c ch (t ∷ ts) h = (
  λ e. ground (arith, text_eq_iff exposed exposed),
  resolve_in_complete scope exposed c ch ts (ground arith),
)

-- A server of the tree, one of its tools, and the name that it is exposed under.
abbrev pub Offers : Scope → Text → Filter → Connection × ServerChannel → ToolInfo → Type 0
Offers scope exposed f (c, ch) t =
    (filter_matches f c ch ≡ true) × In t ch.tools × (exposes scope c ch t ≡ some exposed)

resolve_entries_sound :
    (scope : Scope) (exposed : Text) (f : Filter) (es : List (Connection × ServerChannel))
    (c : Connection) (ch : ServerChannel) (tool : Text)
    → resolve_entries scope exposed f es ≡ some (c, ch, tool)
    → In (c, ch) es × ((t : ToolInfo) × (t.name ≡ tool) × Offers scope exposed f (c, ch) t)
unfolding resolve_entries
resolve_entries_sound scope exposed f [] c ch tool h = absurd (ground arith)
resolve_entries_sound scope exposed f ((d, dh) ∷ es) c ch tool h =
    elim (Bool-cases (filter_matches f d dh)) [
      | inr miss ↦
          let (i, rest) = resolve_entries_sound scope exposed f es c ch tool (ground arith) in
          (inr i, rest)
      | inl fits ↦ elim (Option-cases (resolve_in scope exposed d dh dh.tools)) [
        | inl e ↦
            let (i, rest) = resolve_entries_sound scope exposed f es c ch tool (ground arith) in
            (inr i, rest)
        | inr (found, e) ↦ here found e fits (ground arith)
      ]
    ]
  where
    here :
        (found : Text)
        → resolve_in scope exposed d dh dh.tools ≡ some found
        → filter_matches f d dh ≡ true
        → (d ≡ c) × (dh ≡ ch) × (found ≡ tool)
        → In (c, ch) ((d, dh) ∷ es)
          × ((t : ToolInfo) × (t.name ≡ tool) × Offers scope exposed f (c, ch) t)
    here found e fits (p, q, r) =
        let (t, m, n, x) = resolve_in_sound scope exposed d dh dh.tools found e in
        rw (← p, ← q, ← r) (inl refl, (t, n, (fits, m, x)))

-- A name resolves only to a connected server that passes the filter and has a tool which composes to
-- that very name.
pub resolve_tool_sound :
    (scope : Scope) (exposed : Text) (f : Filter) (r : Registry) (c : Connection)
    (ch : ServerChannel) (tool : Text)
    → resolve_tool scope exposed f r ≡ some (c, ch, tool)
    → In (c, ch) (iter_servers r)
      × ((t : ToolInfo) × (t.name ≡ tool) × Offers scope exposed f (c, ch) t)
unfolding resolve_tool
resolve_tool_sound scope exposed f r = resolve_entries_sound scope exposed f (iter_servers r)

resolve_entries_complete :
    (scope : Scope) (exposed : Text) (f : Filter) (es : List (Connection × ServerChannel))
    → resolve_entries scope exposed f es ≡ none
    → All
        (λ e.
          filter_matches f e.0 e.1 ≡ true
          → All (λ t. exposes scope e.0 e.1 t ≢ some exposed) e.1.tools)
        es
unfolding resolve_entries
resolve_entries_complete scope exposed f [] h = tt
resolve_entries_complete scope exposed f ((d, dh) ∷ es) h = (
  λ fits. resolve_in_complete scope exposed d dh dh.tools (ground arith),
  resolve_entries_complete scope exposed f es (ground arith),
)

-- A name that does not resolve is composed by no tool of any connected server that passes the filter.
pub resolve_tool_complete :
    (scope : Scope) (exposed : Text) (f : Filter) (r : Registry)
    → resolve_tool scope exposed f r ≡ none
    → All
        (λ e.
          filter_matches f e.0 e.1 ≡ true
          → All (λ t. exposes scope e.0 e.1 t ≢ some exposed) e.1.tools)
        (iter_servers r)
unfolding resolve_tool
resolve_tool_complete scope exposed f r = resolve_entries_complete scope exposed f (iter_servers r)
