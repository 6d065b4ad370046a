-- ===== src/Tools/Names.antt =====
-- Which client an agent is pinned to, and which server a name that it uses leads to.
use mcp_switchboard.Prelude.{
  ◌≡◌, refl, ◌↔◌, inl, inr, Bool, true, false, not, ◌&&◌, ◌||◌, List, [], ◌∷◌, Option, none, some,
  arith, Text, text_eq, text_eq_iff, In, Bool-cases, any, all, if◌then◌else◌,
}
use mcp_switchboard.Ref.{wildcard}
use mcp_switchboard.Grants.{Grant}
use mcp_switchboard.Registry.{
  Registry, Connection, ServerChannel, ToolInfo, iter_servers, is_empty, resolve_in,
}
use mcp_switchboard.Registry.Lookup.{exposes}
use mcp_switchboard.Tools.{
  sole_from, sole_client, agent_scope, skipped, pinned, resolve_agent_entries, resolve_agent_tool,
}

abbrev pub concrete : Text → Bool
concrete label = not (text_eq label wildcard || is_empty label)

-- A grant that does not speak against this client.
abbrev pub names_only : Text → Grant → Bool
names_only label g = not g.allowed || text_eq g.label label

-- A server that the agent may name, one of its tools, and the name that is composed for that.
abbrev pub Reaches : Option Text → Text → Connection → ServerChannel → Text → Type 0
Reaches client name c ch tool =
    (skipped client c ≡ false)
    × ((t : ToolInfo) × In t ch.tools
        × (t.name ≡ tool)
        × (exposes (agent_scope (pinned client) ch.project ch.name) c ch t ≡ some name))

abbrev pub allows : Grant → Bool
allows g = g.allowed

sole_from_lem :
    (label : Text) (gs : List Grant)
    → concrete label ≡ true
    → sole_from label gs ≡ (if all (names_only label) gs then some label else none)
unfolding sole_from
sole_from_lem label [] h = ground arith
sole_from_lem label (g ∷ gs) h =
    ground (arith, sole_from_lem label gs h, text_eq_iff label g.label, text_eq_iff g.label label)

text_eq_sym : (a b : Text) → text_eq a b ≡ true → text_eq b a ≡ true
text_eq_sym a b h = ground (arith, text_eq_iff a b, text_eq_iff b a)

sole_from_nil :
    (gs : List Grant) (label : Text)
    → (sole_from [] gs ≡ some label)
      ↔ ((concrete label ≡ true) × (any allows gs ≡ true) × (all (names_only label) gs ≡ true))
unfolding sole_from
sole_from_nil [] label = (λ h. absurd (ground arith), λ h. absurd (ground arith))
sole_from_nil (g ∷ gs) label = elim (Bool-cases g.allowed) [
  | inr e ↦ (
    λ h. ground (arith, (sole_from_nil gs label).0),
    λ h. ground (arith, (sole_from_nil gs label).1),
  )
  | inl e ↦ elim (Bool-cases (concrete g.label)) [
    | inr f ↦ (λ h. absurd (ground arith), λ h. absurd (ground (arith, text_eq_iff g.label label)))
    | inl f ↦ (
      λ h. ground (arith, sole_from_lem g.label gs f, text_eq_iff g.label label),
      λ h. ground (arith, sole_from_lem g.label gs f, text_eq_iff g.label label),
    )
  ]
]

-- An agent is pinned to a client exactly where that client's name is concrete, some grant allows
-- something, and every grant that allows anything names that client.
pub sole_client_iff :
    (gs : List Grant) (label : Text)
    → (sole_client gs ≡ some label)
      ↔ ((concrete label ≡ true) × (any allows gs ≡ true) × (all (names_only label) gs ≡ true))
unfolding sole_client
sole_client_iff gs label = sole_from_nil gs label

-- That a tool of a channel has a name for an agent, and that some tool of the channel has, which the agent
-- does not skip.
abbrev is_named : Option Text → Text → Connection × ServerChannel → ToolInfo → Bool
is_named client name (c, ch) t =
    elim (exposes (agent_scope (pinned client) ch.project ch.name) c ch t) [
      | none ↦ false
      | some composed ↦ text_eq composed name
    ]

abbrev pub has_named : Option Text → Text → Connection × ServerChannel → Bool
has_named client name (c, ch) =
    not (skipped client c) && any (is_named client name (c, ch)) ch.tools

abbrev pub is_none : {A : Type 0} → Option A → Bool
is_none none = true
is_none (some _) = false

is_none-resolve_in :
    (client : Option Text) (name : Text) (c : Connection) (ch : ServerChannel) (ts : List ToolInfo)
    → is_none (resolve_in (agent_scope (pinned client) ch.project ch.name) name c ch ts)
      ≡ not (any (is_named client name (c, ch)) ts)
unfolding resolve_in
is_none-resolve_in client name c ch [] = refl
is_none-resolve_in client name c ch (t ∷ ts) =
    ground (arith, is_none-resolve_in client name c ch ts)

is_none-resolve_agent_entries :
    (client : Option Text) (name : Text) (es : List (Connection × ServerChannel))
    → is_none (resolve_agent_entries client name es) ≡ not (any (has_named client name) es)
unfolding resolve_agent_entries
is_none-resolve_agent_entries client name [] = refl
is_none-resolve_agent_entries client name ((c, ch) ∷ es) = ground (
  arith,
  is_none-resolve_agent_entries client name es,
  is_none-resolve_in client name c ch ch.tools,
)

-- A name resolves to nothing exactly where no tool has it, of any server that the agent does not skip.
pub is_none-resolve_agent_tool :
    (gs : List Grant) (name : Text) (r : Registry)
    → is_none (resolve_agent_tool gs name r)
      ≡ not (any (has_named (sole_client gs) name) (iter_servers r))
unfolding resolve_agent_tool
is_none-resolve_agent_tool gs name r =
    is_none-resolve_agent_entries (sole_client gs) name (iter_servers r)
