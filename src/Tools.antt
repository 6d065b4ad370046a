-- ===== src/Tools.antt =====
-- The tools that an agent sees: hub/internal/agents/naming.go and toolallow.go.
pub mod Names
pub mod Allow
use mcp_switchboard.Prelude.{
  ◌≡◌, Bool, true, false, not, ◌&&◌, ◌||◌, List, [], ◌∷◌, ◌++◌, Option, none, some, Text, bytes,
  text_eq, any, if◌then◌else◌,
}
use mcp_switchboard.Ref.{wildcard}
use mcp_switchboard.Grants.{Grant, harness}
use mcp_switchboard.Registry.{
  Scope, scope_all, scope_server, scope_host, Connection, ServerChannel, Registry, is_empty,
  compose_tool_name, iter_servers, resolve_in,
}

-- The loop of `soleClient`, with the label found so far.
unfoldable pub sole_from : Text → List Grant → Option Text
sole_from label [] = if is_empty label then none else some label
sole_from label (g ∷ gs) =
    let same = sole_from label gs in
    let first = sole_from g.label gs in
    if not g.allowed
    then same
    else if text_eq g.label wildcard || is_empty g.label
    then none
    else if is_empty label
    then first
    else if not (text_eq label g.label)
    then none
    else same

unfoldable pub sole_client : List Grant → Option Text
unfolding sole_from
sole_client grants = sole_from [] grants

-- The scope whose names `agentToolName` composes.
abbrev pub agent_scope : Bool → Text → Text → Scope
agent_scope pinned project server =
    if not pinned
    then scope_all
    else if text_eq server harness && is_empty project
    then scope_server
    else scope_host

unfoldable pub agent_tool_name : Bool → Text → Text → Text → Text → Option Text
agent_tool_name pinned label project server tool =
    compose_tool_name (agent_scope pinned project server) label project server tool

-- An entry that a pinned agent skips.
abbrev pub skipped : Option Text → Connection → Bool
skipped none c = false
skipped (some client) c = not (text_eq c.label client)

abbrev pub pinned : Option Text → Bool
pinned none = false
pinned (some _) = true

-- The loops of `resolveAgentTool`. The inner one is that of `ResolveTool`, at the channel's scope.
unfoldable pub resolve_agent_entries :
    Option Text
    → Text
    → List (Connection × ServerChannel)
    → Option (Connection × ServerChannel × Text)
unfolding resolve_in
resolve_agent_entries client name [] = none
resolve_agent_entries client name ((c, ch) ∷ rest) =
    let later = resolve_agent_entries client name rest in
    if skipped client c
    then later
    else (elim (resolve_in (agent_scope (pinned client) ch.project ch.name) name c ch ch.tools) [
      | none ↦ later
      | some tool ↦ some (c, ch, tool)
    ])

unfoldable pub resolve_agent_tool :
    List Grant → Text → Registry → Option (Connection × ServerChannel × Text)
unfolding sole_client resolve_agent_entries iter_servers
resolve_agent_tool grants name r = resolve_agent_entries (sole_client grants) name (iter_servers r)

-- path.Match, with `none` for a pattern that is no glob, and strings.TrimSpace.
pub record Glob : Type 0 where
  pub glob_match : Text → Text → Option Bool
  pub trim_space : Text → Text

abbrev pub hits : Option Bool → Bool
hits none = false
hits (some b) = b

abbrev pub valid : Option Bool → Bool
valid none = false
valid (some _) = true

unfoldable pub tool_allowed : Glob → List Text → Text → Bool
tool_allowed glob [] upstream = true
tool_allowed glob (p ∷ ps) upstream = any (λ q. hits (glob.glob_match q upstream)) (p ∷ ps)

abbrev pub listed : Text → List Text → Bool
listed p ps = any (λ q. text_eq q p) ps

-- What the two functions below return: a list of patterns, the pattern that is no glob, or the pattern
-- that the parent does not allow.
pub data Allowlist : Type 0 where
  patterns : List Text → Allowlist
  invalid : Text → Allowlist
  denied : Text → Allowlist

-- The loop of `normalizeToolAllow`. `out` holds what `seen` knows.
unfoldable pub normalize_from : Glob → List Text → List Text → Allowlist
normalize_from glob out [] = patterns out
normalize_from glob out (p' ∷ ps) =
    let p = glob.trim_space p' in
    let skip = normalize_from glob out ps in
    let take = normalize_from glob (out ++ (p ∷ [])) ps in
    if is_empty p || listed p out
    then skip
    else if not (valid (glob.glob_match p []))
    then invalid p
    else take

unfoldable pub normalize_tool_allow : Glob → List Text → Allowlist
unfolding normalize_from
normalize_tool_allow glob ps = normalize_from glob [] ps

-- The first pattern that the parent does not allow, if there is one.
unfoldable pub check_within : Glob → List Text → List Text → List Text → Allowlist
unfolding tool_allowed
check_within glob parent req [] = patterns req
check_within glob parent req (p ∷ ps) =
    let rest = check_within glob parent req ps in
    if tool_allowed glob parent p then rest else denied p

abbrev pub narrowed : Glob → List Text → Allowlist → Allowlist
narrowed glob parent (patterns []) = patterns parent
narrowed glob [] (patterns (p ∷ ps)) = patterns (p ∷ ps)
narrowed glob (q ∷ qs) (patterns (p ∷ ps)) = check_within glob (q ∷ qs) (p ∷ ps) (p ∷ ps)
narrowed glob parent (invalid p) = invalid p
narrowed glob parent (denied p) = denied p

unfoldable pub derive_tool_allow : Glob → List Text → List Text → Allowlist
unfolding normalize_tool_allow check_within
derive_tool_allow glob parent requested = narrowed glob parent (normalize_tool_allow glob requested)
