-- ===== src/Witnesses/Names.antt =====
-- An agent that is pinned to one machine, and lists of tool patterns.
use mcp_switchboard.Prelude.{◌≡◌, refl, ◌⊎◌, true, List, [], ◌∷◌, some, Text, bytes, text_eq, all}
use mcp_switchboard.Ref.{wildcard}
use mcp_switchboard.Grants.{Grant, inherited}
use mcp_switchboard.Tools.{Glob, patterns, normalize_tool_allow, derive_tool_allow, tool_allowed}
use mcp_switchboard.Tools.Allow.{derive_tool_allow_lem}

abbrev grants : List Grant
grants =
    record {
      label = bytes "laptop";
      project = wildcard;
      server = wildcard;
      allowed = true;
      source = inherited;
    }
    ∷ []

-- A stand-in for path.Match whose patterns are literal.
abbrev glob : Glob
glob = record { glob_match = λ p t. some (text_eq p t); trim_space = λ t. t }

abbrev asked : List Text
asked = bytes "read" ∷ [] ∷ bytes "read" ∷ []

normalized : normalize_tool_allow glob asked ≡ patterns (bytes "read" ∷ [])
unfolding normalize_tool_allow text_eq
normalized = refl

derived :
    derive_tool_allow glob (bytes "write" ∷ bytes "read" ∷ []) asked ≡ patterns (bytes "read" ∷ [])
unfolding derive_tool_allow text_eq
derived = refl

derive_tool_allow_lem_example :
    ((bytes "read" ∷ []) ≡ (bytes "write" ∷ bytes "read" ∷ []))
    ⊎ (all (tool_allowed glob (bytes "write" ∷ bytes "read" ∷ [])) (bytes "read" ∷ []) ≡ true)
derive_tool_allow_lem_example =
    derive_tool_allow_lem glob (bytes "write" ∷ bytes "read" ∷ []) asked (bytes "read" ∷ []) derived
