-- ===== src/Witnesses/Permissions.antt =====
-- Grants at work: a parent with a wildcard allow and a deny, and a child that asks for everything.
use mcp_switchboard.Prelude.{
  ◌≡◌, refl, Bool, true, false, ◌&&◌, List, [], ◌∷◌, some, Text, text_eq, bytes,
}
use mcp_switchboard.Ref.{ServerRef, wildcard, matches, field_matches}
use mcp_switchboard.Grants.{
  Rule, Grant, agent_rules, resolve, more_specific, intersect, derive_child_grants, field_intersect,
}
use mcp_switchboard.Grants.Resolution.{permits, resolve-permits}
use mcp_switchboard.Grants.Match.{matches?, intersect_lem}
use mcp_switchboard.Grants.Derivation.{resolve-derive_child_grants}

abbrev laptop : Text
laptop = bytes "laptop"

abbrev files : ServerRef
files = record { label = laptop; project = []; server = bytes "files" }

abbrev shell : ServerRef
shell = record { label = laptop; project = []; server = bytes "shell" }

abbrev anything : ServerRef
anything = record { label = wildcard; project = wildcard; server = wildcard }

abbrev grant : ServerRef → Bool → Grant
grant p b = record {
  label = p.label;
  project = p.project;
  server = p.server;
  allowed = b;
  source = bytes "explicit";
}

-- Everything but the shell.
abbrev parent : List Grant
parent = grant anything true ∷ grant shell false ∷ []

abbrev request : List Grant
request = grant anything true ∷ []

child_may_use_files :
    (resolve (agent_rules (derive_child_grants parent (some request))) files).0 ≡ true
unfolding derive_child_grants resolve matches field_matches text_eq intersect field_intersect
child_may_use_files = refl

child_may_not_use_shell :
    (resolve (agent_rules (derive_child_grants parent (some request))) shell).0 ≡ false
unfolding derive_child_grants resolve matches field_matches text_eq intersect field_intersect
child_may_not_use_shell = refl

resolve-derive_child_grants_example :
    (resolve (agent_rules (derive_child_grants parent (some request))) shell).0
    ≡ ((resolve (agent_rules parent) shell).0 && (resolve (agent_rules request) shell).0)
resolve-derive_child_grants_example = resolve-derive_child_grants parent request shell

resolve-permits_example :
    (resolve (agent_rules parent) shell).0 ≡ permits (agent_rules parent) shell
resolve-permits_example = resolve-permits (agent_rules parent) shell

abbrev two_allows : List Rule
two_allows = record { ref = anything; allowed = true } ∷ record { ref = files; allowed = true } ∷ []

two_allows-resolve :
    resolve two_allows files ≡ (true, some (record { ref = files; allowed = true }))
unfolding resolve matches field_matches text_eq more_specific
two_allows-resolve = refl

intersect_lem_example :
    matches? (intersect anything shell) files ≡ (matches anything files && matches shell files)
intersect_lem_example = intersect_lem anything shell files
