-- ===== src/Witnesses/Tree.antt =====
-- A registry with one machine that carries two servers.
use mcp_switchboard.Prelude.{◌≡◌, refl, true, [], ◌∷◌, none, some, Text, text_eq, bytes, get, set}
use mcp_switchboard.Registry.{
  Registry, Connection, ServerChannel, ToolInfo, Filter, scope_all, compose_tool_name, resolve_tool,
  add_or_replace_connection, filter_matches,
}
use mcp_switchboard.Registry.Labels.{distinct, changes, hello, goodbye, changes-distinct}
use mcp_switchboard.Registry.Naming.{compose_tool_name_ambiguous, validate_name}

abbrev pub read_file : ToolInfo
read_file = record {
  name = bytes "read_file";
  title = [];
  description = [];
  input_schema = [];
  annotations = none;
}

abbrev pub files : ServerChannel
files = record {
  name = bytes "files";
  connection_id = bytes "c1";
  label = bytes "laptop";
  project = [];
  state = bytes "running";
  err_msg = [];
  exit_code = none;
  tools = read_file ∷ [];
  session = some 1;
}

abbrev pub laptop : Connection
laptop = record { id = bytes "c1"; label = bytes "laptop"; servers = (bytes "files", files) ∷ [] }

abbrev laptop_again : Connection
laptop_again = record laptop { id = bytes "c2" }

abbrev pub tree : Registry
tree = (bytes "c1", laptop) ∷ []

abbrev anywhere : Filter
anywhere = record { label = none; project = none; server = none }

composed :
    compose_tool_name scope_all (bytes "laptop") [] (bytes "files") (bytes "read_file")
    ≡ some (bytes "laptop__files__read_file")
unfolding compose_tool_name
composed = refl

resolved :
    resolve_tool scope_all (bytes "laptop__files__read_file") anywhere tree
    ≡ some (laptop, files, bytes "read_file")
unfolding resolve_tool compose_tool_name filter_matches text_eq
resolved = refl

unknown : resolve_tool scope_all (bytes "laptop__files__nothing") anywhere tree ≡ none
unfolding resolve_tool compose_tool_name filter_matches text_eq
unknown = refl

changes-distinct_example :
    distinct (changes (hello laptop ∷ hello laptop_again ∷ goodbye (bytes "c2") ∷ []) []) ≡ true
changes-distinct_example =
    changes-distinct (hello laptop ∷ hello laptop_again ∷ goodbye (bytes "c2") ∷ []) [] refl

-- The connection that held the label is gone.
replaced : get (bytes "c1") (add_or_replace_connection laptop_again tree).0 ≡ none
unfolding add_or_replace_connection get set text_eq
replaced = refl

abbrev Same : Text → Text → Type 0
Same a b = a ≡ b

compose_tool_name_ambiguous_example :
    (validate_name (bytes "a") ≡ true)
    × (validate_name (bytes "b") ≡ true)
    × (compose_tool_name scope_all (bytes "a_") [] (bytes "b") (bytes "t")
        ≡ compose_tool_name scope_all (bytes "a") [] (bytes "_b") (bytes "t"))
unfolding validate_name
compose_tool_name_ambiguous_example =
    compose_tool_name_ambiguous (bytes "a") (bytes "b") (bytes "t") (λ e. cc) (λ e. cc) refl refl
