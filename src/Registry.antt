-- ===== src/Registry.antt =====
-- The hub's live tree of connections and their servers, hub/internal/registry/registry.go.
pub mod Labels
pub mod Lookup
pub mod Naming
use mcp_switchboard.Prelude.{
  ℕ, ◌+◌, ◌≡◌, Bool, true, false, not, ◌&&◌, ◌||◌, List, [], ◌∷◌, ◌++◌, map, Option, none, some,
  Text, Map, get, set, delete, text_eq, if◌then◌else◌, bytes, length, ltb, leb, ◌==◌, all,
}
use mcp_switchboard.Ref.{ServerRef}

pub data Scope : Type 0 where
  scope_all scope_host scope_project scope_server scope_project_server scope_agent : Scope

abbrev pub max_tool_name : ℕ
max_tool_name = 128

-- protocol.NameSeparator
abbrev pub separator : Text
separator = bytes "__"

-- The class of toolNameRE, `[A-Za-z0-9._-]`.
unfoldable pub tool_char : ℕ → Bool
tool_char c =
    leb b'A' c && leb c b'Z'
    || leb b'a' c && leb c b'z'
    || leb b'0' c && leb c b'9'
    || c == b'.'
    || c == b'_'
    || c == b'-'

unfoldable pub valid_tool_name : Text → Bool
unfolding tool_char
valid_tool_name [] = false
valid_tool_name (c ∷ cs) = tool_char c && all tool_char cs

abbrev pub is_empty : Text → Bool
is_empty [] = true
is_empty (_ ∷ _) = false

abbrev pub optional : Text → List Text
optional project = if is_empty project then [] else project ∷ []

-- strings.Join
unfoldable pub join : Text → List Text → Text
join sep [] = []
join sep (x ∷ []) = x
join sep (x ∷ y ∷ ys) = x ++ (sep ++ join sep (y ∷ ys))

-- The parts of a name at a scope.
unfoldable pub name_parts : Scope → Text → Text → Text → Text → List Text
name_parts scope_server label project server tool = tool ∷ []
name_parts scope_project_server label project server tool = tool ∷ []
name_parts scope_project label project server tool = server ∷ tool ∷ []
name_parts scope_host label project server tool = optional project ++ (server ∷ tool ∷ [])
name_parts _ label project server tool = label ∷ (optional project ++ (server ∷ tool ∷ []))

unfoldable pub compose_tool_name : Scope → Text → Text → Text → Text → Option Text
unfolding valid_tool_name name_parts join
compose_tool_name scope label project server tool =
    let name = join separator (name_parts scope label project server tool) in
    if valid_tool_name tool
    then (if ltb max_tool_name (length name) then none else some name)
    else none

-- The upstream's hints that the approval gate reads; `none` is a nil pointer.
pub record ToolAnnotations : Type 0 where
  pub read_only : Bool
  pub destructive : Option Bool
  pub open_world : Option Bool
  pub irreversible : Bool
  pub reason : Text

-- The input schema is its JSON text, empty where there is none.
pub record ToolInfo : Type 0 where
  pub name : Text
  pub title : Text
  pub description : Text
  pub input_schema : Text
  pub annotations : Option ToolAnnotations

-- The session is a handle; `none` is nil.
pub record ServerChannel : Type 0 where
  pub name : Text
  pub connection_id : Text
  pub label : Text
  pub project : Text
  pub state : Text
  pub err_msg : Text
  pub exit_code : Option ℕ
  pub tools : List ToolInfo
  pub session : Option ℕ

abbrev pub ref_of : ServerChannel → ServerRef
ref_of c = record { label = c.label; project = c.project; server = c.name }

unfoldable pub ready : ServerChannel → Bool
ready c = elim c.session [ none ↦ false | some _ ↦ true ]

-- A connection: its identity and the servers that it carries, by name.
pub record Connection : Type 0 where
  pub id : Text
  pub label : Text
  pub servers : Map ServerChannel

unfoldable pub add_server : ServerChannel → Connection → Connection
add_server channel c = record c { servers = set channel.name channel c.servers }

unfoldable pub remove_server : Text → Connection → Connection × Option ServerChannel
remove_server name c = (record c { servers = delete name c.servers }, get name c.servers)

-- A nil field of a filter is `none`; an empty text is a value like any other.
pub record Filter : Type 0 where
  pub label : Option Text
  pub project : Option Text
  pub server : Option Text

abbrev pub accepts : Option Text → Text → Bool
accepts none value = true
accepts (some wanted) value = text_eq value wanted

unfoldable pub filter_matches : Filter → Connection → ServerChannel → Bool
filter_matches f connection channel =
    accepts f.label connection.label
    && accepts f.project channel.project
    && accepts f.server channel.name

-- The registry is the map of its connections, by connection id.
abbrev pub Registry : Type 0
Registry = Map Connection

unfoldable pub add_connection : Connection → Registry → Registry
add_connection c r = set c.id c r

-- The first entry that holds the label under another id: the loop of `AddOrReplaceConnection`.
unfoldable pub find_label : Text → Text → Registry → Option Connection
find_label label id [] = none
find_label label id ((k, c) ∷ r) =
    if text_eq c.label label && not (text_eq k id) then some c else find_label label id r

-- The registry without that entry.
unfoldable pub drop_label : Text → Text → Registry → Registry
drop_label label id [] = []
drop_label label id ((k, c) ∷ r) =
    if text_eq c.label label && not (text_eq k id) then r else (k, c) ∷ drop_label label id r

unfoldable pub add_or_replace_connection : Connection → Registry → Registry × Option Connection
unfolding find_label drop_label
add_or_replace_connection c r = (set c.id c (drop_label c.label c.id r), find_label c.label c.id r)

unfoldable pub remove_connection : Text → Registry → Registry × Option Connection
remove_connection id r = (delete id r, get id r)

unfoldable pub label_in_use : Text → Registry → Bool
label_in_use label [] = false
label_in_use label ((_, c) ∷ r) = text_eq c.label label || label_in_use label r

unfoldable pub entries_of : Connection → Map ServerChannel → List (Connection × ServerChannel)
entries_of c [] = []
entries_of c ((_, channel) ∷ rest) = (c, channel) ∷ entries_of c rest

unfoldable pub iter_servers : Registry → List (Connection × ServerChannel)
unfolding entries_of
iter_servers [] = []
iter_servers ((_, c) ∷ r) = entries_of c c.servers ++ iter_servers r

unfoldable pub find_server : Text → Text → Registry → Option ServerChannel
find_server id server r = elim (get id r) [ none ↦ none | some c ↦ get server c.servers ]

-- The first tool of a channel whose composed name is the one asked for: the inner loop.
unfoldable pub resolve_in : Scope → Text → Connection → ServerChannel → List ToolInfo → Option Text
resolve_in scope exposed c channel [] = none
resolve_in scope exposed c channel (t ∷ ts) =
    let rest = resolve_in scope exposed c channel ts in
    elim (compose_tool_name scope c.label channel.project channel.name t.name) [
      | none ↦ rest
      | some composed ↦ if text_eq composed exposed then some t.name else rest
    ]

unfoldable pub resolve_entries :
    Scope
    → Text
    → Filter
    → List (Connection × ServerChannel)
    → Option (Connection × ServerChannel × Text)
unfolding resolve_in
resolve_entries scope exposed f [] = none
resolve_entries scope exposed f ((c, channel) ∷ rest) =
    let later = resolve_entries scope exposed f rest in
    if filter_matches f c channel
    then (elim (resolve_in scope exposed c channel channel.tools) [
      | none ↦ later
      | some tool ↦ some (c, channel, tool)
    ])
    else later

unfoldable pub resolve_tool :
    Scope → Text → Filter → Registry → Option (Connection × ServerChannel × Text)
unfolding resolve_entries iter_servers
resolve_tool scope exposed f r = resolve_entries scope exposed f (iter_servers r)
