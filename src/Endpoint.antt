-- ===== src/Endpoint.antt =====
-- The consumer-facing scopes: paths and targets of hub/internal/mcpserver/scope.go, and the listing and
-- the resolution of server.go.
pub mod Paths
pub mod Listing
use mcp_switchboard.Prelude.{
  ℕ, ◌≡◌, Bool, true, false, not, ◌&&◌, ◌||◌, List, [], ◌∷◌, ◌++◌, Option, none, some, Text, bytes,
  text_eq, ◌==◌, if◌then◌else◌,
}
use mcp_switchboard.Ref.{ServerRef}
use mcp_switchboard.Registry.{
  Scope, scope_all, scope_host, scope_project, scope_server, scope_project_server, scope_agent,
  Connection, ServerChannel, ToolInfo, Filter, Registry, is_empty, compose_tool_name, iter_servers,
  ready, resolve_tool,
}

pub record Target : Type 0 where
  pub scope : Scope
  pub label : Text
  pub project : Text
  pub server : Text
  pub agent_id : Text

-- strings.Trim(path, "/")
trim_left : Text → Text
trim_left [] = []
trim_left (c ∷ cs) = if c == b'/' then trim_left cs else c ∷ cs

trim_right : Text → Text
trim_right [] = []
trim_right (c ∷ cs) =
    let rest = trim_right cs in if is_empty rest && c == b'/' then [] else c ∷ rest

unfoldable pub trim : Text → Text
unfolding trim_left trim_right
trim path = trim_right (trim_left path)

abbrev push_head : ℕ → List Text → List Text
push_head c [] = (c ∷ []) ∷ []
push_head c (x ∷ xs) = (c ∷ x) ∷ xs

-- strings.Split(path, "/")
unfoldable pub split : Text → List Text
split [] = [] ∷ []
split (c ∷ cs) = let rest = split cs in if c == b'/' then [] ∷ rest else push_head c rest

abbrev project_of : Text → Target → Target
project_of v t = record t { project = v; scope = scope_project }

abbrev server_of : Text → Target → Target
server_of v t = record t {
  server = v;
  scope = if is_empty t.project then scope_server else scope_project_server;
}

-- The loop over keyword and value pairs.
unfoldable pub parse_pairs : Target → List Text → Option Target
parse_pairs t [] = some t
parse_pairs t (k ∷ []) = none
parse_pairs t (k ∷ v ∷ rest) =
    let in_project = parse_pairs (project_of v t) rest in
    let in_server = parse_pairs (server_of v t) rest in
    if is_empty v
    then none
    else if text_eq k (bytes "project")
    then (if not (is_empty t.project) || not (is_empty t.server) then none else in_project)
    else if text_eq k (bytes "server")
    then (if not (is_empty t.server) then none else in_server)
    else none

abbrev bare : Scope → Target
bare s = record { scope = s; label = []; project = []; server = []; agent_id = [] }

abbrev pub all_target : Target
all_target = bare scope_all

abbrev pub agent_target : Text → Target
agent_target id = record {
  scope = scope_agent;
  label = [];
  project = [];
  server = [];
  agent_id = id;
}

abbrev pub host_target : Text → Target
host_target label = record {
  scope = scope_host;
  label = label;
  project = [];
  server = [];
  agent_id = [];
}

-- The segments after "mcp".
unfoldable pub parse_rest : List Text → Option Target
unfolding parse_pairs
parse_rest [] = some all_target
parse_rest (k ∷ []) = none
parse_rest (k ∷ v ∷ rest) =
    if text_eq k (bytes "agent")
    then (elim rest [ [] ↦ if is_empty v then none else some (agent_target v) | _ ∷ _ ↦ none ])
    else if text_eq k (bytes "host") && not (is_empty v)
    then parse_pairs (host_target v) rest
    else none

parse_segments : List Text → Option Target
unfolding parse_rest
parse_segments [] = none
parse_segments (s ∷ rest) = if text_eq s (bytes "mcp") then parse_rest rest else none

unfoldable pub parse_target : Text → Option Target
unfolding trim split parse_segments
parse_target path = parse_segments (split (trim path))

abbrev wanted : Text → Option Text
wanted field = if is_empty field then none else some field

unfoldable pub filter_of : Target → Filter
filter_of t = record {
  label = wanted t.label;
  project = wanted t.project;
  server = wanted t.server;
}

unfoldable pub target_matches : Target → Connection → ServerChannel → Bool
target_matches t connection channel =
    (is_empty t.label || text_eq connection.label t.label)
    && (is_empty t.project || text_eq channel.project t.project)
    && (is_empty t.server || text_eq channel.name t.server)

-- A tool as it is listed: its exposed name, and the server that it comes from.
pub record Listed : Type 0 where
  pub exposed : Text
  pub connection : Connection
  pub channel : ServerChannel
  pub tool : ToolInfo

unfoldable pub taken : Text → List Listed → Bool
taken name [] = false
taken name (l ∷ ls) = text_eq l.exposed name || taken name ls

-- The loop over the tools of one channel. `acc` holds the tools that are listed already, which is
-- also what `seen` knows.
unfoldable pub list_channel :
    Scope → Connection → ServerChannel → List ToolInfo → List Listed → List Listed
unfolding taken
list_channel scope c ch [] acc = acc
list_channel scope c ch (t ∷ ts) acc =
    list_channel scope c ch ts (elim (compose_tool_name scope c.label ch.project ch.name t.name) [
      | none ↦ acc
      | some exposed ↦
          if taken exposed acc
          then acc
          else acc ++ (record { exposed = exposed; connection = c; channel = ch; tool = t } ∷ [])
    ])

unfoldable pub list_entries : Target → List (Connection × ServerChannel) → List Listed → List Listed
unfolding list_channel target_matches ready
list_entries t [] acc = acc
list_entries t ((c, ch) ∷ rest) acc =
    list_entries t rest
      (if target_matches t c ch && ready ch then list_channel t.scope c ch ch.tools acc else acc)

-- What `listTools` lists, before it sorts by name.
unfoldable pub list_tools : Target → Registry → List Listed
unfolding list_entries iter_servers
list_tools t r = list_entries t (iter_servers r) []

-- What `callTool` resolves a name to, at a scope other than an agent's.
unfoldable pub resolve_call : Target → Text → Registry → Option (Connection × ServerChannel × Text)
unfolding filter_of resolve_tool
resolve_call t name r = resolve_tool t.scope name (filter_of t) r
