-- ===== src/Witnesses/Paths.antt =====
-- The paths of the scopes, and a listing.
use mcp_switchboard.Prelude.{
  ◌≡◌, refl, ap, subst, inl, inr, In, true, [], ◌∷◌, none, some, bytes, text_eq,
}
use mcp_switchboard.Registry.{Connection, ServerChannel, ToolInfo, iter_servers, compose_tool_name}
use mcp_switchboard.Witnesses.Tree.{read_file, files, laptop, tree}
use mcp_switchboard.Endpoint.{
  Listed, all_target, trim, split, parse_target, list_tools, resolve_call,
}
use mcp_switchboard.Endpoint.Paths.{
  Place, project_server, target_of, segments_of, render, plain_place, parse_target-render,
  parse_target_sound,
}
use mcp_switchboard.Endpoint.Listing.{IsOffered, Serves, list_tools-resolve_call}

abbrev place : Place
place = project_server (bytes "laptop") (bytes "web") (bytes "files")

parsed : parse_target (bytes "/mcp/host/laptop/project/web/server/files/") ≡ some (target_of place)
unfolding parse_target text_eq
parsed = refl

refused : parse_target (bytes "/mcp/host/laptop/server/files/project/web") ≡ none
unfolding parse_target text_eq
refused = refl

parse_target-render_example : parse_target (render (segments_of place)) ≡ some (target_of place)
parse_target-render_example = parse_target-render place refl

parse_target_sound_example :
    (q : Place) × (target_of place ≡ target_of q)
    × (plain_place q ≡ true)
    × (split (trim (bytes "/mcp/host/laptop/project/web/server/files/")) ≡ segments_of q)
parse_target_sound_example =
    parse_target_sound (bytes "/mcp/host/laptop/project/web/server/files/") (target_of place) parsed

abbrev listed : Listed
listed = record {
  exposed = bytes "laptop__files__read_file";
  connection = laptop;
  channel = files;
  tool = read_file;
}

one_tool : list_tools all_target tree ≡ listed ∷ []
unfolding list_tools compose_tool_name text_eq
one_tool = refl

sole_entry : {A : Type 0} (x y : A) → In x (y ∷ []) → x ≡ y
sole_entry x y (inl e) = e
sole_entry x y (inr nowhere) = absurd nowhere

only_one :
    (c : Connection) (ch : ServerChannel) (u : ToolInfo)
    → Serves all_target tree (bytes "laptop__files__read_file") c ch u
    → (c ≡ laptop) × (ch ≡ files) × (u ≡ read_file)
unfolding iter_servers
only_one c ch u (i, fits, held, named) =
    let e = sole_entry (c, ch) (laptop, files) i in
    let same : ch ≡ files = ap (λ p. p.1) e in
    let found : In u files.tools = subst (λ x. In u x.tools) same held in
    (ap (λ p. p.0) e, same, sole_entry u read_file found)

list_tools-resolve_call_example :
    (resolve_call all_target (bytes "laptop__files__read_file") tree
      ≡ some (laptop, files, bytes "read_file"))
    × IsOffered all_target (iter_servers tree) listed
list_tools-resolve_call_example =
    list_tools-resolve_call all_target tree listed (rw one_tool (inl refl)) only_one
