-- ===== src/Registry/Labels.antt =====
-- A label names one connection: AddOrReplaceConnection of hub/internal/registry/registry.go.
use mcp_switchboard.Prelude.{
  ◌≡◌, refl, Bool, true, false, not, ◌&&◌, ◌||◌, List, [], ◌∷◌, Option, none, some, arith, Text,
  text_eq, text_eq_iff, get, set, delete, get-set, if◌then◌else◌,
}
use mcp_switchboard.Registry.{
  Registry, Connection, add_or_replace_connection, remove_connection, drop_label,
}

-- No entry has the id or the label.
abbrev clear_of : Text → Text → Registry → Bool
clear_of k l [] = true
clear_of k l ((j, c) ∷ r) = not (text_eq j k) && not (text_eq c.label l) && clear_of k l r

-- The ids are distinct, as a map's keys are, and so are the labels.
abbrev pub distinct : Registry → Bool
distinct [] = true
distinct ((k, c) ∷ r) = clear_of k c.label r && distinct r

-- Only the id may hold the label.
abbrev only : Text → Text → Registry → Bool
only id l [] = true
only id l ((j, c) ∷ r) = (text_eq j id || not (text_eq c.label l)) && only id l r

clear_of-drop_label :
    (k l m id : Text) (r : Registry)
    → clear_of k l r ≡ true
    → clear_of k l (drop_label m id r) ≡ true
unfolding drop_label
clear_of-drop_label k l m id [] h = refl
clear_of-drop_label k l m id ((j, c) ∷ r) h = ground (arith, clear_of-drop_label k l m id r)

distinct-drop_label :
    (m id : Text) (r : Registry) → distinct r ≡ true → distinct (drop_label m id r) ≡ true
unfolding drop_label
distinct-drop_label m id [] h = refl
distinct-drop_label m id ((j, c) ∷ r) h =
    ground (arith, distinct-drop_label m id r, clear_of-drop_label j c.label m id r)

only_of_clear : (k id l : Text) (r : Registry) → clear_of k l r ≡ true → only id l r ≡ true
only_of_clear k id l [] h = refl
only_of_clear k id l ((j, c) ∷ r) h = ground (arith, only_of_clear k id l r)

only-drop_label :
    (l id : Text) (r : Registry) → distinct r ≡ true → only id l (drop_label l id r) ≡ true
unfolding drop_label
only-drop_label l id [] h = refl
only-drop_label l id ((j, c) ∷ r) h =
    ground (arith, only-drop_label l id r, only_of_clear j id c.label r, text_eq_iff c.label l)

clear_of-set :
    (k l id : Text) (c : Connection) (r : Registry)
    → text_eq id k ≡ false
    → text_eq c.label l ≡ false
    → clear_of k l r ≡ true
    → clear_of k l (set id c r) ≡ true
unfolding set
clear_of-set k l id c [] e f h = ground arith
clear_of-set k l id c ((j, d) ∷ r) e f h = ground (arith, clear_of-set k l id c r)

clear_of-only :
    (id k l : Text) (r : Registry)
    → only id l r ≡ true
    → clear_of id k r ≡ true
    → clear_of id l r ≡ true
clear_of-only id k l [] h e = refl
clear_of-only id k l ((j, c) ∷ r) h e = ground (arith, clear_of-only id k l r)

distinct-set :
    (id : Text) (c : Connection) (r : Registry)
    → only id c.label r ≡ true
    → distinct r ≡ true
    → distinct (set id c r) ≡ true
unfolding set
distinct-set id c [] h d = refl
distinct-set id c ((j, e) ∷ r) h d = ground (
  arith,
  distinct-set id c r,
  text_eq_iff j id,
  text_eq_iff id j,
  text_eq_iff c.label e.label,
  text_eq_iff e.label c.label,
  clear_of-only id e.label c.label r,
  clear_of-set j e.label id c r,
)

-- A hello keeps the ids and the labels of the connections distinct.
add_or_replace_connection-distinct :
    (c : Connection) (r : Registry)
    → distinct r ≡ true
    → distinct (add_or_replace_connection c r).0 ≡ true
unfolding add_or_replace_connection
add_or_replace_connection-distinct c r h =
    distinct-set c.id c (drop_label c.label c.id r) (only-drop_label c.label c.id r h)
      (distinct-drop_label c.label c.id r h)

clear_of-delete :
    (k l id : Text) (r : Registry) → clear_of k l r ≡ true → clear_of k l (delete id r) ≡ true
unfolding delete
clear_of-delete k l id [] h = refl
clear_of-delete k l id ((j, c) ∷ r) h = ground (arith, clear_of-delete k l id r)

distinct-delete : (id : Text) (r : Registry) → distinct r ≡ true → distinct (delete id r) ≡ true
unfolding delete
distinct-delete id [] h = refl
distinct-delete id ((j, c) ∷ r) h =
    ground (arith, distinct-delete id r, clear_of-delete j c.label id r)

-- What the tunnel does to the registry: a hello, and a connection that goes away.
pub data Change : Type 0 where
  hello : Connection → Change
  goodbye : Text → Change

unfoldable pub change : Change → Registry → Registry
change (hello c) r = (add_or_replace_connection c r).0
change (goodbye id) r = (remove_connection id r).0

unfoldable pub changes : List Change → Registry → Registry
unfolding change
changes [] r = r
changes (x ∷ xs) r = changes xs (change x r)

change-distinct : (x : Change) (r : Registry) → distinct r ≡ true → distinct (change x r) ≡ true
unfolding change remove_connection
change-distinct (hello c) r h = add_or_replace_connection-distinct c r h
change-distinct (goodbye id) r h = distinct-delete id r h

-- From a registry with distinct ids and labels on, whatever hellos and disconnects arrive, and in
-- whatever order, no two registered connections share an id or a label.
pub changes-distinct :
    (xs : List Change) (r : Registry) → distinct r ≡ true → distinct (changes xs r) ≡ true
unfolding changes
changes-distinct [] r h = h
changes-distinct (x ∷ xs) r h = changes-distinct xs (change x r) (change-distinct x r h)

-- A registered connection, unless it holds the label.
abbrev pub unless_label : Text → Option Connection → Option Connection
unless_label l none = none
unless_label l (some d) = if text_eq d.label l then none else some d

get_of_clear : (k l : Text) (r : Registry) → clear_of k l r ≡ true → get k r ≡ none
unfolding get
get_of_clear k l [] h = refl
get_of_clear k l ((j, c) ∷ r) h = ground (arith, get_of_clear k l r)

unless_label_of_clear :
    (k l j : Text) (r : Registry) → clear_of k l r ≡ true → unless_label l (get j r) ≡ get j r
unfolding get
unless_label_of_clear k l j [] h = refl
unless_label_of_clear k l j ((i, c) ∷ r) h = ground (arith, unless_label_of_clear k l j r)

get-drop_label :
    (l id j : Text) (r : Registry)
    → distinct r ≡ true
    → text_eq id j ≡ false
    → get j (drop_label l id r) ≡ unless_label l (get j r)
unfolding get drop_label
get-drop_label l id j [] h e = refl
get-drop_label l id j ((i, c) ∷ r) h e = ground (
  arith,
  get-drop_label l id j r,
  text_eq_iff i j,
  text_eq_iff i id,
  text_eq_iff id j,
  text_eq_iff c.label l,
  get_of_clear i c.label r,
  unless_label_of_clear i c.label j r,
)

-- Where ids and labels are distinct, a hello registers its connection under its id, drops the one
-- that held its label, and leaves each other connection as it was.
pub get-add_or_replace_connection :
    (c : Connection) (r : Registry) (j : Text)
    → distinct r ≡ true
    → get j (add_or_replace_connection c r).0
      ≡ (if text_eq c.id j then some c else unless_label c.label (get j r))
unfolding add_or_replace_connection
get-add_or_replace_connection c r j h =
    ground (arith, get-set c.id j c (drop_label c.label c.id r), get-drop_label c.label c.id j r)
