-- ===== src/Endpoint/Listing.antt =====
-- tools/list against tools/call: listTools and callTool of hub/internal/mcpserver/server.go.
use mcp_switchboard.Prelude.{
  ◌≡◌, refl, ◌≢◌, inl, inr, Bool, true, false, not, ◌&&◌, ◌||◌, List, [], ◌∷◌, ◌++◌, Option, none,
  some, arith, Text, if◌then◌else◌, Bool-cases, In, In-append, All-In, sym, ap, ◌∙◌, Option-cases,
  text_eq_iff, if_ind,
}
use mcp_switchboard.Registry.{
  Scope, Connection, ServerChannel, ToolInfo, Registry, iter_servers, ready, filter_matches,
}
use mcp_switchboard.Registry.Lookup.{exposes, resolve_tool_sound, resolve_tool_complete}
use mcp_switchboard.Endpoint.{
  Target, Listed, taken, list_channel, list_entries, list_tools, resolve_call, filter_of,
  target_matches,
}

-- The test of a listing is the test of a call.
pub target_matches-filter :
    (t : Target) (c : Connection) (ch : ServerChannel)
    → target_matches t c ch ≡ filter_matches (filter_of t) c ch
unfolding target_matches filter_matches filter_of
target_matches-filter t c ch = ground arith

-- What is known of a listed tool.
pub record IsOffered (t : Target) (es : List (Connection × ServerChannel)) (l : Listed)
    : Type 0 where
  pub connected : In (l.connection, l.channel) es
  pub in_scope : target_matches t l.connection l.channel ≡ true
  pub live : ready l.channel ≡ true
  pub held : In l.tool l.channel.tools
  pub named : exposes t.scope l.connection l.channel l.tool ≡ some l.exposed

abbrev Offered : Target → List (Connection × ServerChannel) → List Listed → Type 0
Offered t es ls = (l : Listed) → In l ls → IsOffered t es l

list_channel-Offered :
    (t : Target) (es : List (Connection × ServerChannel)) (c : Connection) (ch : ServerChannel)
    (ts : List ToolInfo) (acc : List Listed)
    → In (c, ch) es
    → target_matches t c ch ≡ true
    → ready ch ≡ true
    → ((u : ToolInfo) → In u ts → In u ch.tools)
    → Offered t es acc
    → Offered t es (list_channel t.scope c ch ts acc)
unfolding list_channel
list_channel-Offered t es c ch [] acc i m r sub v = v
list_channel-Offered t es c ch (u ∷ ts) acc i m r sub v =
    list_channel-Offered t es c ch ts _ i m r (λ w j. sub w (inr j))
      (grown (exposes t.scope c ch u) refl)
  where
    added :
        (name : Text)
        → exposes t.scope c ch u ≡ some name
        → Offered t es
            (acc ++ (record { exposed = name; connection = c; channel = ch; tool = u } ∷ []))
    added name e l j = elim (In-append l acc _ j) [
      | inl old ↦ v l old
      | inr (inl new) ↦
          rw new
            (record { connected = i; in_scope = m; live = r; held = sub u (inl refl); named = e })
      | inr (inr nowhere) ↦ absurd nowhere
    ]

    grown :
        (o : Option Text)
        → exposes t.scope c ch u ≡ o
        → Offered t es (elim o [
          | none ↦ acc
          | some exposed ↦
              if taken exposed acc
              then acc
              else acc
                ++ (record { exposed = exposed; connection = c; channel = ch; tool = u } ∷ [])
        ])
    grown none e = v
    grown (some name) e = if_ind (Offered t es) (taken name acc) _ _ v (added name e)

list_entries-Offered :
    (t : Target) (es fs : List (Connection × ServerChannel)) (acc : List Listed)
    → ((e : Connection × ServerChannel) → In e fs → In e es)
    → Offered t es acc
    → Offered t es (list_entries t fs acc)
unfolding list_entries
list_entries-Offered t es [] acc sub v = v
list_entries-Offered t es ((c, ch) ∷ fs) acc sub v =
    list_entries-Offered t es fs _ (λ e j. sub e (inr j))
      (grown (target_matches t c ch) (ready ch) refl refl)
  where
    grown :
        (m r : Bool)
        → target_matches t c ch ≡ m
        → ready ch ≡ r
        → Offered t es (if m && r then list_channel t.scope c ch ch.tools acc else acc)
    grown true true e f =
        list_channel-Offered t es c ch ch.tools acc (sub (c, ch) (inl refl)) e f (λ u j. j) v
    grown true false e f = v
    grown false r e f = v

-- Everything listed at a scope is a tool of a connected server that is ready and in the scope, under
-- the name that the scope composes for it.
pub list_tools-IsOffered :
    (t : Target) (r : Registry) (l : Listed)
    → In l (list_tools t r)
    → IsOffered t (iter_servers r) l
unfolding list_tools
list_tools-IsOffered t r =
    list_entries-Offered t (iter_servers r) (iter_servers r) [] (λ e j. j) (λ l j. absurd j)

-- A tool of a connected server in the scope, and the name that the scope composes for it.
abbrev pub Serves : Target → Registry → Text → Connection → ServerChannel → ToolInfo → Type 0
Serves t r name c ch u =
    In (c, ch) (iter_servers r)
    × (target_matches t c ch ≡ true)
    × In u ch.tools
    × (exposes t.scope c ch u ≡ some name)

-- What a name resolves to is a tool that bears that very name at the scope.
pub resolve_call_sound :
    (t : Target) (name : Text) (r : Registry) (c : Connection) (ch : ServerChannel) (tool : Text)
    → resolve_call t name r ≡ some (c, ch, tool)
    → (u : ToolInfo) × (u.name ≡ tool) × Serves t r name c ch u
unfolding resolve_call
resolve_call_sound t name r c ch tool h =
    let (i, (u, n, (fits, held, named))) =
      resolve_tool_sound t.scope name (filter_of t) r c ch tool h in
    (u, n, (i, target_matches-filter t c ch ∙ fits, held, named))

resolve_call_listed :
    (t : Target) (r : Registry) (l : Listed)
    → In l (list_tools t r)
    → resolve_call t l.exposed r ≢ none
unfolding resolve_call
resolve_call_listed t r l i missing =
    let o = list_tools-IsOffered t r l i in
    let nowhere = resolve_tool_complete t.scope l.exposed (filter_of t) r missing in
    let fits = sym (target_matches-filter t l.connection l.channel) ∙ o.in_scope in
    All-In _ l.tool l.channel.tools
      (All-In _ (l.connection, l.channel) (iter_servers r) nowhere o.connected fits) o.held o.named

-- Where no other tool bears its name at the scope, a listed tool is what a call of that name reaches: the
-- listed tool itself, on the server that it was listed for, which is connected, ready and in the scope.
pub list_tools-resolve_call :
    (t : Target) (r : Registry) (l : Listed)
    → In l (list_tools t r)
    → ((c : Connection) (ch : ServerChannel) (u : ToolInfo)
        → Serves t r l.exposed c ch u
        → (c ≡ l.connection) × (ch ≡ l.channel) × (u ≡ l.tool))
    → (resolve_call t l.exposed r ≡ some (l.connection, l.channel, l.tool.name))
      × IsOffered t (iter_servers r) l
list_tools-resolve_call t r l i sole = elim (Option-cases (resolve_call t l.exposed r)) [
  | inl e ↦ absurd (resolve_call_listed t r l i e)
  | inr ((c, ch, tool), e) ↦
      let (u, n, s) = resolve_call_sound t l.exposed r c ch tool e in
      let (same_c, same_ch, same_u) = sole c ch u s in
      let name : tool ≡ l.tool.name = sym n ∙ ap (λ (x : ToolInfo). x.name) same_u in
      (e ∙ rw (same_c, same_ch, name) refl, list_tools-IsOffered t r l i)
]

-- No name stands twice.
abbrev pub all_distinct : List Listed → Bool
all_distinct [] = true
all_distinct (l ∷ ls) = not (taken l.exposed ls) && all_distinct ls

taken-append :
    (name : Text) (xs ys : List Listed) → taken name (xs ++ ys) ≡ (taken name xs || taken name ys)
unfolding taken
taken-append name [] ys = refl
taken-append name (x ∷ xs) ys = ground (arith, taken-append name xs ys)

all_distinct-append :
    (xs : List Listed) (l : Listed)
    → all_distinct xs ≡ true
    → taken l.exposed xs ≡ false
    → all_distinct (xs ++ (l ∷ [])) ≡ true
unfolding taken
all_distinct-append [] l h e = refl
all_distinct-append (x ∷ xs) l h e = ground (
  arith,
  all_distinct-append xs l,
  taken-append x.exposed xs (l ∷ []),
  text_eq_iff x.exposed l.exposed,
  text_eq_iff l.exposed x.exposed,
)

list_channel-distinct :
    (scope : Scope) (c : Connection) (ch : ServerChannel) (ts : List ToolInfo) (acc : List Listed)
    → all_distinct acc ≡ true
    → all_distinct (list_channel scope c ch ts acc) ≡ true
unfolding list_channel
list_channel-distinct scope c ch [] acc h = h
list_channel-distinct scope c ch (u ∷ ts) acc h =
    list_channel-distinct scope c ch ts _ (grown (exposes scope c ch u))
  where
    grown :
        (o : Option Text)
        → all_distinct (elim o [
          | none ↦ acc
          | some exposed ↦
              if taken exposed acc
              then acc
              else acc
                ++ (record { exposed = exposed; connection = c; channel = ch; tool = u } ∷ [])
        ])
          ≡ true
    grown none = h
    grown (some name) =
        let l : Listed = record { exposed = name; connection = c; channel = ch; tool = u } in
        elim (Bool-cases (taken name acc)) [
          | inl old ↦ rw old h
          | inr new ↦ rw new (all_distinct-append acc l h new)
        ]

list_entries-distinct :
    (t : Target) (es : List (Connection × ServerChannel)) (acc : List Listed)
    → all_distinct acc ≡ true
    → all_distinct (list_entries t es acc) ≡ true
unfolding list_entries
list_entries-distinct t [] acc h = h
list_entries-distinct t ((c, ch) ∷ es) acc h = list_entries-distinct t es _ (
    if_ind (λ ls. all_distinct ls ≡ true) (target_matches t c ch && ready ch) _ _
      (list_channel-distinct t.scope c ch ch.tools acc h) h)

-- No two listed tools share an exposed name.
pub list_tools-distinct : (t : Target) (r : Registry) → all_distinct (list_tools t r) ≡ true
unfolding list_tools
list_tools-distinct t r = list_entries-distinct t (iter_servers r) [] refl
