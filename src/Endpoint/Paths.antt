-- ===== src/Endpoint/Paths.antt =====
-- The paths of the scopes: parseTarget of hub/internal/mcpserver/scope.go against the forms that its
-- comment lists.
use mcp_switchboard.Prelude.{
  ◌≡◌, refl, inl, inr, Bool, true, false, not, ◌&&◌, List, [], ◌∷◌, ◌++◌, some, arith, Text, bytes,
  text_eq, text_eq_sound, ◌==◌, Bool-cases, ap, ◌∙◌, all,
}
use mcp_switchboard.Registry.{
  Scope, scope_all, scope_agent, scope_host, scope_project, scope_server, scope_project_server,
  is_empty,
}
use mcp_switchboard.Endpoint.{
  Target, trim, trim_left, trim_right, split, push_head, parse_pairs, parse_rest, parse_segments,
  parse_target,
}

-- What a path can name.
pub data Place : Type 0 where
  everything : Place
  agent : Text → Place
  host : Text → Place
  project : Text → Text → Place
  server : Text → Text → Place
  project_server : Text → Text → Text → Place

-- What the place asks for, each field written out: its scope, and of the label, the project, the server
-- and the agent those that it names.
abbrev fields : Scope → Text → Text → Text → Text → Target
fields sc l p s id = record { scope = sc; label = l; project = p; server = s; agent_id = id }

abbrev pub target_of : Place → Target
target_of everything = fields scope_all [] [] [] []
target_of (agent id) = fields scope_agent [] [] [] id
target_of (host l) = fields scope_host l [] [] []
target_of (project l p) = fields scope_project l p [] []
target_of (server l s) = fields scope_server l [] s []
target_of (project_server l p s) = fields scope_project_server l p s []

abbrev in_host : Text → List Text → List Text
in_host l rest = bytes "mcp" ∷ bytes "host" ∷ l ∷ rest

abbrev pub segments_of : Place → List Text
segments_of everything = bytes "mcp" ∷ []
segments_of (agent id) = bytes "mcp" ∷ bytes "agent" ∷ id ∷ []
segments_of (host l) = in_host l []
segments_of (project l p) = in_host l (bytes "project" ∷ p ∷ [])
segments_of (server l s) = in_host l (bytes "server" ∷ s ∷ [])
segments_of (project_server l p s) = in_host l (bytes "project" ∷ p ∷ bytes "server" ∷ s ∷ [])

-- Each segment after a slash.
abbrev pub render : List Text → Text
render [] = []
render (s ∷ ss) = b'/' ∷ (s ++ render ss)

abbrev no_slash : Text → Bool
no_slash [] = true
no_slash (c ∷ cs) = not (c == b'/') && no_slash cs

-- A segment: not empty, and without a slash.
abbrev pub plain : Text → Bool
plain s = not (is_empty s) && no_slash s

trim_right-append :
    (s z : Text) → no_slash s ≡ true → trim_right z ≡ z → trim_right (s ++ z) ≡ s ++ z
unfolding trim_right
trim_right-append [] z h e = e
trim_right-append (c ∷ s) z h e = ground (arith, trim_right-append s z)

trim_right-render : (ss : List Text) → all plain ss ≡ true → trim_right (render ss) ≡ render ss
unfolding trim_right
trim_right-render [] h = refl
trim_right-render ([] ∷ ss) h = cc
trim_right-render ((c ∷ s) ∷ ss) h =
    ground (arith, trim_right-append (c ∷ s) (render ss), trim_right-render ss)

split-append :
    (s : Text) (ss : List Text)
    → no_slash s ≡ true
    → all plain ss ≡ true
    → split (s ++ render ss) ≡ s ∷ ss
unfolding split
split-append [] [] h k = refl
split-append [] (t ∷ ss) h k = ground (arith, split-append t ss)
split-append (c ∷ s) ss h k = ground (arith, split-append s ss)

split-render :
    (s : Text) (ss : List Text)
    → all plain (s ∷ ss) ≡ true
    → split (trim (render (s ∷ ss))) ≡ s ∷ ss
unfolding trim trim_left
split-render [] ss h = cc
split-render (c ∷ s) ss h =
    ground
      (arith, trim_right-append (c ∷ s) (render ss), trim_right-render ss, split-append (c ∷ s) ss)

abbrev pub plain_place : Place → Bool
plain_place everything = true
plain_place (agent id) = plain id
plain_place (host l) = plain l
plain_place (project l p) = plain l && plain p
plain_place (server l s) = plain l && plain s
plain_place (project_server l p s) = plain l && plain p && plain s

parse_segments-segments_of :
    (p : Place) → plain_place p ≡ true → parse_segments (segments_of p) ≡ some (target_of p)
unfolding parse_segments text_eq
parse_segments-segments_of everything h = refl
parse_segments-segments_of (agent id) h = ground arith
parse_segments-segments_of (host l) h = ground arith
parse_segments-segments_of (project l p) h = ground arith
parse_segments-segments_of (server l s) h = ground arith
parse_segments-segments_of (project_server l p s) h = ground arith

segments_plain : (p : Place) → plain_place p ≡ true → all plain (segments_of p) ≡ true
segments_plain everything h = refl
segments_plain (agent id) h = ground arith
segments_plain (host l) h = ground arith
segments_plain (project l p) h = ground arith
segments_plain (server l s) h = ground arith
segments_plain (project_server l p s) h = ground arith

split-segments_of :
    (p : Place) → plain_place p ≡ true → split (trim (render (segments_of p))) ≡ segments_of p
split-segments_of everything h = split-render _ _ (segments_plain everything h)
split-segments_of (agent id) h = split-render _ _ (segments_plain (agent id) h)
split-segments_of (host l) h = split-render _ _ (segments_plain (host l) h)
split-segments_of (project l p) h = split-render _ _ (segments_plain (project l p) h)
split-segments_of (server l s) h = split-render _ _ (segments_plain (server l s) h)
split-segments_of (project_server l p s) h =
    split-render _ _ (segments_plain (project_server l p s) h)

-- The path of a place whose names are not empty and hold no slash parses to that place's target.
pub parse_target-render :
    (p : Place) → plain_place p ≡ true → parse_target (render (segments_of p)) ≡ some (target_of p)
unfolding parse_target
parse_target-render p h = ap parse_segments (split-segments_of p h) ∙ parse_segments-segments_of p h

split-no_slash : (s : Text) → all no_slash (split s) ≡ true
unfolding split
split-no_slash [] = refl
split-no_slash (c ∷ s) = elim (Bool-cases (c == b'/')) [
  | inl slash ↦ rw slash (split-no_slash s)
  | inr other ↦ rw other (pushed other (split s) (split-no_slash s))
]
  where
    pushed :
        (c == b'/') ≡ false
        → (ss : List Text) → all no_slash ss ≡ true
        → all no_slash (push_head c ss) ≡ true
    pushed e [] h = ground arith
    pushed e (t ∷ ss) h = ground arith

-- A target that parsing gives for some segments is the place's that they name.
abbrev Named : List Text → Target → Type 0
Named ss t = (q : Place) × (t ≡ target_of q) × (plain_place q ≡ true) × (ss ≡ segments_of q)

abbrev hosted : Place → Bool
hosted everything = false
hosted (agent id) = false
hosted _ = true

append-nil : (xs : List Text) → xs ++ [] ≡ xs
append-nil [] = refl
append-nil (x ∷ xs) = ap (λ r. x ∷ r) (append-nil xs)

parse_pairs_sound :
    (p : Place) (rest : List Text) (t : Target)
    → hosted p ≡ true
    → plain_place p ≡ true
    → all no_slash rest ≡ true
    → parse_pairs (target_of p) rest ≡ some t
    → Named (segments_of p ++ rest) t
unfolding parse_pairs
parse_pairs_sound p [] t hp pp ns h = (p, ground arith, pp, append-nil (segments_of p))
parse_pairs_sound p (k ∷ []) t hp pp ns h = absurd (ground arith)
parse_pairs_sound everything (k ∷ v ∷ rest) t hp pp ns h = cc
parse_pairs_sound (agent id) (k ∷ v ∷ rest) t hp pp ns h = cc
parse_pairs_sound (host l) (k ∷ v ∷ rest) t hp pp ns h =
    elim (Bool-cases (text_eq k (bytes "project"))) [
      | inl keyword ↦
          rw (text_eq_sound k (bytes "project") keyword) (
            parse_pairs_sound (project l v) rest t refl (ground arith) (ground arith)
              (ground arith))
      | inr other ↦
          rw (text_eq_sound k (bytes "server") (ground arith)) (
            parse_pairs_sound (server l v) rest t refl (ground arith) (ground arith) (ground arith))
    ]
parse_pairs_sound (project l p) (k ∷ v ∷ rest) t hp pp ns h =
    rw (text_eq_sound k (bytes "server") (ground arith)) (
      parse_pairs_sound (project_server l p v) rest t refl (ground arith) (ground arith)
        (ground arith))
parse_pairs_sound (server l s) (k ∷ v ∷ rest) t hp pp ns h = absurd (ground arith)
parse_pairs_sound (project_server l p s) (k ∷ v ∷ rest) t hp pp ns h = absurd (ground arith)

parse_rest_sound :
    (rest : List Text) (t : Target)
    → all no_slash rest ≡ true
    → parse_rest rest ≡ some t
    → Named (bytes "mcp" ∷ rest) t
unfolding parse_rest
parse_rest_sound [] t ns h = (everything, ground arith, refl, refl)
parse_rest_sound (k ∷ []) t ns h = absurd (ground arith)
parse_rest_sound (k ∷ v ∷ []) t ns h = elim (Bool-cases (text_eq k (bytes "agent"))) [
  | inl keyword ↦
      rw (text_eq_sound k (bytes "agent") keyword) ((agent v, ground arith, ground arith, refl))
  | inr other ↦
      rw (text_eq_sound k (bytes "host") (ground arith))
        ((host v, ground arith, ground arith, refl))
]
parse_rest_sound (k ∷ v ∷ w ∷ rest) t ns h =
    rw (text_eq_sound k (bytes "host") (ground arith))
      (parse_pairs_sound (host v) (w ∷ rest) t refl (ground arith) (ground arith) (ground arith))

-- A path that parses is, less slashes at its ends, the path of a place whose names are not empty and hold
-- no slash, and its target is that place's: the scope that its keywords ask for, with the fields that the
-- path gives and no others.
pub parse_target_sound :
    (path : Text) (t : Target)
    → parse_target path ≡ some t
    → (q : Place) × (t ≡ target_of q) × (plain_place q ≡ true) × (split (trim path) ≡ segments_of q)
unfolding parse_target
parse_target_sound path t h = go (split (trim path)) (split-no_slash (trim path)) h
  where
    go : (ss : List Text) → all no_slash ss ≡ true → parse_segments ss ≡ some t → Named ss t
    go [] ns e = absurd (ground arith)
    go (s ∷ rest) ns e =
        rw (text_eq_sound s (bytes "mcp") (ground arith))
          (parse_rest_sound rest t (ground arith) (ground arith))
