-- ===== src/Loki/Payload.antt =====
-- What a push says: BuildPayload of hub/internal/loki/loki.go.
use mcp_switchboard.Prelude.{
  ℕ, ◌+◌, ◌≡◌, refl, ap, ◌∙◌, Bool, true, not, ◌&&◌, ◌||◌, List, [], ◌∷◌, ◌++◌, map, Option, none,
  some, Text, Map, text_eq, text_lt, text_lt_asym, text_eq_sound, text_eq_iff, any, all,
  if◌then◌else◌, if_cases, if_ind, arith, subst,
}
use mcp_switchboard.Loki.{Entry}

-- A time in decimal, and a line.
abbrev pub Line : Type 0
Line = Text × Text

-- The key stands for the place in the map of streams, and is not sent.
pub record Stream : Type 0 where
  pub key : Text
  pub labels : Map Text
  pub values : List Line

abbrev added : Line → Stream → Stream
added l s = record s { values = s.values ++ (l ∷ []) }

-- A round of the first loop, whose map and order are a list of streams.
unfoldable pub add_line : Entry → Line → List Stream → List Stream
unfolding text_eq
add_line ent l [] = record { key = ent.stream; labels = ent.labels; values = l ∷ [] } ∷ []
add_line ent l (s ∷ ss) =
    let rest = add_line ent l ss in if text_eq s.key ent.stream then added l s ∷ ss else s ∷ rest

-- The first argument is strconv.FormatInt.
unfoldable pub group : (ℕ → Text) → List Stream → List Entry → List Stream
unfolding add_line
group format ss [] = ss
group format ss (ent ∷ es) = group format (add_line ent (format ent.ts_nanos, ent.line) ss) es

-- sort.SliceStable, by the times.
unfoldable pub insert : Line → List Line → List Line
unfolding text_lt
insert l [] = l ∷ []
insert l (m ∷ ms) = let rest = insert l ms in if text_lt m.0 l.0 then m ∷ rest else l ∷ m ∷ ms

unfoldable pub sort : List Line → List Line
unfolding insert
sort [] = []
sort (l ∷ ls) = insert l (sort ls)

abbrev sorted_stream : Stream → Stream
sorted_stream s = record s { values = sort s.values }

unfoldable pub build_payload : (ℕ → Text) → List Entry → List Stream
unfolding group sort
build_payload format batch = map sorted_stream (group format [] batch)

-- How many lines of a stream, and of all streams, pass a test on the key and the line.
abbrev one : Bool → ℕ
one b = if b then 1 else 0

abbrev pub Test : Type 0
Test = Text → Line → Bool

abbrev pub count_values : Test → Text → List Line → ℕ
count_values p key [] = 0
count_values p key (l ∷ ls) = one (p key l) + count_values p key ls

abbrev pub count_payload : Test → List Stream → ℕ
count_payload p [] = 0
count_payload p (s ∷ ss) = count_values p s.key s.values + count_payload p ss

abbrev pub count_batch : (ℕ → Text) → Test → List Entry → ℕ
count_batch format p [] = 0
count_batch format p (e ∷ es) =
    one (p e.stream (format e.ts_nanos, e.line)) + count_batch format p es

module _ (p : Test) where
  count_values-append :
      (key : Text) (xs ys : List Line)
      → count_values p key (xs ++ ys) ≡ count_values p key xs + count_values p key ys
  count_values-append key [] ys = omega arith
  count_values-append key (x ∷ xs) ys = omega (arith, count_values-append key xs ys)

  count_payload-add_line :
      (ent : Entry) (l : Line) (ss : List Stream)
      → count_payload p (add_line ent l ss) ≡ count_payload p ss + one (p ent.stream l)
  unfolding add_line
  count_payload-add_line ent l [] = omega arith
  count_payload-add_line ent l (s ∷ ss) =
      if_cases (λ x. count_payload p x ≡ count_payload p (s ∷ ss) + one (p ent.stream l))
        (text_eq s.key ent.stream) _ _
        (λ e.
          subst
            (λ k.
              count_values p s.key (s.values ++ (l ∷ [])) + count_payload p ss
              ≡ count_values p s.key s.values + count_payload p ss + one (p k l))
            (text_eq_sound s.key ent.stream e)
            (omega (arith, count_values-append s.key s.values (l ∷ []))))
        (λ e. omega (arith, count_payload-add_line ent l ss))

  count_payload-group :
      (format : ℕ → Text) (ss : List Stream) (es : List Entry)
      → count_payload p (group format ss es) ≡ count_payload p ss + count_batch format p es
  unfolding group
  count_payload-group format ss [] = omega arith
  count_payload-group format ss (e ∷ es) = omega (
    arith,
    count_payload-group format (add_line e (format e.ts_nanos, e.line) ss) es,
    count_payload-add_line e (format e.ts_nanos, e.line) ss,
  )

  count_values-insert :
      (key : Text) (l : Line) (ls : List Line)
      → count_values p key (insert l ls) ≡ one (p key l) + count_values p key ls
  unfolding insert
  count_values-insert key l [] = refl
  count_values-insert key l (m ∷ ms) =
      if_ind (λ x. count_values p key x ≡ one (p key l) + (one (p key m) + count_values p key ms))
        (text_lt m.0 l.0) _ _ (omega (arith, count_values-insert key l ms)) refl

  count_values-sort :
      (key : Text) (ls : List Line) → count_values p key (sort ls) ≡ count_values p key ls
  unfolding sort
  count_values-sort key [] = refl
  count_values-sort key (l ∷ ls) =
      omega (arith, count_values-insert key l (sort ls), count_values-sort key ls)

  count_payload-sorted :
      (ss : List Stream) → count_payload p (map sorted_stream ss) ≡ count_payload p ss
  count_payload-sorted [] = refl
  count_payload-sorted (s ∷ ss) =
      omega (arith, count_values-sort s.key s.values, count_payload-sorted ss)

-- No time is before the one ahead of it.
abbrev pub in_order : List Line → Bool
in_order [] = true
in_order (l ∷ []) = true
in_order (l ∷ m ∷ ls) = not (text_lt m.0 l.0) && in_order (m ∷ ls)

in_order-insert : (l : Line) (ls : List Line) → in_order ls ≡ true → in_order (insert l ls) ≡ true
unfolding insert
in_order-insert l [] h = refl
in_order-insert l (m ∷ []) h =
    if_cases (λ x. in_order x ≡ true) (text_lt m.0 l.0) _ _
      (λ e. ground (arith, text_lt_asym m.0 l.0)) (λ e. ground arith)
in_order-insert l (m ∷ n ∷ ls) h =
    let rest = in_order-insert l (n ∷ ls) (ground arith) in
    if_cases (λ x. in_order x ≡ true) (text_lt m.0 l.0) _ _
      (λ e. ground (arith, rest, text_lt_asym m.0 l.0)) (λ e. ground arith)

in_order-sort : (ls : List Line) → in_order (sort ls) ≡ true
unfolding sort
in_order-sort [] = refl
in_order-sort (l ∷ ls) = in_order-insert l (sort ls) (in_order-sort ls)

abbrev pub ordered_streams : List Stream → Bool
ordered_streams ss = all (λ s. in_order s.values) ss

ordered-sorted : (ss : List Stream) → ordered_streams (map sorted_stream ss) ≡ true
ordered-sorted [] = refl
ordered-sorted (s ∷ ss) = ground (arith, in_order-sort s.values, ordered-sorted ss)

abbrev pub has_key : Text → List Stream → Bool
has_key key ss = any (λ s. text_eq s.key key) ss

abbrev pub distinct_keys : List Stream → Bool
distinct_keys [] = true
distinct_keys (s ∷ ss) = not (has_key s.key ss) && distinct_keys ss

has_key-add_line :
    (key : Text) (ent : Entry) (l : Line) (ss : List Stream)
    → has_key key (add_line ent l ss) ≡ (has_key key ss || text_eq ent.stream key)
unfolding add_line
has_key-add_line key ent l [] = ground arith
has_key-add_line key ent l (s ∷ ss) =
    if_cases (λ x. has_key key x ≡ (has_key key (s ∷ ss) || text_eq ent.stream key))
      (text_eq s.key ent.stream) _ _
      (λ e. ground (arith, ap (λ k. text_eq k key) (text_eq_sound s.key ent.stream e)))
      (λ e. ground (arith, has_key-add_line key ent l ss))

distinct_keys-add_line :
    (ent : Entry) (l : Line) (ss : List Stream)
    → distinct_keys ss ≡ true
    → distinct_keys (add_line ent l ss) ≡ true
unfolding add_line
distinct_keys-add_line ent l [] h = refl
distinct_keys-add_line ent l (s ∷ ss) h =
    if_cases (λ x. distinct_keys x ≡ true) (text_eq s.key ent.stream) _ _ (λ e. ground arith)
      (λ e. ground (
        arith,
        has_key-add_line s.key ent l ss,
        distinct_keys-add_line ent l ss,
        text_eq_iff s.key ent.stream,
        text_eq_iff ent.stream s.key,
      ))

distinct_keys-group :
    (format : ℕ → Text) (ss : List Stream) (es : List Entry)
    → distinct_keys ss ≡ true
    → distinct_keys (group format ss es) ≡ true
unfolding group
distinct_keys-group format ss [] h = h
distinct_keys-group format ss (e ∷ es) h =
    distinct_keys-group format (add_line e (format e.ts_nanos, e.line) ss) es
      (distinct_keys-add_line e (format e.ts_nanos, e.line) ss h)

has_key-sorted :
    (key : Text) (ss : List Stream) → has_key key (map sorted_stream ss) ≡ has_key key ss
has_key-sorted key [] = refl
has_key-sorted key (s ∷ ss) = ground (arith, has_key-sorted key ss)

distinct_keys-sorted : (ss : List Stream) → distinct_keys (map sorted_stream ss) ≡ distinct_keys ss
distinct_keys-sorted [] = refl
distinct_keys-sorted (s ∷ ss) = ground (arith, has_key-sorted s.key ss, distinct_keys-sorted ss)

-- The labels of the stream of a key, and those of the first event that has the key.
abbrev pub stream_labels : Text → List Stream → Option (Map Text)
stream_labels key [] = none
stream_labels key (s ∷ ss) = if text_eq s.key key then some s.labels else stream_labels key ss

abbrev pub first_labels : Text → List Entry → Option (Map Text)
first_labels key [] = none
first_labels key (e ∷ es) = if text_eq e.stream key then some e.labels else first_labels key es

abbrev or_else : Option (Map Text) → Option (Map Text) → Option (Map Text)
or_else none o = o
or_else (some m) o = some m

stream_labels-add_line :
    (key : Text) (ent : Entry) (l : Line) (ss : List Stream)
    → stream_labels key (add_line ent l ss)
      ≡ or_else (stream_labels key ss) (if text_eq ent.stream key then some ent.labels else none)
unfolding add_line
stream_labels-add_line key ent l [] = ground arith
stream_labels-add_line key ent l (s ∷ ss) =
    if_cases
      (λ x.
        stream_labels key x
        ≡ or_else (stream_labels key (s ∷ ss))
            (if text_eq ent.stream key then some ent.labels else none))
      (text_eq s.key ent.stream) _ _
      (λ e. ground (arith, ap (λ k. text_eq k key) (text_eq_sound s.key ent.stream e)))
      (λ e. ground (arith, stream_labels-add_line key ent l ss))

stream_labels-group :
    (format : ℕ → Text) (key : Text) (ss : List Stream) (es : List Entry)
    → stream_labels key (group format ss es) ≡ or_else (stream_labels key ss) (first_labels key es)
unfolding group
stream_labels-group format key ss [] = ground arith
stream_labels-group format key ss (e ∷ es) = ground (
  arith,
  stream_labels-group format key (add_line e (format e.ts_nanos, e.line) ss) es,
  stream_labels-add_line key e (format e.ts_nanos, e.line) ss,
)

stream_labels-sorted :
    (key : Text) (ss : List Stream)
    → stream_labels key (map sorted_stream ss) ≡ stream_labels key ss
stream_labels-sorted key [] = refl
stream_labels-sorted key (s ∷ ss) = ground (arith, stream_labels-sorted key ss)

-- A push has each line of its batch as often as the batch has it, with its own time and in the stream of its
-- own key, whatever is counted of them; it has one stream for each key and none for any other, with the
-- labels of the first event of that key; and in each the times are in order, as texts.
pub build_payload_lem :
    (format : ℕ → Text) (p : Test) (key : Text) (batch : List Entry)
    → (count_payload p (build_payload format batch) ≡ count_batch format p batch)
      × (distinct_keys (build_payload format batch) ≡ true)
      × (stream_labels key (build_payload format batch) ≡ first_labels key batch)
      × (ordered_streams (build_payload format batch) ≡ true)
unfolding build_payload
build_payload_lem format p key batch = (
  omega (
    arith,
    count_payload-sorted p (group format [] batch),
    count_payload-group p format [] batch,
  ),
  distinct_keys-sorted (group format [] batch) ∙ distinct_keys-group format [] batch refl,
  stream_labels-sorted key (group format [] batch) ∙ stream_labels-group format key [] batch,
  ordered-sorted (group format [] batch),
)
