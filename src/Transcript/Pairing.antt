-- ===== src/Transcript/Pairing.antt =====
-- After the repair every call is answered once, and nothing else is.
use mcp_switchboard.Prelude.{
  ℕ, ◌+◌, ◌≡◌, refl, ap, Bool, true, false, not, ◌&&◌, List, [], ◌∷◌, ◌++◌, Text, text_eq,
  text_eq_iff, text_eq_sound, if◌then◌else◌, if_cases, if_ind, arith,
}
use mcp_switchboard.Window.{ToolCall, ToolResult, Message, is_tool}
use mcp_switchboard.Transcript.{
  Wanted, wants, delete_id, call_ids, keep_results, unless_empty, take_answers, missing_answers,
  asked, answers_of, repair_tool_pairs,
}

abbrev pub one : Bool → ℕ
one b = if b then 1 else 0

-- The results of a list that answer an id, and those of the tool messages that a list begins with.
abbrev pub count_results : Text → List ToolResult → ℕ
count_results id [] = 0
count_results id (r ∷ rs) = one (text_eq r.id id) + count_results id rs

abbrev pub count_answers : Text → List Message → ℕ
count_answers id [] = 0
count_answers id (m ∷ ms) =
    let rest = count_answers id ms in
    if is_tool m.role then count_results id m.tool_results + rest else 0

-- After each message that is no tool's, the id is answered once if the message asks for it, and else not.
abbrev pub AnsweredOnce : Text → List Message → Type 0
AnsweredOnce id [] = Unit
AnsweredOnce id (m ∷ ms) =
    (if is_tool m.role then Unit else (count_answers id ms ≡ one (wants id (call_ids (asked m)))))
    × AnsweredOnce id ms

abbrev pub distinct_ids : List Text → Bool
distinct_ids [] = true
distinct_ids (x ∷ xs) = not (wants x xs) && distinct_ids xs

-- No message calls two tools under one id.
abbrev pub distinct_calls : List Message → Bool
distinct_calls [] = true
distinct_calls (m ∷ ms) = distinct_ids (call_ids (asked m)) && distinct_calls ms

abbrev pub only_tools : List Message → Bool
only_tools [] = true
only_tools (m ∷ ms) = is_tool m.role && only_tools ms

pub wants-delete_id :
    (id x : Text) (want : Wanted)
    → wants id (delete_id x want) ≡ (wants id want && not (text_eq x id))
wants-delete_id id x [] = refl
wants-delete_id id x (w ∷ want) =
    if_cases (λ l. wants id l ≡ (wants id (w ∷ want) && not (text_eq x id))) (not (text_eq w x)) _ _
      (λ e.
        ground
          (arith, wants-delete_id id x want, text_eq_iff w x, text_eq_iff x id, text_eq_iff w id))
      (λ e.
        ground
          (arith, wants-delete_id id x want, text_eq_iff w x, text_eq_iff x id, text_eq_iff w id))

pub wants_same : (a b : Text) (want : Wanted) → text_eq a b ≡ true → wants a want ≡ wants b want
wants_same a b want e = ap (λ t. wants t want) (text_eq_sound a b e)

count-keep_results :
    (id : Text) (want : Wanted) (rs : List ToolResult)
    → count_results id (keep_results want rs).0 + one (wants id (keep_results want rs).1)
      ≡ one (wants id want)
unfolding keep_results
count-keep_results id want [] = omega arith
count-keep_results id want (r ∷ rs) =
    if_cases
      (λ (p : List ToolResult × Wanted).
        count_results id p.0 + one (wants id p.1) ≡ one (wants id want))
      (wants r.id want) _ _
      (λ e. ground (
        arith,
        count-keep_results id (delete_id r.id want) rs,
        wants-delete_id id r.id want,
        wants_same r.id id want,
      ))
      (λ e. count-keep_results id want rs)

count-unless_empty :
    (id : Text) (rs : List ToolResult) (ms : List Message)
    → count_answers id (unless_empty rs ms) ≡ count_results id rs + count_answers id ms
count-unless_empty id [] ms = omega arith
count-unless_empty id (r ∷ rs) ms = refl

count-take_answers :
    (id : Text) (want : Wanted) (ms : List Message)
    → count_answers id (take_answers want ms).0 + one (wants id (take_answers want ms).1)
      ≡ one (wants id want)
unfolding take_answers
count-take_answers id want [] = omega arith
count-take_answers id want (m ∷ ms) =
    let kept = keep_results want m.tool_results in
    if_cases
      (λ (p : List Message × Wanted).
        count_answers id p.0 + one (wants id p.1) ≡ one (wants id want))
      (is_tool m.role) _ _
      (λ e. ground (
        arith,
        count-unless_empty id kept.0 (take_answers kept.1 ms).0,
        count-take_answers id kept.1 ms,
        count-keep_results id want m.tool_results,
      ))
      (λ e. omega arith)

count-missing_none :
    (id : Text) (want : Wanted) (cs : List ToolCall)
    → wants id (call_ids cs) ≡ false
    → count_answers id (missing_answers want cs) ≡ 0
unfolding missing_answers
count-missing_none id want [] h = refl
count-missing_none id want (c ∷ cs) h =
    if_cases (λ x. count_answers id x ≡ 0) (wants c.id want) _ _
      (λ e. ground (arith, count-missing_none id want cs))
      (λ e. ground (arith, count-missing_none id want cs))

count-missing_answers :
    (id : Text) (want : Wanted) (cs : List ToolCall)
    → distinct_ids (call_ids cs) ≡ true
    → count_answers id (missing_answers want cs) ≡ one (wants id want && wants id (call_ids cs))
unfolding missing_answers
count-missing_answers id want [] d = ground arith
count-missing_answers id want (c ∷ cs) d =
    if_cases (λ x. count_answers id x ≡ one (wants id want && wants id (call_ids (c ∷ cs))))
      (wants c.id want) _ _
      (λ e. ground (
        arith,
        count-missing_answers id want cs,
        wants_same c.id id want,
        wants_same c.id id (call_ids cs),
      ))
      (λ e. ground (
        arith,
        count-missing_answers id want cs,
        wants_same c.id id want,
        wants_same c.id id (call_ids cs),
      ))

only_tools-unless_empty :
    (rs : List ToolResult) (ms : List Message)
    → only_tools ms ≡ true
    → only_tools (unless_empty rs ms) ≡ true
only_tools-unless_empty [] ms h = h
only_tools-unless_empty (r ∷ rs) ms h = h

only_tools-take_answers :
    (want : Wanted) (ms : List Message) → only_tools (take_answers want ms).0 ≡ true
unfolding take_answers
only_tools-take_answers want [] = refl
only_tools-take_answers want (m ∷ ms) =
    let kept = keep_results want m.tool_results in
    if_ind (λ (p : List Message × Wanted). only_tools p.0 ≡ true) (is_tool m.role) _ _
      (only_tools-unless_empty kept.0 (take_answers kept.1 ms).0
        (only_tools-take_answers kept.1 ms))
      refl

only_tools-missing_answers :
    (want : Wanted) (cs : List ToolCall) → only_tools (missing_answers want cs) ≡ true
unfolding missing_answers
only_tools-missing_answers want [] = refl
only_tools-missing_answers want (c ∷ cs) =
    if_ind (λ x. only_tools x ≡ true) (wants c.id want) _ _ (only_tools-missing_answers want cs)
      (only_tools-missing_answers want cs)

only_tools-append :
    (xs ys : List Message) → only_tools (xs ++ ys) ≡ (only_tools xs && only_tools ys)
only_tools-append [] ys = refl
only_tools-append (x ∷ xs) ys = ground (arith, only_tools-append xs ys)

pub only_tools-answers_of :
    (m : Message) (rest : List Message) → only_tools (answers_of m rest) ≡ true
only_tools-answers_of m rest =
    let taken = take_answers (call_ids (asked m)) rest in
    ground (
      arith,
      only_tools-append taken.0 (missing_answers taken.1 (asked m)),
      only_tools-take_answers (call_ids (asked m)) rest,
      only_tools-missing_answers taken.1 (asked m),
    )

of_tool : (P : Type 0) (b : Bool) → b ≡ true → if b then Unit else P
of_tool P true h = tt
of_tool P false h = absurd (ground arith)

pub of_other : {P : Type 0} (b : Bool) → b ≡ false → P → if b then Unit else P
of_other true h p = tt
of_other false h p = p

module _ (id : Text) where
  count-append :
      (xs ys : List Message)
      → only_tools xs ≡ true
      → count_answers id (xs ++ ys) ≡ count_answers id xs + count_answers id ys
  count-append [] ys h = omega arith
  count-append (x ∷ xs) ys h = ground (arith, count-append xs ys)

  AnsweredOnce-append :
      (xs ys : List Message)
      → only_tools xs ≡ true
      → AnsweredOnce id ys
      → AnsweredOnce id (xs ++ ys)
  AnsweredOnce-append [] ys h a = a
  AnsweredOnce-append (x ∷ xs) ys h a =
      (of_tool _ (is_tool x.role) (ground arith), AnsweredOnce-append xs ys (ground arith) a)

  count-answers_of :
      (m : Message) (rest : List Message)
      → distinct_ids (call_ids (asked m)) ≡ true
      → count_answers id (answers_of m rest) ≡ one (wants id (call_ids (asked m)))
  count-answers_of m rest d =
      let want = call_ids (asked m) in
      let taken = take_answers want rest in
      ground (
        arith,
        count-append taken.0 (missing_answers taken.1 (asked m))
            (only_tools-take_answers want rest),
        count-take_answers id want rest,
        count-missing_answers id taken.1 (asked m) d,
      )

  -- The repaired list begins with no tool's message.
  Fine : List Message → Type 0
  Fine ms = AnsweredOnce id ms × (count_answers id ms ≡ 0)

  repair-Fine : (ms : List Message) → distinct_calls ms ≡ true → Fine (repair_tool_pairs ms)
  unfolding repair_tool_pairs Fine
  repair-Fine [] d = (tt, refl)
  repair-Fine (m ∷ ms) d =
      let (a, z) = repair-Fine ms (ground arith) in
      if_cases Fine (is_tool m.role) _ _ (λ e. (a, z))
        (λ e. (
          (
            of_other (is_tool m.role) e (
                ground (
                  arith,
                  count-append (answers_of m ms) (repair_tool_pairs ms)
                      (only_tools-answers_of m ms),
                  count-answers_of m ms,
                )),
            AnsweredOnce-append (answers_of m ms) (repair_tool_pairs ms)
                (only_tools-answers_of m ms) a,
          ),
          ground arith,
        ))

-- In the repaired transcript every call of the model is answered by exactly one result, among the tool
-- messages right behind it, and no result answers anything else, wherever the model made no two calls
-- under one id in one message.
pub repair_tool_pairs-AnsweredOnce :
    (id : Text) (ms : List Message)
    → distinct_calls ms ≡ true
    → AnsweredOnce id (repair_tool_pairs ms) × (count_answers id (repair_tool_pairs ms) ≡ 0)
unfolding Fine
repair_tool_pairs-AnsweredOnce id ms d = repair-Fine id ms d
