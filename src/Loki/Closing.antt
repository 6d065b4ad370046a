-- ===== src/Loki/Closing.antt =====
-- What is left when an exporter is closed.
use mcp_switchboard.Prelude.{
  ℕ, ◌≡◌, refl, true, ◌||◌, List, [], ◌∷◌, ◌++◌, ap, ◌∙◌, length, leb, drop, length-drop, if_cases,
  if_ind, arith,
}
use mcp_switchboard.Loki.{
  Entry, Exporter, new, emit, start, take_batch, post, taken, failed, note_failure, note_success,
  stop, abandon, Step, started, stopped, took, abandoned, emitted, pushed, step, steps, has_batch,
}
use mcp_switchboard.Loki.Accounting.{kept, emits, steps-Accounts, steps-new-Accounts, step-Kept}
use mcp_switchboard.Loki.Loss.{LeavesOut, cast, append_nil}

-- No more events are queued.
abbrev IsClosed : Exporter → Type 0
IsClosed e = e.closed ≡ true

-- Nothing waits, and nothing will.
abbrev IsSpent : Exporter → Type 0
IsSpent e = (e.closed ≡ true) × (length e.queue ≡ 0)

-- A predicate that every step keeps.
abbrev Keeps : (Exporter → Type 0) → Step → Type 0
Keeps P s = (e : Exporter) → P e → P (step s e)

IsClosed-step : (s : Step) → Keeps IsClosed s
unfolding step start stop emit take_batch abandon post note_failure note_success
IsClosed-step started e c = if_ind IsClosed (e.running || e.closed) _ _ c c
IsClosed-step stopped e c = refl
IsClosed-step took e c = if_ind IsClosed (has_batch e) _ _ c c
IsClosed-step abandoned e c = c
IsClosed-step (emitted ent) e c =
    if_ind IsClosed (e.closed || leb e.queue_size (length e.queue)) _ _ c c
IsClosed-step (pushed taken) e c = if_ind IsClosed e.failing _ _ c c
IsClosed-step (pushed (failed err)) e c = if_ind IsClosed e.failing _ _ c c

drop_none : (n : ℕ) (e : Exporter) → length e.queue ≡ 0 → length (drop n e.queue) ≡ 0
drop_none n e h = omega (arith, h, length-drop n e.queue)

IsSpent-step : (s : Step) → Keeps IsSpent s
unfolding step start stop emit take_batch abandon post note_failure note_success
IsSpent-step started e (c, z) = if_ind IsSpent (e.running || e.closed) _ _ (c, z) (c, z)
IsSpent-step stopped e (c, z) = (refl, z)
IsSpent-step took e (c, z) = if_ind IsSpent (has_batch e) _ _ (c, z) (c, drop_none _ e z)
IsSpent-step abandoned e (c, z) = (c, refl)
IsSpent-step (emitted ent) e (c, z) =
    if_cases IsSpent (e.closed || leb e.queue_size (length e.queue)) _ _ (λ h. (c, z))
      (λ h. absurd (ground arith))
IsSpent-step (pushed taken) e (c, z) = if_ind IsSpent e.failing _ _ (c, z) (c, z)
IsSpent-step (pushed (failed err)) e (c, z) = if_ind IsSpent e.failing _ _ (c, z) (c, z)

steps_keep :
    (P : Exporter → Type 0)
    → ((s : Step) → Keeps P s)
    → (ss : List Step) (e : Exporter) → P e
    → P (steps ss e)
steps_keep P k [] e p = p
steps_keep P k (s ∷ ss) e p = steps_keep P k ss (step s e) (k s e p)

no_entry : (q : List Entry) → length q ≡ 0 → q ≡ []
no_entry [] z = refl
no_entry (x ∷ q) z = absurd (ground arith)

-- Once `Close` has run, with anything before it, between its two critical sections and after it, those that
-- Loki has taken and those of the one batch that a push may still hold are, in this order, the events that
-- were emitted, in theirs, but for as many as are counted as dropped.
pub close-accounted :
    (b q : ℕ) (before meanwhile after : List Step)
    → let e = steps after (abandon (steps meanwhile (stop (steps before (new b q))))) in
      LeavesOut (e.sent ++ e.batch) e.drops (emits (emits (emits [] before) meanwhile) after)
unfolding stop abandon step
close-accounted b q before meanwhile after =
    let e0 = steps before (new b q) in
    let given0 = emits [] before in
    let given2 = emits given0 meanwhile in
    let (l0, b0) = steps-new-Accounts b q before in
    let k1 = step-Kept e0 b0 stopped in
    let (l2, b2) = steps-Accounts meanwhile (stop e0) given0 k1.bounds (k1.account given0 l0) in
    let e2 = steps meanwhile (stop e0) in
    let k3 = step-Kept e2 b2 abandoned in
    let (l4, b4) = steps-Accounts after (abandon e2) given2 k3.bounds (k3.account given2 l2) in
    let e4 = steps after (abandon e2) in
    let closed = steps_keep IsClosed IsClosed-step meanwhile (stop e0) refl in
    let (c, z) = steps_keep IsSpent IsSpent-step after (abandon e2) (closed, refl) in
    let left : e4.batch ++ e4.queue ≡ e4.batch =
      ap (λ r. e4.batch ++ r) (no_entry e4.queue z) ∙ append_nil e4.batch in
    cast (kept e4) (e4.sent ++ e4.batch) e4.drops e4.drops (emits given2 after)
      (ap (λ r. e4.sent ++ r) left) refl l4
