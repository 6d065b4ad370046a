-- ===== src/Loki/Outage.antt =====
-- What the exporter tells the hub's log.
use mcp_switchboard.Prelude.{
  ℕ, zero, suc, ◌≡◌, refl, sym, ap, subst, ◌∙◌, true, ◌||◌, List, [], ◌∷◌, ◌++◌, length, leb, ltb,
  if_cases, if_ind, arith,
}
use mcp_switchboard.Loki.Loss.{append_assoc, append_nil}
use mcp_switchboard.Loki.{
  Note, warned, recovered, Exporter, new, emit, start, take_batch, post, Push, taken, failed,
  note_failure, note_success, stop, abandon, Step, started, stopped, took, abandoned, emitted,
  pushed, step, steps, has_batch,
}

-- How the pushes of a sequence of steps end, in their order.
abbrev pub pushes_of : List Step → List Push
pushes_of [] = []
pushes_of (pushed p ∷ ss) = p ∷ pushes_of ss
pushes_of (_ ∷ ss) = pushes_of ss

-- What is to be told of pushes, after so many that have failed in a row: the first failure of a row, and
-- the push that ends it, with the length of the row.
abbrev pub told : ℕ → List Push → List Note
told n [] = []
told zero (failed err ∷ ps) = warned err ∷ told 1 ps
told (suc n) (failed err ∷ ps) = told (suc (suc n)) ps
told zero (taken ∷ ps) = told 0 ps
told (suc n) (taken ∷ ps) = recovered (suc n) ∷ told 0 ps

-- How many pushes have failed in a row at the end, after so many before.
abbrev pub row_of : ℕ → List Push → ℕ
row_of n [] = n
row_of n (failed err ∷ ps) = row_of (suc n) ps
row_of n (taken ∷ ps) = row_of 0 ps

-- The exporter knows of a row of so many failures.
record Knows (n : ℕ) (e : Exporter) : Type 0 where
  pub flag : e.failing ≡ ltb 0 n
  pub count : e.failed_batches ≡ n

-- What pushes add to a log, and what is known after them.
record Tells (n : ℕ) (ps : List Push) (log : List Note) (e : Exporter) : Type 0 where
  pub says : e.log ≡ log ++ told n ps
  pub known : Knows (row_of n ps) e

quiet : (n : ℕ) (e : Exporter) → Knows n e → Tells n [] e.log e
quiet n e k = record { says = sym (append_nil e.log); known = k }

post-Tells : (n : ℕ) (p : Push) (e : Exporter) → Knows n e → Tells n (p ∷ []) e.log (post p e)
unfolding post note_failure note_success
post-Tells zero taken e k =
    if_cases (Tells 0 (taken ∷ []) e.log) e.failing _ _ (λ h. absurd (ground (arith, k.flag)))
      (λ h. record {
        says = sym (append_nil e.log);
        known = record { flag = k.flag; count = k.count };
      })
post-Tells (suc n) taken e k =
    if_cases (Tells (suc n) (taken ∷ []) e.log) e.failing _ _
      (λ h. record {
        says = ap (λ c. e.log ++ (recovered c ∷ [])) k.count;
        known = record { flag = refl; count = refl };
      })
      (λ h. absurd (ground (arith, k.flag)))
post-Tells zero (failed err) e k =
    if_cases (Tells 0 (failed err ∷ []) e.log) e.failing _ _ (λ h. absurd (ground (arith, k.flag)))
      (λ h. record { says = refl; known = record { flag = refl; count = ap suc k.count } })
post-Tells (suc n) (failed err) e k =
    if_cases (Tells (suc n) (failed err ∷ []) e.log) e.failing _ _
      (λ h. record {
        says = sym (append_nil e.log);
        known = record { flag = ground (arith, k.flag); count = ap suc k.count };
      })
      (λ h. absurd (ground (arith, k.flag)))

-- The pushes of one step.
abbrev pushes_at : Step → List Push
pushes_at s = pushes_of (s ∷ [])

step-Tells : (n : ℕ) (s : Step) (e : Exporter) → Knows n e → Tells n (pushes_at s) e.log (step s e)
unfolding step start stop emit take_batch abandon
step-Tells n started e k =
    if_ind (Tells n [] e.log) (e.running || e.closed) _ _ (quiet n e k) (quiet n _ k')
  where
    k' : Knows n (record e { running = true })
    k' = record { flag = k.flag; count = k.count }
step-Tells n stopped e k = quiet n _ (record { flag = k.flag; count = k.count })
step-Tells n took e k =
    if_ind (Tells n [] e.log) (has_batch e) _ _ (quiet n e k)
      (quiet n (record e { batch = _; queue = _ }) (record { flag = k.flag; count = k.count }))
step-Tells n abandoned e k = quiet n _ (record { flag = k.flag; count = k.count })
step-Tells n (emitted ent) e k =
    if_ind (Tells n [] e.log) (e.closed || leb e.queue_size (length e.queue)) _ _
      (quiet n _ (record { flag = k.flag; count = k.count }))
      (quiet n _ (record { flag = k.flag; count = k.count }))
step-Tells n (pushed p) e k = post-Tells n p e k

told-more :
    (n : ℕ) (s : Step) (ss : List Step)
    → (told n (pushes_of (s ∷ ss))
        ≡ told n (pushes_at s) ++ told (row_of n (pushes_at s)) (pushes_of ss))
      × (row_of n (pushes_of (s ∷ ss)) ≡ row_of (row_of n (pushes_at s)) (pushes_of ss))
told-more n started ss = (refl, refl)
told-more n stopped ss = (refl, refl)
told-more n took ss = (refl, refl)
told-more n abandoned ss = (refl, refl)
told-more n (emitted ent) ss = (refl, refl)
told-more zero (pushed taken) ss = (refl, refl)
told-more (suc n) (pushed taken) ss = (refl, refl)
told-more zero (pushed (failed err)) ss = (refl, refl)
told-more (suc n) (pushed (failed err)) ss = (refl, refl)

steps-Tells :
    (n : ℕ) (ss : List Step) (e : Exporter) → Knows n e → Tells n (pushes_of ss) e.log (steps ss e)
steps-Tells n [] e k = quiet n e k
steps-Tells n (s ∷ ss) e k =
    let first = step-Tells n s e k in
    let here = told n (pushes_at s) in
    let m = row_of n (pushes_at s) in
    let rest = steps-Tells m ss (step s e) first.known in
    let (all_told, whole_row) = told-more n s ss in
    record {
      says =
          rest.says
          ∙ ap (λ log. log ++ told m (pushes_of ss)) first.says
          ∙ append_assoc e.log here (told m (pushes_of ss))
          ∙ ap (λ r. e.log ++ r) (sym all_told);
      known = subst (λ r. Knows r (steps ss (step s e))) (sym whole_row) rest.known;
    }

-- Whatever happens to a new exporter, its log is what is to be told of its pushes: a warning at the first
-- failure of a row and none at the others, and a note of the recovery, with the number of failures, at
-- the push that Loki takes after them. It takes itself to be failing exactly where the last push failed.
pub steps-new-told :
    (b q : ℕ) (ss : List Step)
    → ((steps ss (new b q)).log ≡ told 0 (pushes_of ss))
      × ((steps ss (new b q)).failing ≡ ltb 0 (row_of 0 (pushes_of ss)))
unfolding new
steps-new-told b q ss =
    let t = steps-Tells 0 ss (new b q) (record { flag = refl; count = refl }) in
    (t.says, t.known.flag)
