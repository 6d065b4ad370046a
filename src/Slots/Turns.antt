-- ===== src/Slots/Turns.antt =====
-- Who gets a slot that is given back.
use mcp_switchboard.Prelude.{
  ℕ, suc, ◌-◌, ◌≤◌, ◌≡◌, refl, subst, List, [], ◌∷◌, arith, modify, ltb, false, true,
}
use mcp_switchboard.Slots.{Run, Manager, grant, hand_resume, hand_start, release_locked, hand_out}

hand_start-full :
    (q : List ℕ) (m : Manager) → m.running ≡ m.max_run → hand_start q m ≡ record m { start_q = q }
unfolding hand_start
hand_start-full [] m e = refl
hand_start-full (w ∷ q) m e = let f : ltb m.running m.max_run ≡ false = ground arith in rw (f) refl

hand_resume-full :
    (q : List ℕ) (m : Manager) → m.running ≡ m.max_run → hand_resume q m ≡ record m { resume_q = q }
unfolding hand_resume
hand_resume-full [] m e = refl
hand_resume-full (w ∷ q) m e = let f : ltb m.running m.max_run ≡ false = ground arith in rw (f) refl

hand_resume-one :
    (w : ℕ) (q : List ℕ) (m : Manager)
    → suc m.running ≡ m.max_run
    → hand_resume (w ∷ q) m
      ≡ record m { running = suc m.running; resume_q = q; runs = modify w grant m.runs }
unfolding hand_resume
hand_resume-one w q m e =
    let f : ltb m.running m.max_run ≡ true = ground arith in
    rw (f)
      (hand_resume-full q (record m { running = suc m.running; runs = modify w grant m.runs }) e)

-- Who is next, while every slot is taken.
abbrev pub next_turn : List ℕ → List ℕ → Manager → Manager
next_turn (w ∷ q) q' m = record m { resume_q = q; runs = modify w grant m.runs }
next_turn [] (w ∷ q') m = record m { start_q = q'; runs = modify w grant m.runs }
next_turn [] [] m = record m { running = m.running - 1 }

hand_out-queues :
    (q q' : List ℕ) (k n : ℕ) (runs : List Run)
    → suc n ≡ k
    → hand_out (
        hand_resume q
          (record { max_run = k; running = n; resume_q = q; start_q = q'; runs = runs }))
      ≡ next_turn q q'
          (record { max_run = k; running = suc n; resume_q = q; start_q = q'; runs = runs })
unfolding hand_resume hand_start
hand_out-queues (w ∷ q) q' k n runs e =
    rw
      (hand_resume-one w q
        (record { max_run = k; running = n; resume_q = w ∷ q; start_q = q'; runs = runs }) e)
      (hand_start-full q' _ e)
hand_out-queues [] (w ∷ q') k n runs e =
    let f : ltb n k ≡ true = ground arith in
    rw (f) (
      hand_start-full q'
        (record {
          max_run = k;
          running = suc n;
          resume_q = [];
          start_q = w ∷ q';
          runs = modify w grant runs;
        })
        e)
hand_out-queues [] [] k n runs e = let p : suc n - 1 ≡ n = omega arith in rw (p) refl

-- While every slot is taken, one that is given back goes to the run that has waited longest to resume,
-- where none waits for that to the one that has waited longest to start, and where none waits at all
-- it is free.
pub release_locked_lem :
    (m : Manager)
    → 1 ≤ m.running
    → m.running ≡ m.max_run
    → release_locked m ≡ next_turn m.resume_q m.start_q m
unfolding release_locked
release_locked_lem m n e =
    let p : suc (m.running - 1) ≡ m.running = omega arith in
    subst (λ r. release_locked m ≡ next_turn m.resume_q m.start_q (record m { running = r })) p
      (hand_out-queues m.resume_q m.start_q m.max_run (m.running - 1) m.runs (omega arith))
