-- ===== src/Slots/Accounting.antt =====
-- Every slot is accounted for: `running` counts the runs that hold one, and the queues list the runs that
-- wait for one.
use mcp_switchboard.Prelude.{
  ℕ, zero, suc, ◌+◌, ◌-◌, ◌≤◌, ◌≡◌, true, List, [], ◌∷◌, some, arith, length, get_elem?, modify,
  ltb, ◌==◌, if◌then◌else◌, all, all-modify, Bool-cases, inl, inr,
}
use mcp_switchboard.Slots.Conduct.{sane, waits_in, waits_at, sane-grant}
use mcp_switchboard.Slots.{
  Seat, granted, taken, Run, Manager, put, grant, hand_resume, hand_start, release_locked,
}

abbrev seat_slots : Seat → ℕ
seat_slots granted = 1
seat_slots taken = 1
seat_slots _ = 0

-- The slots that a run has: one that it holds, or one that `acquire` has got for it.
abbrev pub slots_of : Run → ℕ
slots_of r = (if r.holds_slot then 1 else 0) + seat_slots r.seat

abbrev pub slots : List Run → ℕ
slots [] = 0
slots (r ∷ runs) = slots_of r + slots runs

abbrev pub occurrences : ℕ → List ℕ → ℕ
occurrences i [] = 0
occurrences i (x ∷ q) = (if x == i then 1 else 0) + occurrences i q

-- The queues hold each run that waits once, and no other.
abbrev pub Listed : List ℕ → List ℕ → List Run → Type 0
Listed q q' runs = (i : ℕ) → occurrences i q + occurrences i q' ≡ waits_at i runs

-- What the lock protects.
pub record IsOk (m : Manager) : Type 0 where
  pub counted : m.running ≡ slots m.runs
  pub within : m.running ≤ m.max_run
  pub listed : Listed m.resume_q m.start_q m.runs
  pub busy : 1 ≤ length m.resume_q + length m.start_q → m.max_run ≤ m.running
  pub conduct : all sane m.runs ≡ true

pub slots-modify :
    (i : ℕ) (g : Run → Run) (r : Run) (runs : List Run)
    → get_elem? runs i ≡ some r
    → slots (modify i g runs) + slots_of r ≡ slots runs + slots_of (g r)
slots-modify i g r [] h = absurd (ground arith)
slots-modify zero g r (x ∷ runs) h = ground arith
slots-modify (suc i) g r (x ∷ runs) h = omega (arith, slots-modify i g r runs h)

pub waits_at-modify :
    (i j : ℕ) (g : Run → Run) (r : Run) (runs : List Run)
    → get_elem? runs i ≡ some r
    → waits_at j (modify i g runs) ≡ (if i == j then waits_in (g r) else waits_at j runs)
waits_at-modify i j g r [] h = absurd (ground arith)
waits_at-modify zero zero g r (x ∷ runs) h = ground arith
waits_at-modify zero (suc j) g r (x ∷ runs) h = ground arith
waits_at-modify (suc i) zero g r (x ∷ runs) h = ground arith
waits_at-modify (suc i) (suc j) g r (x ∷ runs) h = ground (arith, waits_at-modify i j g r runs h)

pub waits_at-get :
    (i : ℕ) (r : Run) (runs : List Run) → get_elem? runs i ≡ some r → waits_at i runs ≡ waits_in r
waits_at-get i r [] h = absurd (ground arith)
waits_at-get zero r (x ∷ runs) h = ground arith
waits_at-get (suc i) r (x ∷ runs) h = waits_at-get i r runs h

slots-grant :
    (i : ℕ) (runs : List Run) → 1 ≤ waits_at i runs → slots (modify i grant runs) ≡ suc (slots runs)
slots-grant i [] h = absurd (omega arith)
slots-grant zero (x ∷ runs) h = ground arith
slots-grant (suc i) (x ∷ runs) h = omega (arith, slots-grant i runs h)

pub waits_at-grant :
    (i j : ℕ) (runs : List Run)
    → 1 ≤ waits_at i runs
    → waits_at j (modify i grant runs) + (if i == j then 1 else 0) ≡ waits_at j runs
waits_at-grant i j [] h = absurd (omega arith)
waits_at-grant zero zero (x ∷ runs) h = ground arith
waits_at-grant zero (suc j) (x ∷ runs) h = ground arith
waits_at-grant (suc i) zero (x ∷ runs) h = ground arith
waits_at-grant (suc i) (suc j) (x ∷ runs) h = ground (arith, waits_at-grant i j runs h)

-- What holds between a slot's release and its passing on, with the rest of a queue in hand.
record Handing (q q' : List ℕ) (m : Manager) : Type 0 where
  counted : m.running ≡ slots m.runs
  within : m.running ≤ m.max_run
  listed : Listed q q' m.runs
  conduct : all sane m.runs ≡ true

head_waits :
    (w : ℕ) (q q' : List ℕ) (runs : List Run) → Listed (w ∷ q) q' runs → 1 ≤ waits_at w runs
head_waits w q q' runs l = ground (arith, l w)

Listed-grant :
    (w : ℕ) (q q' : List ℕ) (runs : List Run)
    → Listed (w ∷ q) q' runs
    → Listed q q' (modify w grant runs)
Listed-grant w q q' runs l i =
    ground (arith, l i, waits_at-grant w i runs (head_waits w q q' runs l))

Listed-swap : (q q' : List ℕ) (runs : List Run) → Listed q q' runs → Listed q' q runs
Listed-swap q q' runs l i = omega (arith, l i)

record Resumed (m : Manager) : Type 0 where
  handing : Handing m.resume_q m.start_q m
  busy : 1 ≤ length m.resume_q → m.max_run ≤ m.running

hand_resume-Resumed : (q : List ℕ) (m : Manager) → Handing q m.start_q m → Resumed (hand_resume q m)
unfolding hand_resume
hand_resume-Resumed [] m h = record {
  handing = record {
    counted = h.counted;
    within = h.within;
    listed = h.listed;
    conduct = h.conduct;
  };
  busy = λ l. absurd (omega arith);
}
hand_resume-Resumed (w ∷ q) m h = elim (Bool-cases (ltb m.running m.max_run)) [
  | inl e ↦ rw (e) (
      hand_resume-Resumed q (record m { running = suc m.running; runs = modify w grant m.runs })
        (record {
          counted =
              omega
                (arith, h.counted, slots-grant w m.runs (head_waits w q m.start_q m.runs h.listed));
          within = ground arith;
          listed = Listed-grant w q m.start_q m.runs h.listed;
          conduct = sane-grant w m.runs (head_waits w q m.start_q m.runs h.listed) h.conduct;
        }))
  | inr e ↦ rw (e) (record {
    handing = record {
      counted = h.counted;
      within = h.within;
      listed = h.listed;
      conduct = h.conduct;
    };
    busy = λ _. ground arith;
  })
]

hand_start-IsOk :
    (q : List ℕ) (m : Manager)
    → Handing m.resume_q q m
    → (1 ≤ length m.resume_q → m.max_run ≤ m.running)
    → IsOk (hand_start q m)
unfolding hand_start
hand_start-IsOk [] m h b = record {
  counted = h.counted;
  within = h.within;
  listed = h.listed;
  conduct = h.conduct;
  busy = λ l. b (omega arith);
}
hand_start-IsOk (w ∷ q) m h b = elim (Bool-cases (ltb m.running m.max_run)) [
  | inl e ↦
      let l = Listed-swap m.resume_q (w ∷ q) m.runs h.listed in
      rw (e) (
        hand_start-IsOk q (record m { running = suc m.running; runs = modify w grant m.runs })
          (record {
            counted =
                omega (arith, h.counted, slots-grant w m.runs (head_waits w q m.resume_q m.runs l));
            within = ground arith;
            listed = Listed-swap q m.resume_q _ (Listed-grant w q m.resume_q m.runs l);
            conduct = sane-grant w m.runs (head_waits w q m.resume_q m.runs l) h.conduct;
          })
          (λ n. omega (arith, b n)))
  | inr e ↦ rw (e) (record {
    counted = h.counted;
    within = h.within;
    listed = h.listed;
    conduct = h.conduct;
    busy = λ _. ground arith;
  })
]

-- A slot that no run has any more goes to the next waiter, or is free.
release_locked-IsOk :
    (m : Manager)
    → m.running ≡ suc (slots m.runs)
    → m.running ≤ m.max_run
    → Listed m.resume_q m.start_q m.runs
    → all sane m.runs ≡ true
    → IsOk (release_locked m)
unfolding release_locked
release_locked-IsOk m c w l s =
    let r =
      hand_resume-Resumed m.resume_q (record m { running = m.running - 1 })
        (record { counted = omega (arith, c); within = omega arith; listed = l; conduct = s }) in
    hand_start-IsOk _ _ r.handing r.busy

module _ (i : ℕ) (r r' : Run) (m : Manager) (g : get_elem? m.runs i ≡ some r) (ok : IsOk m) where
  listed_put : waits_in r' ≡ waits_in r → Listed m.resume_q m.start_q (modify i (λ _. r') m.runs)
  listed_put w j =
      ground
        (arith, ok.listed j, waits_at-modify i j (λ _. r') r m.runs g, waits_at-get i r m.runs g)

  -- A run changes, and no slot of it comes or goes.
  pub put-IsOk :
      sane r' ≡ true → slots_of r' ≡ slots_of r → waits_in r' ≡ waits_in r → IsOk (put i r' m)
  put-IsOk s e w = record {
    counted = omega (arith, ok.counted, e, slots-modify i (λ _. r') r m.runs g);
    within = ok.within;
    listed = listed_put w;
    busy = ok.busy;
    conduct = all-modify sane i (λ _. r') r m.runs g s ok.conduct;
  }

  -- A run loses its slot, which is released.
  pub release-IsOk :
      sane r' ≡ true
      → slots_of r ≡ suc (slots_of r')
      → waits_in r' ≡ waits_in r
      → IsOk (release_locked (put i r' m))
  release-IsOk s e w =
      release_locked-IsOk (put i r' m)
        (omega (arith, ok.counted, e, slots-modify i (λ _. r') r m.runs g)) ok.within (listed_put w)
        (all-modify sane i (λ _. r') r m.runs g s ok.conduct)
