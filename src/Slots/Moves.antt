-- ===== src/Slots/Moves.antt =====
-- Each operation on a run keeps the account of the slots.
use mcp_switchboard.Prelude.{
  ℕ, zero, suc, ◌+◌, ◌-◌, ◌≤◌, ◌≡◌, refl, Bool, true, false, ◌&&◌, ◌||◌, List, [], ◌∷◌, ◌++◌, some,
  arith, length, get_elem?, ltb, ◌==◌, if◌then◌else◌, Bool-cases, ◌⊎◌, inl, inr, all-modify,
  all-get, all-append, if_ind, if_cases,
}
use mcp_switchboard.Slots.{
  Seat, away, asking, queued, granted, taken, refused, Run, Manager, new_run, put, release_locked,
  remove_waiter, ask, give_up, occupy, leave_seat, settle, entered, enter_wait, left, leave_wait,
  ended, finish, submits, begin, ask_now, settle_now, cancel, finish_now, step,
}
use mcp_switchboard.Slots.Conduct.{sane, waits_in, waits_at}
use mcp_switchboard.Slots.Accounting.{
  IsOk, slots, slots_of, occurrences, put-IsOk, release-IsOk, slots-modify, waits_at-modify,
  waits_at-get,
}

occurrences-append :
    (i : ℕ) (q q' : List ℕ) → occurrences i (q ++ q') ≡ occurrences i q + occurrences i q'
occurrences-append i [] q' = omega arith
occurrences-append i (x ∷ q) q' = omega (arith, occurrences-append i q q')

occurrences-remove_waiter :
    (i j : ℕ) (q : List ℕ)
    → occurrences j (remove_waiter i q) ≡ occurrences j q - (if i == j then 1 else 0)
unfolding remove_waiter
occurrences-remove_waiter i j [] = ground arith
occurrences-remove_waiter i j (x ∷ q) = ground (arith, occurrences-remove_waiter i j q)

length-remove_waiter : (i : ℕ) (q : List ℕ) → length (remove_waiter i q) ≤ length q
unfolding remove_waiter
length-remove_waiter i [] = omega arith
length-remove_waiter i (x ∷ q) = ground (arith, length-remove_waiter i q)

slots-append : (runs runs' : List Run) → slots (runs ++ runs') ≡ slots runs + slots runs'
slots-append [] runs' = omega arith
slots-append (r ∷ runs) runs' = omega (arith, slots-append runs runs')

waits_at-submit : (i : ℕ) (runs : List Run) → waits_at i (runs ++ (new_run ∷ [])) ≡ waits_at i runs
waits_at-submit zero [] = refl
waits_at-submit (suc i) [] = refl
waits_at-submit zero (r ∷ runs) = refl
waits_at-submit (suc i) (r ∷ runs) = waits_at-submit i runs

pub submits-IsOk : (m : Manager) → IsOk m → IsOk (step submits m)
unfolding step sane
submits-IsOk m ok = record {
  counted = omega (arith, ok.counted, slots-append m.runs (new_run ∷ []));
  within = ok.within;
  listed = λ i. omega (arith, ok.listed i, waits_at-submit i m.runs);
  busy = ok.busy;
  conduct = ground (arith, all-append sane m.runs (new_run ∷ []), ok.conduct);
}

Seat-cases :
    (s : Seat)
    → (s ≡ away) ⊎ ((s ≡ asking) ⊎ ((s ≡ queued) ⊎ ((s ≡ granted) ⊎ ((s ≡ taken) ⊎ (s ≡ refused)))))
Seat-cases away = inl refl
Seat-cases asking = inr (inl refl)
Seat-cases queued = inr (inr (inl refl))
Seat-cases granted = inr (inr (inr (inl refl)))
Seat-cases taken = inr (inr (inr (inr (inl refl))))
Seat-cases refused = inr (inr (inr (inr (inr refl))))

module _ (i : ℕ) (r : Run) (m : Manager) (g : get_elem? m.runs i ≡ some r) (ok : IsOk m) where
  sane_here : sane r ≡ true
  sane_here = all-get sane i r m.runs g ok.conduct

  -- A run changes together with the count of slots and the queues.
  moved-IsOk :
      (r' : Run) (running : ℕ) (q q' : List ℕ)
      → sane r' ≡ true
      → running + slots_of r ≡ m.running + slots_of r'
      → running ≤ m.max_run
      → ((j : ℕ)
          → occurrences j q + occurrences j q' + (if i == j then waits_in r else 0)
            ≡ occurrences j m.resume_q
              + occurrences j m.start_q
              + (if i == j then waits_in r' else 0))
      → (1 ≤ length q + length q' → m.max_run ≤ running)
      → IsOk (put i r' (record m { running = running; resume_q = q; start_q = q' }))
  moved-IsOk r' running q q' s c w o b = record {
    counted = omega (arith, ok.counted, c, slots-modify i (λ _. r') r m.runs g);
    within = w;
    listed = λ j. ground (
      arith,
      ok.listed j,
      o j,
      waits_at-modify i j (λ _. r') r m.runs g,
      waits_at-get i r m.runs g,
    );
    busy = b;
    conduct = all-modify sane i (λ _. r') r m.runs g s ok.conduct;
  }

  begin-IsOk :
      r.seat ≡ away
      → r.started ≡ false
      → r.finished ≡ false
      → IsOk (put i (record r { seat = asking }) m)
  unfolding sane
  begin-IsOk e s f = put-IsOk i r _ m g ok (ground (arith, sane_here)) (ground arith) (ground arith)

  ask-IsOk : r.seat ≡ asking → IsOk (ask i r m)
  unfolding sane
  ask-IsOk e = elim (Bool-cases (ltb m.running m.max_run)) [
    | inl b ↦ rw (b) (
        moved-IsOk (record r { seat = taken }) (suc m.running) m.resume_q m.start_q
          (ground (arith, sane_here)) (ground arith) (ground arith) (λ j. ground arith)
          (λ l. ground (arith, ok.busy l)))
    | inr b ↦ rw (b) (
        if_ind IsOk r.acquiring _ _
          (moved-IsOk (record r { seat = queued }) m.running (m.resume_q ++ (i ∷ [])) m.start_q
            (ground (arith, sane_here)) (ground arith) ok.within
            (λ j. ground (arith, occurrences-append j m.resume_q (i ∷ []))) (λ _. ground arith))
          (moved-IsOk (record r { seat = queued }) m.running m.resume_q (m.start_q ++ (i ∷ []))
            (ground (arith, sane_here)) (ground arith) ok.within
            (λ j. ground (arith, occurrences-append j m.start_q (i ∷ []))) (λ _. ground arith)))
  ]

  settle-IsOk : (r.seat ≡ granted) ⊎ (r.seat ≡ taken) → IsOk (settle i r m)
  unfolding sane
  settle-IsOk e = elim (Bool-cases (r.acquiring && (ltb 0 r.waiters || r.finished))) [
    | inl b ↦ rw (b) (
        release-IsOk i r (leave_seat r) m g ok (ground (arith, sane_here))
          (ground (arith, sane_here)) (ground arith))
    | inr b ↦ rw (b) (
        put-IsOk i r (occupy r) m g ok (ground (arith, sane_here)) (ground (arith, sane_here))
          (ground arith))
  ]

  refused-IsOk : r.seat ≡ refused → IsOk (put i (leave_seat r) m)
  unfolding sane
  refused-IsOk e =
      put-IsOk i r (leave_seat r) m g ok (ground (arith, sane_here)) (ground arith) (ground arith)

  give_up_granted :
      r.cancelled ≡ true
      → r.seat ≡ granted
      → IsOk (release_locked (put i (record r { seat = refused }) m))
  unfolding sane
  give_up_granted c e =
      release-IsOk i r _ m g ok (ground (arith, sane_here)) (ground (arith, sane_here))
        (ground arith)

  give_up_queued :
      r.cancelled ≡ true
      → r.seat ≡ queued
      → IsOk (
          put i
            (record r { seat = refused })
            (record m {
              resume_q = remove_waiter i m.resume_q;
              start_q = remove_waiter i m.start_q;
            }))
  unfolding sane
  give_up_queued c e =
      moved-IsOk (record r { seat = refused }) m.running (remove_waiter i m.resume_q)
        (remove_waiter i m.start_q) (ground (arith, sane_here)) (ground arith) ok.within
        (λ j. ground (
          arith,
          occurrences-remove_waiter i j m.resume_q,
          occurrences-remove_waiter i j m.start_q,
          ok.listed j,
          waits_at-get i r m.runs g,
        ))
        (λ l.
          ok.busy
            (omega (arith, l, length-remove_waiter i m.resume_q, length-remove_waiter i m.start_q)))

  pub cancel-IsOk : IsOk (cancel i r m)
  unfolding sane
  cancel-IsOk = put-IsOk i r _ m g ok (ground (arith, sane_here)) refl refl

  pub enter_wait-IsOk :
      (approval : Bool) → r.started ≡ true → r.finished ≡ false → IsOk (enter_wait approval i r m)
  unfolding sane
  enter_wait-IsOk approval s f = elim (Bool-cases r.holds_slot) [
    | inl e ↦ rw (e) (
        release-IsOk i r (entered approval r) m g ok (ground (arith, sane_here)) (ground arith)
          refl)
    | inr e ↦
        rw (e)
          (put-IsOk i r (entered approval r) m g ok (ground (arith, sane_here)) (ground arith) refl)
  ]

  pub leave_wait-IsOk : (approval : Bool) → 1 ≤ r.waiters → IsOk (leave_wait approval i r m)
  unfolding sane
  leave_wait-IsOk approval w =
      put-IsOk i r (left approval r) m g ok (ground (arith, sane_here)) (ground (arith, sane_here))
        (ground (arith, sane_here))

  finish-IsOk : (r.seat ≡ away) ⊎ (r.started ≡ true) → IsOk (finish i r m)
  unfolding sane
  finish-IsOk s = elim (Bool-cases r.holds_slot) [
    | inl e ↦
        rw (e) (release-IsOk i r (ended r) m g ok (ground (arith, sane_here)) (ground arith) refl)
    | inr e ↦ rw (e) (put-IsOk i r (ended r) m g ok (ground (arith, sane_here)) (ground arith) refl)
  ]

  pub begin_now-IsOk : IsOk (begin i r m)
  begin_now-IsOk = elim (Seat-cases r.seat) [
    | inl e ↦
        rw (e) (
          if_cases IsOk _ _ _ (λ h. begin-IsOk e (ground (arith, h)) (ground (arith, h))) (λ _. ok))
    | inr (inl e) ↦ rw (e) ok
    | inr (inr (inl e)) ↦ rw (e) ok
    | inr (inr (inr (inl e))) ↦ rw (e) ok
    | inr (inr (inr (inr (inl e)))) ↦ rw (e) ok
    | inr (inr (inr (inr (inr e)))) ↦ rw (e) ok
  ]

  pub ask_now-IsOk : IsOk (ask_now i r m)
  ask_now-IsOk = elim (Seat-cases r.seat) [
    | inl e ↦ rw (e) ok
    | inr (inl e) ↦ rw (e) (ask-IsOk e)
    | inr (inr (inl e)) ↦ rw (e) ok
    | inr (inr (inr (inl e))) ↦ rw (e) ok
    | inr (inr (inr (inr (inl e)))) ↦ rw (e) ok
    | inr (inr (inr (inr (inr e)))) ↦ rw (e) ok
  ]

  pub settle_now-IsOk : IsOk (settle_now i r m)
  settle_now-IsOk = elim (Seat-cases r.seat) [
    | inl e ↦ rw (e) ok
    | inr (inl e) ↦ rw (e) ok
    | inr (inr (inl e)) ↦ rw (e) ok
    | inr (inr (inr (inl e))) ↦ rw (e) (settle-IsOk (inl e))
    | inr (inr (inr (inr (inl e)))) ↦ rw (e) (settle-IsOk (inr e))
    | inr (inr (inr (inr (inr e)))) ↦ rw (e) (refused-IsOk e)
  ]

  pub give_up-IsOk : r.cancelled ≡ true → IsOk (give_up i r m)
  give_up-IsOk c = elim (Seat-cases r.seat) [
    | inl e ↦ rw (e) ok
    | inr (inl e) ↦ rw (e) ok
    | inr (inr (inl e)) ↦ rw (e) (give_up_queued c e)
    | inr (inr (inr (inl e))) ↦ rw (e) (give_up_granted c e)
    | inr (inr (inr (inr (inl e)))) ↦ rw (e) ok
    | inr (inr (inr (inr (inr e)))) ↦ rw (e) ok
  ]

  pub finish_now-IsOk : IsOk (finish_now i r m)
  unfolding sane
  finish_now-IsOk = if_cases IsOk _ _ _ (λ h. finish-IsOk (ground (arith, h))) (λ _. ok)
