-- ===== src/Loki/Drain.antt =====
-- The loop that empties the queue when the exporter is closed.
use mcp_switchboard.Prelude.{
  ℕ, zero, suc, ◌+◌, ◌-◌, ◌≤◌, min, ◌≡◌, refl, sym, ap, ◌||◌, inl, inr, Bool, true, not, List, [],
  ◌∷◌, length, leb, ◌==◌, if◌then◌else◌, if_cases, if_ind, Bool-cases, length-drop, arith,
}
use mcp_switchboard.Loki.{
  Exporter, take_batch, start, stop, abandon, emit, post, Push, taken, failed, note_failure,
  note_success, Call, starting, stopping, abandoning, emitting, do_call, do_calls, Meanwhile,
  round_of, drain,
}

-- Nothing is queued any more: the exporter is closed, its batches as large as they were, and its queue no
-- longer than that.
record Shrinks (size n : ℕ) (e : Exporter) : Type 0 where
  pub closed : e.closed ≡ true
  pub same_size : e.batch_size ≡ size
  pub shorter : length e.queue ≤ n

module _ (size n : ℕ) where
  post-Shrinks : (p : Push) (e : Exporter) → Shrinks size n e → Shrinks size n (post p e)
  unfolding post note_success note_failure
  post-Shrinks taken e s =
      if_ind (Shrinks size n) e.failing _ _
        (record { closed = s.closed; same_size = s.same_size; shorter = s.shorter })
        (record { closed = s.closed; same_size = s.same_size; shorter = s.shorter })
  post-Shrinks (failed err) e s =
      if_ind (Shrinks size n) e.failing _ _
        (record { closed = s.closed; same_size = s.same_size; shorter = s.shorter })
        (record { closed = s.closed; same_size = s.same_size; shorter = s.shorter })

  do_call-Shrinks : (c : Call) (e : Exporter) → Shrinks size n e → Shrinks size n (do_call c e)
  unfolding do_call start stop abandon emit
  do_call-Shrinks starting e s =
      if_ind (Shrinks size n) (e.running || e.closed) _ _ s
        (record { closed = s.closed; same_size = s.same_size; shorter = s.shorter })
  do_call-Shrinks stopping e s = record {
    closed = refl;
    same_size = s.same_size;
    shorter = s.shorter;
  }
  do_call-Shrinks abandoning e s = record {
    closed = s.closed;
    same_size = s.same_size;
    shorter = omega arith;
  }
  do_call-Shrinks (emitting ent) e s =
      if_cases (Shrinks size n) (e.closed || leb e.queue_size (length e.queue)) _ _
        (λ h. record { closed = s.closed; same_size = s.same_size; shorter = s.shorter })
        (λ h. absurd (ground (arith, s.closed)))

  do_calls-Shrinks :
      (cs : List Call) (e : Exporter) → Shrinks size n e → Shrinks size n (do_calls cs e)
  do_calls-Shrinks [] e s = s
  do_calls-Shrinks (c ∷ cs) e s = do_calls-Shrinks cs (do_call c e) (do_call-Shrinks c e s)

-- A round leaves at most the events that it does not take.
round_of-Shrinks :
    (p : Push) (m : Meanwhile) (e : Exporter)
    → e.closed ≡ true
    → Shrinks e.batch_size (length e.queue - min (length e.queue) e.batch_size) (round_of p m e)
unfolding take_batch
round_of-Shrinks p m e c =
    let n = min (length e.queue) e.batch_size in
    let size = e.batch_size in
    let left = length e.queue - n in
    let e1 = take_batch e in
    let s1 : Shrinks size left e1 = record {
      closed = c;
      same_size = refl;
      shorter = omega (arith, length-drop n e.queue);
    } in
    let e2 = do_calls m.during e1 in
    let s2 = do_calls-Shrinks size left m.during e1 s1 in
    do_calls-Shrinks size left m.between (post p e2) (post-Shrinks size left p e2 s2)

drain-idle :
    (live : ℕ → Bool) (pushes : ℕ → Push) (others : ℕ → Meanwhile) (round f : ℕ) (e : Exporter)
    → length e.queue ≡ 0
    → drain live pushes others round f e ≡ e
unfolding drain
drain-idle live pushes others round zero e h = refl
drain-idle live pushes others round (suc f) e h =
    if_ind (λ (x : Exporter). x ≡ e) (not (live round)) _ _ refl
      (if_cases (λ (x : Exporter). x ≡ e) (length e.queue == 0) _ _ (λ z. refl)
        (λ z. absurd (ground arith)))

drain_enough :
    (live : ℕ → Bool) (pushes : ℕ → Push) (others : ℕ → Meanwhile) (round f g : ℕ) (e : Exporter)
    → e.closed ≡ true
    → 1 ≤ e.batch_size
    → length e.queue ≤ f
    → length e.queue ≤ g
    → drain live pushes others round f e ≡ drain live pushes others round g e
unfolding drain
drain_enough live pushes others round zero g e c b h k =
    sym (drain-idle live pushes others round g e (omega (arith, h)))
drain_enough live pushes others round (suc f) zero e c b h k =
    drain-idle live pushes others round (suc f) e (omega (arith, k))
drain_enough live pushes others round (suc f) (suc g) e c b h k =
    elim (Bool-cases (length e.queue == 0)) [
      | inl z ↦ rw (z) refl
      | inr z ↦
          let s = round_of-Shrinks (pushes round) (others round) e c in
          ap (λ x. if not (live round) then e else if length e.queue == 0 then e else x)
            (drain_enough live pushes others (suc round) f g
              (round_of (pushes round) (others round) e) s.closed (omega (arith, s.same_size, b))
              (ground (arith, s.shorter)) (ground (arith, s.shorter)))
    ]

drain-empties :
    (pushes : ℕ → Push) (others : ℕ → Meanwhile) (round f : ℕ) (e : Exporter)
    → e.closed ≡ true
    → 1 ≤ e.batch_size
    → length e.queue ≤ f
    → length (drain (λ i. true) pushes others round f e).queue ≡ 0
unfolding drain
drain-empties pushes others round zero e c b h = omega (arith, h)
drain-empties pushes others round (suc f) e c b h =
    if_cases (λ (x : Exporter). length x.queue ≡ 0) (length e.queue == 0) _ _ (λ z. ground arith)
      (λ z.
        let s = round_of-Shrinks (pushes round) (others round) e c in
        drain-empties pushes others (suc round) f (round_of (pushes round) (others round) e)
          s.closed (omega (arith, s.same_size, b)) (ground (arith, s.shorter)))

-- Once the exporter is closed, the loop makes at most one round for each event in the queue, however often
-- the context is asked, whatever Loki answers, and whatever others call between its critical sections: more
-- rounds make no difference. Where the context lives, it ends with an empty queue.
pub drain_ends :
    (live : ℕ → Bool) (pushes : ℕ → Push) (others : ℕ → Meanwhile) (round k : ℕ) (e : Exporter)
    → e.closed ≡ true
    → 1 ≤ e.batch_size
    → (drain live pushes others round (length e.queue + k) e
        ≡ drain live pushes others round (length e.queue) e)
      × (length (drain (λ i. true) pushes others round (length e.queue) e).queue ≡ 0)
drain_ends live pushes others round k e c b = (
  drain_enough live pushes others round (length e.queue + k) (length e.queue) e c b (omega arith)
      (omega arith),
  drain-empties pushes others round (length e.queue) e c b (omega arith),
)
