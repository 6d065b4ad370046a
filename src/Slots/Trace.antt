-- ===== src/Slots/Trace.antt =====
-- Any sequence of operations keeps the account of the slots.
use mcp_switchboard.Prelude.{
  ℕ, ◌≡◌, refl, not, ◌&&◌, List, [], ◌∷◌, some, arith, get_elem?, ltb, Option-cases, inl, inr,
  if_cases,
}
use mcp_switchboard.Slots.{
  Run, Manager, Op, submits, begins, asks, settles, gives_up, cancels, finishes, enters, leaves,
  begin, ask_now, settle_now, give_up_now, cancel, enter_now, leave_now, finish_now, at, step,
  steps, new,
}
use mcp_switchboard.Slots.Accounting.{IsOk}
use mcp_switchboard.Slots.Moves.{
  submits-IsOk, begin_now-IsOk, ask_now-IsOk, settle_now-IsOk, give_up-IsOk, cancel-IsOk,
  finish_now-IsOk, enter_wait-IsOk, leave_wait-IsOk,
}

at-IsOk :
    (i : ℕ) (f : Run → Manager → Manager) (m : Manager)
    → IsOk m
    → ((r : Run) → get_elem? m.runs i ≡ some r → IsOk (f r m))
    → IsOk (at i f m)
at-IsOk i f m ok h = elim (Option-cases (get_elem? m.runs i)) [
  | inl e ↦ rw (at, e) ok
  | inr (r, e) ↦ rw (at, e) (h r e)
]

pub step-IsOk : (x : Op) (m : Manager) → IsOk m → IsOk (step x m)
unfolding step
step-IsOk submits m ok = submits-IsOk m ok
step-IsOk (begins i) m ok = at-IsOk i (begin i) m ok (λ r g. begin_now-IsOk i r m g ok)
step-IsOk (asks i) m ok = at-IsOk i (ask_now i) m ok (λ r g. ask_now-IsOk i r m g ok)
step-IsOk (settles i) m ok = at-IsOk i (settle_now i) m ok (λ r g. settle_now-IsOk i r m g ok)
step-IsOk (gives_up i) m ok =
    at-IsOk i (give_up_now i) m ok
      (λ r g. if_cases IsOk r.cancelled _ _ (give_up-IsOk i r m g ok) (λ _. ok))
step-IsOk (cancels i) m ok = at-IsOk i (cancel i) m ok (λ r g. cancel-IsOk i r m g ok)
step-IsOk (finishes i) m ok = at-IsOk i (finish_now i) m ok (λ r g. finish_now-IsOk i r m g ok)
step-IsOk (enters approval i) m ok = at-IsOk i (enter_now approval i) m ok (λ r g.
    if_cases IsOk (r.started && not r.finished) _ _
      (λ h. enter_wait-IsOk i r m g ok approval (ground (arith, h)) (ground (arith, h))) (λ _. ok))
step-IsOk (leaves approval i) m ok = at-IsOk i (leave_now approval i) m ok (λ r g.
    if_cases IsOk (ltb 0 r.waiters) _ _
      (λ h. leave_wait-IsOk i r m g ok approval (ground (arith, h))) (λ _. ok))

new-IsOk : (max_run : ℕ) → IsOk (new max_run)
unfolding new
new-IsOk max_run = record {
  counted = refl;
  within = omega arith;
  listed = λ i. refl;
  busy = λ l. absurd (omega arith);
  conduct = refl;
}

steps-of : (xs : List Op) (m : Manager) → IsOk m → IsOk (steps xs m)
unfolding steps
steps-of [] m ok = ok
steps-of (x ∷ xs) m ok = steps-of xs (step x m) (step-IsOk x m ok)

-- However the runs interleave, `running` counts exactly the slots that runs have, there are never more
-- than the limit, the queues hold each run that blocks once and no other, a slot is free only while no
-- run waits for one, and every run that has started, has neither finished nor been cancelled and waits for
-- nothing has its slot or is getting it.
pub steps-IsOk : (max_run : ℕ) (xs : List Op) → IsOk (steps xs (new max_run))
steps-IsOk max_run xs = steps-of xs (new max_run) (new-IsOk max_run)
