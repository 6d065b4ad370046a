-- ===== src/Slots.antt =====
-- The concurrency slots of hub/internal/agents/manager.go: which runs may work at the same time. A run
-- is an index into the list of all runs, which stands for its pointer. Each operation is one stretch of
-- the code under the manager's lock, so that any interleaving of the runs is a sequence of operations.
pub mod Accounting
pub mod Conduct
pub mod Status
pub mod Moves
pub mod Trace
pub mod Turns
use mcp_switchboard.Prelude.{
  ℕ, zero, suc, ◌+◌, ◌-◌, Bool, true, false, not, ◌&&◌, ◌||◌, List, [], ◌∷◌, ◌++◌, Option, none,
  some, get_elem?, modify, ltb, ◌==◌, if◌then◌else◌,
}

-- How far a call of `acquire` for a run has come: none is in progress, it has yet to take the lock, it
-- blocks on its waiter, that waiter has been granted, it took a slot at once, or it gave up.
pub data Seat : Type 0 where
  away asking queued granted taken refused : Seat

-- The part of a run's state that the scheduler reads. `cancelled` is its context's.
pub record Run : Type 0 where
  pub seat : Seat
  pub started : Bool
  pub finished : Bool
  pub cancelled : Bool
  pub holds_slot : Bool
  pub acquiring : Bool
  pub waiters : ℕ
  pub approval_waiters : ℕ

pub record Manager : Type 0 where
  pub max_run : ℕ
  pub running : ℕ
  pub resume_q : List ℕ
  pub start_q : List ℕ
  pub runs : List Run

abbrev pub new_run : Run
new_run = record {
  seat = away;
  started = false;
  finished = false;
  cancelled = false;
  holds_slot = false;
  acquiring = false;
  waiters = 0;
  approval_waiters = 0;
}

abbrev pub put : ℕ → Run → Manager → Manager
put i r m = record m { runs = modify i (λ _. r) m.runs }

-- `w.granted = true` and its channel closed.
abbrev pub grant : Run → Run
grant r = record r { seat = granted }

-- The loop of `releaseLocked` while it takes waiters from the first queue, and from the second.
unfoldable pub hand_resume : List ℕ → Manager → Manager
hand_resume [] m = record m { resume_q = [] }
hand_resume (w ∷ q) m =
    let rest = hand_resume q (record m { running = suc m.running; runs = modify w grant m.runs }) in
    if ltb m.running m.max_run then rest else record m { resume_q = w ∷ q }

unfoldable pub hand_start : List ℕ → Manager → Manager
hand_start [] m = record m { start_q = [] }
hand_start (w ∷ q) m =
    let rest = hand_start q (record m { running = suc m.running; runs = modify w grant m.runs }) in
    if ltb m.running m.max_run then rest else record m { start_q = w ∷ q }

abbrev pub hand_out : Manager → Manager
hand_out m = hand_start m.start_q m

unfoldable pub release_locked : Manager → Manager
unfolding hand_resume hand_start
release_locked m = hand_out (hand_resume m.resume_q (record m { running = m.running - 1 }))

unfoldable pub remove_waiter : ℕ → List ℕ → List ℕ
remove_waiter i [] = []
remove_waiter i (x ∷ q) = if x == i then q else x ∷ remove_waiter i q

-- The first half of `acquire`: a slot at once, or a place at the end of a queue.
abbrev pub ask : ℕ → Run → Manager → Manager
ask i r m =
    if ltb m.running m.max_run
    then put i (record r { seat = taken }) (record m { running = suc m.running })
    else if r.acquiring
    then put i (record r { seat = queued }) (record m { resume_q = m.resume_q ++ (i ∷ []) })
    else put i (record r { seat = queued }) (record m { start_q = m.start_q ++ (i ∷ []) })

-- The second half where the context ends first.
abbrev pub give_up : ℕ → Run → Manager → Manager
give_up i r m = elim r.seat [
  | granted ↦ release_locked (put i (record r { seat = refused }) m)
  | queued ↦
      put i (record r { seat = refused })
        (record m { resume_q = remove_waiter i m.resume_q; start_q = remove_waiter i m.start_q })
  | _ ↦ m
]

-- After the `acquire` of `execute`, the one without `acquiring`, the run has started.
abbrev pub occupy : Run → Run
occupy r = record r {
  seat = away;
  acquiring = false;
  holds_slot = true;
  started = not r.acquiring || r.started;
}

abbrev pub leave_seat : Run → Run
leave_seat r = record r { seat = away; acquiring = false }

-- What `execute` and `leaveWait` do once `acquire` has returned without an error.
abbrev pub settle : ℕ → Run → Manager → Manager
settle i r m =
    if r.acquiring && (ltb 0 r.waiters || r.finished)
    then release_locked (put i (leave_seat r) m)
    else put i (occupy r) m

abbrev pub one_more : Bool → ℕ → ℕ
one_more b n = if b then suc n else n

abbrev pub one_less : Bool → ℕ → ℕ
one_less b n = if b then n - 1 else n

abbrev pub entered : Bool → Run → Run
entered approval r = record r {
  waiters = suc r.waiters;
  approval_waiters = one_more approval r.approval_waiters;
  holds_slot = false;
}

abbrev pub enter_wait : Bool → ℕ → Run → Manager → Manager
enter_wait approval i r m =
    if r.holds_slot
    then release_locked (put i (entered approval r) m)
    else put i (entered approval r) m

-- The last wait is over, and nothing else gets the run its slot back.
abbrev pub needs_slot : Run → Bool
needs_slot r = r.waiters == 1 && not r.holds_slot && not r.acquiring && not r.finished

abbrev pub left : Bool → Run → Run
left approval r = record r {
  waiters = r.waiters - 1;
  approval_waiters = one_less approval r.approval_waiters;
  seat = if needs_slot r then asking else r.seat;
  acquiring = needs_slot r || r.acquiring;
}

-- The first half of `leaveWait`: the other is an `acquire`.
abbrev pub leave_wait : Bool → ℕ → Run → Manager → Manager
leave_wait approval i r m = put i (left approval r) m

abbrev pub ended : Run → Run
ended r = record r { finished = true; holds_slot = false }

-- The scheduler's part of `finish`.
abbrev pub finish : ℕ → Run → Manager → Manager
finish i r m = if r.holds_slot then release_locked (put i (ended r) m) else put i (ended r) m

-- What can happen next. The guard of `step` is where the run's own code stands.
pub data Op : Type 0 where
  submits : Op
  begins asks settles gives_up cancels finishes : ℕ → Op
  enters leaves : Bool → ℕ → Op

abbrev pub at : ℕ → (Run → Manager → Manager) → Manager → Manager
at i f m = elim (get_elem? m.runs i) [ none ↦ m | some r ↦ f r m ]

-- `execute` calls `acquire`.
abbrev pub begin : ℕ → Run → Manager → Manager
begin i r m = elim r.seat [
  | away ↦ if not r.started && not r.finished then put i (record r { seat = asking }) m else m
  | _ ↦ m
]

abbrev pub ask_now : ℕ → Run → Manager → Manager
ask_now i r m = elim r.seat [ asking ↦ ask i r m | _ ↦ m ]

abbrev pub settle_now : ℕ → Run → Manager → Manager
settle_now i r m = elim r.seat [
  | granted ↦ settle i r m
  | taken ↦ settle i r m
  | refused ↦ put i (leave_seat r) m
  | _ ↦ m
]

abbrev pub give_up_now : ℕ → Run → Manager → Manager
give_up_now i r m = if r.cancelled then give_up i r m else m

abbrev pub cancel : ℕ → Run → Manager → Manager
cancel i r m = put i (record r { cancelled = true }) m

abbrev pub enter_now : Bool → ℕ → Run → Manager → Manager
enter_now approval i r m = if r.started && not r.finished then enter_wait approval i r m else m

abbrev pub leave_now : Bool → ℕ → Run → Manager → Manager
leave_now approval i r m = if ltb 0 r.waiters then leave_wait approval i r m else m

abbrev pub is_away : Seat → Bool
is_away away = true
is_away _ = false

-- A run's goroutine finishes it after `execute`, never inside its first `acquire`.
abbrev pub finish_now : ℕ → Run → Manager → Manager
finish_now i r m = if not r.finished && (is_away r.seat || r.started) then finish i r m else m

unfoldable pub step : Op → Manager → Manager
unfolding release_locked remove_waiter
step submits m = record m { runs = m.runs ++ (new_run ∷ []) }
step (begins i) m = at i (begin i) m
step (asks i) m = at i (ask_now i) m
step (settles i) m = at i (settle_now i) m
step (gives_up i) m = at i (give_up_now i) m
step (cancels i) m = at i (cancel i) m
step (finishes i) m = at i (finish_now i) m
step (enters approval i) m = at i (enter_now approval i) m
step (leaves approval i) m = at i (leave_now approval i) m

unfoldable pub steps : List Op → Manager → Manager
unfolding step
steps [] m = m
steps (x ∷ xs) m = steps xs (step x m)

-- `New`: 16 slots where the setting is not positive.
unfoldable pub new : ℕ → Manager
new max_run = record {
  max_run = if max_run == 0 then 16 else max_run;
  running = 0;
  resume_q = [];
  start_q = [];
  runs = [];
}
