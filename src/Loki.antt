-- ===== src/Loki.antt =====
-- The exporter of structured events to Loki, hub/internal/loki/loki.go. Its events are numbered where they
-- stand; what an event says is in Loki/Redaction and Loki/Labels.
pub mod Accounting
pub mod Loss
pub mod Drain
pub mod Outage
pub mod Closing
pub mod Redaction
pub mod Labels
pub mod Payload
use mcp_switchboard.Prelude.{
  ℕ, zero, suc, ◌+◌, ◌-◌, min, ◌≡◌, Bool, true, false, not, ◌&&◌, ◌||◌, List, [], ◌∷◌, ◌++◌, Text,
  Map, length, take, drop, leb, ◌==◌, if◌then◌else◌,
}

pub record Entry : Type 0 where
  pub ts_nanos : ℕ
  pub stream : Text
  pub labels : Map Text
  pub line : Text

-- What the exporter writes to the hub's own log: with the error, and with the number of failed batches.
pub data Note : Type 0 where
  warned : Text → Note
  recovered : ℕ → Note

-- The exporter, once it is enabled. `drops` is the counter that it was given, `sent` what Loki has taken
-- and `log` the hub's log. `batch` is the one that the pusher has taken off the queue, none being empty.
pub record Exporter : Type 0 where
  pub batch_size : ℕ
  pub queue_size : ℕ
  pub queue : List Entry
  pub closed : Bool
  pub running : Bool
  pub failing : Bool
  pub failed_batches : ℕ
  pub batch : List Entry
  pub drops : ℕ
  pub sent : List Entry
  pub log : List Note

-- `orDefaultInt`, of a count: what is not positive is 0.
abbrev or_default_int : ℕ → ℕ → ℕ
or_default_int v def = if v == 0 then def else v

unfoldable pub new : ℕ → ℕ → Exporter
new batch_size queue_size = record {
  batch_size = or_default_int batch_size 100;
  queue_size = or_default_int queue_size 10000;
  queue = [];
  closed = false;
  running = false;
  failing = false;
  failed_batches = 0;
  batch = [];
  drops = 0;
  sent = [];
  log = [];
}

-- `drop`. The counter is one that works.
abbrev pub drop_events : ℕ → Exporter → Exporter
drop_events n e = record e { drops = e.drops + n }

-- `Start`, on an exporter that is enabled.
unfoldable pub start : Exporter → Exporter
start e = if e.running || e.closed then e else record e { running = true }

-- `Emit`, without the wake-up.
unfoldable pub emit : Entry → Exporter → Exporter
emit ent e =
    if e.closed || leb e.queue_size (length e.queue)
    then drop_events 1 e
    else record e { queue = e.queue ++ (ent ∷ []) }

-- Whether `Emit` wakes the pusher: it queued the event, and there is a batch.
abbrev pub wakes : Exporter → Bool
wakes e =
    not (e.closed || leb e.queue_size (length e.queue)) && leb e.batch_size (suc (length e.queue))

-- The critical section of `drain`.
unfoldable pub take_batch : Exporter → Exporter
take_batch e =
    let n = min (length e.queue) e.batch_size in
    record e { batch = take n e.queue; queue = drop n e.queue }

unfoldable pub note_failure : Text → Exporter → Exporter
note_failure err e =
    if e.failing then record e { failed_batches = suc e.failed_batches } else record e {
      failed_batches = suc e.failed_batches;
      failing = true;
      log = e.log ++ (warned err ∷ []);
    }

unfoldable pub note_success : Exporter → Exporter
note_success e =
    if e.failing
    then record e {
      log = e.log ++ (recovered e.failed_batches ∷ []);
      failing = false;
      failed_batches = 0;
    }
    else e

-- How a push ends: Loki takes it, or it is an error, of whichever of the four kinds.
pub data Push : Type 0 where
  taken : Push
  failed : Text → Push

-- `post`, of the batch that the pusher holds.
unfoldable pub post : Push → Exporter → Exporter
unfolding note_success note_failure
post taken e = note_success (record e { sent = e.sent ++ e.batch; batch = [] })
post (failed err) e = note_failure err (record (drop_events (length e.batch) e) { batch = [] })

-- The two critical sections of `Close`: no more events are queued, and what is left is lost.
unfoldable pub stop : Exporter → Exporter
stop e = record e { closed = true }

unfoldable pub abandon : Exporter → Exporter
abandon e = drop_events (length e.queue) (record e { queue = [] })

-- What other goroutines do while the pusher drains: `Start`, `Emit`, and the critical sections of `Close`.
pub data Call : Type 0 where
  starting stopping abandoning : Call
  emitting : Entry → Call

unfoldable pub do_call : Call → Exporter → Exporter
unfolding start stop abandon emit
do_call starting e = start e
do_call stopping e = stop e
do_call abandoning e = abandon e
do_call (emitting ent) e = emit ent e

abbrev pub do_calls : List Call → Exporter → Exporter
do_calls [] e = e
do_calls (c ∷ cs) e = do_calls cs (do_call c e)

-- The calls of others in a round: while the batch is pushed, and then until the next critical section.
pub record Meanwhile : Type 0 where
  pub during : List Call
  pub between : List Call

-- A round of the loop of `drain`, which holds the lock only while it takes the batch.
abbrev pub round_of : Push → Meanwhile → Exporter → Exporter
round_of p m e = do_calls m.between (post p (do_calls m.during (take_batch e)))

-- The loop of `drain`: a round for each element of `fuel`, as long as the context lives. The answers of
-- Loki and the calls of others are given by the number of the round.
unfoldable pub drain : (ℕ → Bool) → (ℕ → Push) → (ℕ → Meanwhile) → ℕ → ℕ → Exporter → Exporter
unfolding take_batch post do_call
drain live pushes others round zero e = e
drain live pushes others round (suc fuel) e =
    let rest =
      drain live pushes others (suc round) fuel (round_of (pushes round) (others round) e) in
    if not (live round) then e else if length e.queue == 0 then e else rest

-- Any step of those that may interleave: of a caller, of the pusher, which takes a batch when it holds
-- none, and of a closer.
pub data Step : Type 0 where
  started stopped took abandoned : Step
  emitted : Entry → Step
  pushed : Push → Step

abbrev pub has_batch : Exporter → Bool
has_batch e = elim e.batch [ [] ↦ false | _ ∷ _ ↦ true ]

unfoldable pub step : Step → Exporter → Exporter
unfolding start emit take_batch post stop abandon
step started e = start e
step stopped e = stop e
step took e = if has_batch e then e else take_batch e
step abandoned e = abandon e
step (emitted ent) e = emit ent e
step (pushed p) e = post p e

abbrev pub steps : List Step → Exporter → Exporter
steps [] e = e
steps (s ∷ ss) e = steps ss (step s e)
