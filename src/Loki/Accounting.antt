-- ===== src/Loki/Accounting.antt =====
-- Where every event of a history is.
use mcp_switchboard.Prelude.{
  ℕ, ◌+◌, ◌≤◌, min, ◌≡◌, refl, true, false, ◌||◌, List, [], ◌∷◌, ◌++◌, Text, suc, sym, ap, ◌∙◌,
  take, drop, length, leb, if_cases, length-append, length-take, length-drop, arith,
}
use mcp_switchboard.Loki.Loss.{
  LeavesOut, cast, append_lost, append_kept, lose, append_assoc, append_nil, take-drop,
}
use mcp_switchboard.Loki.{
  Entry, Exporter, new, emit, start, take_batch, post, taken, failed, note_failure, note_success,
  stop, abandon, Step, started, stopped, took, abandoned, emitted, pushed, step, steps, has_batch,
}

-- The events that are not lost: those that Loki has taken, those of the batch on its way, and the queue.
abbrev pub kept : Exporter → List Entry
kept e = e.sent ++ (e.batch ++ e.queue)

-- An exporter that was given these events: they are those that it has kept, each once and in their order,
-- and as many others as its counter of drops tells of.
abbrev pub Accounts : List Entry → Exporter → Type 0
Accounts given e = LeavesOut (kept e) e.drops given

-- The bounds of what waits.
pub record IsBounded (e : Exporter) : Type 0 where
  pub queued : length e.queue ≤ e.queue_size
  pub held : length e.batch ≤ e.batch_size

-- The events that steps emit, behind those that were before.
abbrev pub noted : List Entry → Step → List Entry
noted given (emitted ent) = given ++ (ent ∷ [])
noted given _ = given

abbrev pub emits : List Entry → List Step → List Entry
emits given [] = given
emits given (s ∷ ss) = emits (noted given s) ss

-- One step accounts for the event that it was given, keeps the bounds, and leaves the sizes.
pub record Kept (s : Step) (e e' : Exporter) : Type 0 where
  pub account : (given : List Entry) → Accounts given e → Accounts (noted given s) e'
  pub bounds : IsBounded e'
  size : e'.queue_size ≡ e.queue_size

has_batch_lem : (e : Exporter) → has_batch e ≡ false → e.batch ≡ []
has_batch_lem e h =
    elim e.batch as (λ bs. (elim bs [ [] ↦ false | _ ∷ _ ↦ true ]) ≡ false → bs ≡ []) [
      | [] ↦ λ h. refl
      | b ∷ bs ↦ λ h. absurd (ground arith)
    ]
      h

module _ (e : Exporter) (b : IsBounded e) where
  emit-Kept : (ent : Entry) → Kept (emitted ent) e (emit ent e)
  unfolding emit
  emit-Kept ent =
      let longer : List Entry = e.queue ++ (ent ∷ []) in
      let moved : kept e ++ (ent ∷ []) ≡ e.sent ++ (e.batch ++ longer) =
        append_assoc e.sent (e.batch ++ e.queue) (ent ∷ [])
        ∙ ap (λ r. e.sent ++ r) (append_assoc e.batch e.queue (ent ∷ [])) in
      if_cases (Kept (emitted ent) e) (e.closed || leb e.queue_size (length e.queue)) _ _
        (λ h. record {
          account = λ given l.
              cast (kept e) (kept e) (suc e.drops) (e.drops + 1) (given ++ (ent ∷ [])) refl
                (omega arith) (append_lost (kept e) e.drops given ent l);
          bounds = record { queued = b.queued; held = b.held };
          size = refl;
        })
        (λ h. record {
          account = λ given l.
              cast (kept e ++ (ent ∷ [])) (e.sent ++ (e.batch ++ longer)) e.drops e.drops
                (given ++ (ent ∷ [])) moved refl (append_kept (kept e) e.drops given ent l);
          bounds = record {
            queued = ground (arith, length-append e.queue (ent ∷ []));
            held = b.held;
          };
          size = refl;
        })

  start-Kept : Kept started e (start e)
  unfolding start
  start-Kept =
      if_cases (Kept started e) (e.running || e.closed) _ _
        (λ h. record { account = λ given l. l; bounds = b; size = refl })
        (λ h. record {
          account = λ given l. l;
          bounds = record { queued = b.queued; held = b.held };
          size = refl;
        })

  take_batch-Kept : e.batch ≡ [] → Kept took e (take_batch e)
  unfolding take_batch
  take_batch-Kept empty =
      let n = min (length e.queue) e.batch_size in
      let same : e.batch ++ e.queue ≡ take n e.queue ++ drop n e.queue =
        ap (λ r. r ++ e.queue) empty ∙ sym (take-drop n e.queue) in
      record {
        account = λ given l.
            cast (kept e) (e.sent ++ (take n e.queue ++ drop n e.queue)) e.drops e.drops given
              (ap (λ r. e.sent ++ r) same) refl l;
        bounds = record {
          queued = ground (arith, b.queued, length-drop n e.queue);
          held = ground (arith, length-take n e.queue);
        };
        size = refl;
      }

  taken-Kept : Kept (pushed taken) e (post taken e)
  unfolding post note_success
  taken-Kept =
      let account : (given : List Entry)
          → Accounts given e
          → LeavesOut ((e.sent ++ e.batch) ++ e.queue) e.drops given =
        λ given l.
          cast (kept e) ((e.sent ++ e.batch) ++ e.queue) e.drops e.drops given
            (sym (append_assoc e.sent e.batch e.queue)) refl l in
      if_cases (Kept (pushed taken) e) e.failing _ _
        (λ h. record {
          account = account;
          bounds = record { queued = b.queued; held = ground arith };
          size = refl;
        })
        (λ h. record {
          account = account;
          bounds = record { queued = b.queued; held = ground arith };
          size = refl;
        })

  failed-Kept : (err : Text) → Kept (pushed (failed err)) e (post (failed err) e)
  unfolding post note_failure
  failed-Kept err =
      if_cases (Kept (pushed (failed err)) e) e.failing _ _
        (λ h. record {
          account = λ given l. lose e.sent e.batch e.queue e.drops given l;
          bounds = record { queued = b.queued; held = ground arith };
          size = refl;
        })
        (λ h. record {
          account = λ given l. lose e.sent e.batch e.queue e.drops given l;
          bounds = record { queued = b.queued; held = ground arith };
          size = refl;
        })

  abandon-Kept : Kept abandoned e (abandon e)
  unfolding abandon
  abandon-Kept =
      let front : List Entry = e.sent ++ e.batch in
      let apart : kept e ≡ front ++ (e.queue ++ []) =
        sym (append_assoc e.sent e.batch e.queue)
        ∙ ap (λ r. front ++ r) (sym (append_nil e.queue)) in
      record {
        account = λ given l.
            cast (front ++ []) (e.sent ++ (e.batch ++ [])) (e.drops + length e.queue)
              (e.drops + length e.queue) given (append_assoc e.sent e.batch []) refl
              (lose front e.queue [] e.drops given
                (cast (kept e) (front ++ (e.queue ++ [])) e.drops e.drops given apart refl l));
        bounds = record { queued = ground arith; held = b.held };
        size = refl;
      }

  pub step-Kept : (s : Step) → Kept s e (step s e)
  unfolding step stop
  step-Kept started = start-Kept
  step-Kept stopped = record {
    account = λ given l. l;
    bounds = record { queued = b.queued; held = b.held };
    size = refl;
  }
  step-Kept took =
      if_cases (Kept took e) (has_batch e) _ _
        (λ h. record { account = λ given l. l; bounds = b; size = refl })
        (λ h. take_batch-Kept (has_batch_lem e h))
  step-Kept abandoned = abandon-Kept
  step-Kept (emitted ent) = emit-Kept ent
  step-Kept (pushed taken) = taken-Kept
  step-Kept (pushed (failed err)) = failed-Kept err

pub steps-Accounts :
    (ss : List Step) (e : Exporter) (given : List Entry)
    → IsBounded e
    → Accounts given e
    → Accounts (emits given ss) (steps ss e) × IsBounded (steps ss e)
steps-Accounts [] e given b l = (l, b)
steps-Accounts (s ∷ ss) e given b l =
    let k = step-Kept e b s in
    steps-Accounts ss (step s e) (noted given s) k.bounds (k.account given l)

-- Any sequence of steps from a new exporter on loses no event, invents none and ships none twice: those
-- that Loki has taken, those of the batch on its way and those in the queue are, in this order, those that
-- were emitted, in theirs, but for as many as the counter of drops tells of. The queue and the batch stay
-- within their sizes.
pub steps-new-Accounts :
    (b q : ℕ) (ss : List Step)
    → Accounts (emits [] ss) (steps ss (new b q)) × IsBounded (steps ss (new b q))
unfolding new
steps-new-Accounts b q ss =
    steps-Accounts ss (new b q) [] (record { queued = omega arith; held = omega arith }) refl
