-- ===== src/Witnesses/Exports.antt =====
-- An exporter that loses Loki for a while, its events and its labels.
use mcp_switchboard.Prelude.{
  ℕ, zero, suc, ◌+◌, ◌≡◌, refl, true, List, [], ◌∷◌, ◌++◌, ltb, Text, bytes, length, arith,
}
use mcp_switchboard.Json.{number, text, object, no_field, field, Fields}
use mcp_switchboard.Loki.{
  Entry, warned, recovered, new, stop, abandon, Step, started, took, emitted, pushed, taken, failed,
  steps, step, Push, drain, Exporter, stopped, Meanwhile, emitting,
}
use mcp_switchboard.Loki.Accounting.{Accounts, emits, IsBounded, steps-new-Accounts}
use mcp_switchboard.Loki.Loss.{LeavesOut}
use mcp_switchboard.Loki.Drain.{drain_ends}
use mcp_switchboard.Loki.Outage.{pushes_of, told, row_of, steps-new-told}
use mcp_switchboard.Loki.Closing.{close-accounted}
use mcp_switchboard.Loki.Redaction.{
  looks_secret, redact_fields, line_fields, hides_fields, line_fields-hides,
}
use mcp_switchboard.Loki.Labels.{clean_name}
use mcp_switchboard.Loki.Payload.{
  build_payload, build_payload_lem, count_payload, count_batch, distinct_keys, ordered_streams,
  Test, stream_labels, first_labels,
}

abbrev event : ℕ → Entry
event n = record { ts_nanos = n; stream = bytes "event=call"; labels = []; line = bytes "{}" }

-- Two batches fail and one arrives.
abbrev bad_day : List Step
bad_day =
    started
    ∷ emitted (event 1)
    ∷ emitted (event 2)
    ∷ emitted (event 3)
    ∷ emitted (event 4)
    ∷ took
    ∷ pushed (failed (bytes "HTTP 503"))
    ∷ took
    ∷ pushed (failed (bytes "HTTP 503"))
    ∷ emitted (event 5)
    ∷ took
    ∷ pushed taken
    ∷ []

one_warning : (steps bad_day (new 1 3)).log ≡ warned (bytes "HTTP 503") ∷ recovered 2 ∷ []
unfolding step new
one_warning = refl

three_lost : (steps bad_day (new 1 3)).drops ≡ 3
unfolding step new
three_lost = refl

steps-new-Accounts_example :
    Accounts (emits [] bad_day) (steps bad_day (new 1 3)) × IsBounded (steps bad_day (new 1 3))
steps-new-Accounts_example = steps-new-Accounts 1 3 bad_day

steps-new-told_example :
    ((steps bad_day (new 1 3)).log ≡ told 0 (pushes_of bad_day))
    × ((steps bad_day (new 1 3)).failing ≡ ltb 0 (row_of 0 (pushes_of bad_day)))
steps-new-told_example = steps-new-told 1 3 bad_day

late : List Step
late = emitted (event 9) ∷ []

close-accounted_example :
    let e = steps late (abandon (steps late (stop (steps bad_day (new 1 3))))) in
    LeavesOut (e.sent ++ e.batch) e.drops (emits (emits (emits [] bad_day) late) late)
close-accounted_example = close-accounted 1 3 bad_day late late

abbrev closing : Exporter
closing = steps (emitted (event 1) ∷ emitted (event 2) ∷ emitted (event 3) ∷ stopped ∷ []) (new 2 9)

abbrev takes : ℕ → Push
takes round = taken

-- Another event is refused while each batch is on its way.
abbrev busy : ℕ → Meanwhile
busy round = record { during = emitting (event 7) ∷ []; between = [] }

drained : (drain (λ i. true) takes busy 0 3 closing).drops ≡ 2
unfolding drain step new
drained = refl

drain_ends_example :
    (drain (λ i. true) takes busy 0 (length closing.queue + 4) closing
      ≡ drain (λ i. true) takes busy 0 (length closing.queue) closing)
    × (length (drain (λ i. true) takes busy 0 (length closing.queue) closing).queue ≡ 0)
unfolding step new
drain_ends_example = drain_ends (λ i. true) takes busy 0 4 closing refl (omega arith)

-- Each level of an object adds one to the depth.
abbrev nested : ℕ → Fields
nested zero = field (bytes "secret") (text (bytes "hunter2")) no_field
nested (suc n) = field (bytes "a") (object (nested n)) no_field

-- The keys here are in lower case.
abbrev same : Text → Text
same s = s

abbrev fields : Fields
fields = field (bytes "api_key") (number (bytes "7")) (
    field (bytes "args") (object (field (bytes "auth_token") (text (bytes "hunter2")) no_field))
      no_field)

hidden :
    line_fields same fields
    ≡ field (bytes "api_key") (text (bytes "[redacted]")) (
        field
          (bytes "args")
          (object (field (bytes "auth_token") (text (bytes "[redacted]")) no_field))
          no_field)
unfolding redact_fields looks_secret
hidden = refl

too_deep : line_fields same (nested 10) ≡ nested 10
unfolding redact_fields looks_secret
too_deep = refl

line_fields-hides_example : hides_fields (looks_secret same) 9 (line_fields same fields) ≡ true
line_fields-hides_example = line_fields-hides same fields

cleaned : clean_name (bytes "9 lives") ≡ bytes "_9_lives"
unfolding clean_name
cleaned = refl

abbrev digit : ℕ → Text
digit n = (b'0' + n) ∷ []

abbrev anything : Test
anything key line = true

abbrev two_events : List Entry
two_events = event 2 ∷ event 1 ∷ []

build_payload_lem_example :
    (count_payload anything (build_payload digit two_events)
      ≡ count_batch digit anything two_events)
    × (distinct_keys (build_payload digit two_events) ≡ true)
    × (stream_labels (bytes "event=call") (build_payload digit two_events)
        ≡ first_labels (bytes "event=call") two_events)
    × (ordered_streams (build_payload digit two_events) ≡ true)
build_payload_lem_example = build_payload_lem digit anything (bytes "event=call") two_events
