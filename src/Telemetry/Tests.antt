-- ===== src/Telemetry/Tests.antt =====
-- A telemetry object through a short history, and the theorems applied to it.
use django_ops.Common.{◌+◌, ◌≡◌, refl, true, false, some, List, [], ◌∷◌, arith}
use django_ops.Common.Redact.{truncate}
use django_ops.Telemetry.Counters.{value_at, set_at, add_at, total}
use django_ops.Telemetry.State.{
  labels, same_labels, same_pair, is_safe, replace_unsafe, correlation_id, Telemetry, new_telemetry,
  last_of, is_project, recent_for_project,
}
use django_ops.Telemetry.Steps.{
  start, enqueue, append_bounded, count_event, Observation, event_of, observe, take_payload,
  export_one, Event, starts, observes, sends, step, run,
}
use django_ops.Telemetry.Bounds.{IsBounded, run-IsBounded}
use django_ops.Telemetry.Totals.{observed, lasted, run-totals}

program : Unit {0}
unfolding truncate value_at set_at add_at total labels same_labels same_pair is_safe replace_unsafe
    correlation_id new_telemetry last_of is_project recent_for_project start enqueue append_bounded
    count_event event_of observe take_payload export_one step run observed lasted
program = tt

abbrev exploded : Observation
exploded = record {
  component = "cli";
  kind = "deploy";
  outcome = "exploded";
  duration_ms = 90000000;
  correlation = some "a b";
  project_id = some 4;
  decrement_inflight = true;
}

abbrev history : List Event
history = starts "cli" "deploy" ∷ observes "t" exploded ∷ sends false ∷ observes "u" exploded ∷ []

abbrev fresh : Telemetry
fresh = new_telemetry 4 "https://otlp.example"

cleaned : correlation_id "t" (some "a b/c") ≡ "a_b/c"
unfolding program
cleaned = refl

counters : total same_labels (run fresh history).durations ≡ 172800000
unfolding program
counters = refl

run-IsBounded_example : IsBounded (run fresh history)
unfolding program
run-IsBounded_example = run-IsBounded history fresh (record {
  events = omega arith;
  exports = omega arith;
  counts = tt;
  durations = tt;
  inflight = tt;
})

run-totals_example :
    (total same_labels (run fresh history).counts
      ≡ total same_labels fresh.counts + observed history)
    × (total same_labels (run fresh history).durations
        ≡ total same_labels fresh.durations + lasted history)
run-totals_example = run-totals history fresh
