-- ===== src/Telemetry/Totals.antt =====
-- What the counters add up to.
use django_ops.Common.{
  ℕ, ◌+◌, min, ◌≡◌, refl, ap, ◌∙◌, inl, inr, Bool, List, [], ◌∷◌, String, ◌==◌, arith, leb, length,
  Bool-cases,
}
use django_ops.Telemetry.Counters.{total, total-add_at}
use django_ops.Telemetry.State.{same_labels, TelemetryEvent, Telemetry}
use django_ops.Telemetry.Steps.{
  start, enqueue, count_event, Observation, event_of, observe, take_payload, export_one, Event,
  starts, observes, sends, step, run,
}

-- how many observations there are, and their durations added up, each cut at a day
unfoldable pub observed : List Event → ℕ
observed [] = 0
observed (starts c k ∷ es) = observed es
observed (observes token o ∷ es) = 1 + observed es
observed (sends sent ∷ es) = observed es

unfoldable pub lasted : List Event → ℕ
lasted [] = 0
lasted (starts c k ∷ es) = lasted es
lasted (observes token o ∷ es) = min o.duration_ms 86400000 + lasted es
lasted (sends sent ∷ es) = lasted es

enqueue-counters :
    (t : Telemetry) (e : TelemetryEvent)
    → ((enqueue t e).counts ≡ t.counts) × ((enqueue t e).durations ≡ t.durations)
unfolding enqueue
enqueue-counters t e = elim (Bool-cases (t.endpoint == "")) [
  | inl off ↦ rw off (refl, refl)
  | inr on ↦ elim (Bool-cases (leb t.size (length t.exports))) [
    | inl full ↦ rw (on, full) (refl, refl)
    | inr room ↦ rw (on, room) (refl, refl)
  ]
]

take_payload-counters :
    (xs : List TelemetryEvent) (t : Telemetry) (sent : Bool)
    → ((take_payload xs t sent).counts ≡ t.counts)
      × ((take_payload xs t sent).durations ≡ t.durations)
unfolding take_payload
take_payload-counters [] t sent = (refl, refl)
take_payload-counters (x ∷ xs) t sent = (refl, refl)

observe-totals :
    (t : Telemetry) (token : String) (o : Observation)
    → (total same_labels (observe t token o).counts ≡ total same_labels t.counts + 1)
      × (total same_labels (observe t token o).durations
          ≡ total same_labels t.durations + min o.duration_ms 86400000)
unfolding observe count_event event_of
observe-totals t token o =
    let e = event_of token o in
    let (c, d) = enqueue-counters (count_event t e o.decrement_inflight) e in
    (
      rw c (total-add_at same_labels e.labels 1 t.counts),
      rw d (total-add_at same_labels e.labels e.duration_ms t.durations),
    )

-- Through every history, the counts of operations add up to what they were before and the number of
-- observations, and the durations to what they were and the observed ones, each cut at a day: no event is
-- lost or counted twice, whatever happens to its export.
pub run-totals :
    (es : List Event) (t : Telemetry)
    → (total same_labels (run t es).counts ≡ total same_labels t.counts + observed es)
      × (total same_labels (run t es).durations ≡ total same_labels t.durations + lasted es)
unfolding run step start export_one observed lasted
run-totals [] t = (omega arith, omega arith)
run-totals (starts c k ∷ es) t = run-totals es (start t c k)
run-totals (observes token o ∷ es) t =
    let (c, d) = run-totals es (observe t token o) in
    let (one, lasts) = observe-totals t token o in (omega (arith, c, one), omega (arith, d, lasts))
run-totals (sends sent ∷ es) t =
    let (c, d) = run-totals es (export_one t sent) in
    let (same, still) = take_payload-counters t.exports t sent in
    (
      c ∙ ap (λ x. total same_labels x + observed es) same,
      d ∙ ap (λ x. total same_labels x + lasted es) still,
    )
