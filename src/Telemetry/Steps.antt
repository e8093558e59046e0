-- ===== src/Telemetry/Steps.antt =====
-- controlplane/telemetry.py: the operations of `Telemetry`, each under its lock, and the export thread.
use mathlib.Core.List.{◌++◌}
use django_ops.Common.{
  ℕ, ◌+◌, ◌-◌, min, Bool, true, Option, List, [], ◌∷◌, String, ◌==◌, leb, length, if◌then◌else◌,
}
use django_ops.Telemetry.Counters.{value_at, set_at, add_at}
use django_ops.Telemetry.State.{
  labels, same_labels, same_pair, correlation_id, TelemetryEvent, Telemetry, last_of,
}

-- `start`, as far as the state goes
unfoldable pub start : Telemetry → String → String → Telemetry
start t component kind =
    let l = labels component kind "pending" in
    record t { inflight = add_at same_pair (l.component, l.kind) 1 t.inflight }

-- `_enqueue` and `_ensure_worker`
unfoldable pub enqueue : Telemetry → TelemetryEvent → Telemetry
enqueue t e =
    if t.endpoint == ""
    then t
    else if leb t.size (length t.exports)
    then record t { dropped = t.dropped + 1 }
    else record t { exports = t.exports ++ e ∷ []; worker_started = true }

-- `deque.append` with a maximal length
unfoldable pub append_bounded : ℕ → TelemetryEvent → List TelemetryEvent → List TelemetryEvent
append_bounded size e events = last_of size (events ++ e ∷ [])

-- The counters that `observe` changes under the lock.
unfoldable pub count_event : Telemetry → TelemetryEvent → Bool → Telemetry
count_event t e decrement =
    let key : String × String = (e.labels.component, e.labels.kind) in
    record t {
      counts = add_at same_labels e.labels 1 t.counts;
      durations = add_at same_labels e.labels e.duration_ms t.durations;
      inflight =
          if decrement
          then set_at same_pair key (value_at same_pair key t.inflight - 1) t.inflight
          else t.inflight;
      events = append_bounded t.size e t.events;
    }

-- The arguments of `observe`; `finish` measures the duration and sets `decrement_inflight`.
pub record Observation : Type 0 where
  pub component : String
  pub kind : String
  pub outcome : String
  pub duration_ms : ℕ
  pub correlation : Option String
  pub project_id : Option ℕ
  pub decrement_inflight : Bool

unfoldable pub event_of : String → Observation → TelemetryEvent
event_of token o = record {
  labels = labels o.component o.kind o.outcome;
  duration_ms = min o.duration_ms 86400000;
  correlation = correlation_id token o.correlation;
  project_id = o.project_id;
}

-- `observe`
unfoldable pub observe : Telemetry → String → Observation → Telemetry
observe t token o = let e = event_of token o in enqueue (count_event t e o.decrement_inflight) e

-- The state after a payload has left the queue, where one was there.
unfoldable pub take_payload : List TelemetryEvent → Telemetry → Bool → Telemetry
take_payload [] t sent = t
take_payload (e ∷ rest) t sent = record t {
  exports = rest;
  export_errors = if sent then t.export_errors else t.export_errors + 1;
}

-- One round of `_export_loop`: the first payload leaves the queue, and a failure is counted.
unfoldable pub export_one : Telemetry → Bool → Telemetry
export_one t sent = take_payload t.exports t sent

-- What threads do to the object, one run under its lock at a time.
pub data Event : Type 0 where
  starts : String → String → Event
  observes : String → Observation → Event
  sends : Bool → Event

unfoldable pub step : Telemetry → Event → Telemetry
step t (starts component kind) = start t component kind
step t (observes token o) = observe t token o
step t (sends sent) = export_one t sent

unfoldable pub run : Telemetry → List Event → Telemetry
run t [] = t
run t (e ∷ es) = run (step t e) es
