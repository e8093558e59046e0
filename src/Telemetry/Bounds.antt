-- ===== src/Telemetry/Bounds.antt =====
-- What stays bounded however many events there are: the buffers, and the labels of the counters.
use mathlib.Core.List.{◌++◌}
use django_ops.Common.{
  ℕ, zero, suc, ◌-◌, ◌≤◌, min, max, ◌≡◌, refl, inl, inr, Bool, true, false, List, [], ◌∷◌, String,
  ◌==◌, arith, leb, length, drop, keep, member, if◌then◌else◌, Bool-cases, All, length-append,
  length-drop,
}
use django_ops.Telemetry.Counters.{value_at, set_at, add_at, All-set_at}
use django_ops.Telemetry.State.{
  allowed_components, allowed_kinds, allowed_outcomes, Labels, labels, same_labels, same_pair,
  TelemetryEvent, Telemetry, last_of, is_project, recent_for_project,
}
use django_ops.Telemetry.Steps.{
  start, enqueue, append_bounded, count_event, event_of, observe, export_one, take_payload, Event,
  starts, observes, sends, step, run,
}

pub record IsAllowed (l : Labels) : Type 0 where
  pub component : member l.component allowed_components ≡ true
  pub kind : member l.kind allowed_kinds ≡ true
  pub outcome : member l.outcome allowed_outcomes ≡ true

abbrev IsAllowedPair : String × String → Type 0
IsAllowedPair k = (member k.0 allowed_components ≡ true) × (member k.1 allowed_kinds ≡ true)

-- Both buffers are within the size, and every counter stands for labels out of the allowed sets.
pub record IsBounded (t : Telemetry) : Type 0 where
  pub events : length t.events ≤ t.size
  pub exports : length t.exports ≤ t.size
  pub counts : All (λ e. IsAllowed e.0) t.counts
  pub durations : All (λ e. IsAllowed e.0) t.durations
  pub inflight : All (λ e. IsAllowedPair e.0) t.inflight

member-choice :
    (x d : String) (set : List String)
    → member d set ≡ true
    → member (if member x set then x else d) set ≡ true
member-choice x d set h = elim (Bool-cases (member x set)) [ inl e ↦ rw e e | inr e ↦ rw e h ]

labels-IsAllowed : (c k o : String) → IsAllowed (labels c k o)
unfolding labels
labels-IsAllowed c k o = record {
  component = member-choice c "controlplane" allowed_components refl;
  kind = member-choice k "diagnostic" allowed_kinds refl;
  outcome = member-choice o "failed" allowed_outcomes refl;
}

length-last_of-le : (n : ℕ) (xs : List TelemetryEvent) → length (last_of n xs) ≤ n
unfolding last_of
length-last_of-le n xs = omega (arith, length-drop (length xs - n) xs)

enqueue-IsBounded : (t : Telemetry) (e : TelemetryEvent) → IsBounded t → IsBounded (enqueue t e)
unfolding enqueue
enqueue-IsBounded t e b = elim (Bool-cases (t.endpoint == "")) [
  | inl off ↦ rw off b
  | inr on ↦ elim (Bool-cases (leb t.size (length t.exports))) [
    | inl full ↦
        rw (on, full)
          (record {
            events = b.events;
            exports = b.exports;
            counts = b.counts;
            durations = b.durations;
            inflight = b.inflight;
          })
    | inr room ↦
        rw (on, room)
          (record {
            events = b.events;
            exports = ground (arith, b.exports, room, length-append t.exports (e ∷ []));
            counts = b.counts;
            durations = b.durations;
            inflight = b.inflight;
          })
  ]
]

count_event-IsBounded :
    (t : Telemetry) (e : TelemetryEvent) (d : Bool)
    → IsAllowed e.labels
    → IsBounded t
    → IsBounded (count_event t e d)
unfolding count_event append_bounded add_at
count_event-IsBounded t e d a b = record {
  events = length-last_of-le t.size (t.events ++ e ∷ []);
  exports = b.exports;
  counts = All-set_at same_labels IsAllowed e.labels _ t.counts a b.counts;
  durations = All-set_at same_labels IsAllowed e.labels _ t.durations a b.durations;
  inflight = inflight_part d;
}
  where
    inflight_part :
        (x : Bool)
        → All
            (λ e. IsAllowedPair e.0)
            (if x
              then set_at same_pair
                  (e.labels.component, e.labels.kind)
                  (value_at same_pair (e.labels.component, e.labels.kind) t.inflight - 1)
                  t.inflight
              else t.inflight)
    inflight_part true =
        All-set_at same_pair IsAllowedPair (e.labels.component, e.labels.kind) _ t.inflight
          (a.component, a.kind) b.inflight
    inflight_part false = b.inflight

take_payload-IsBounded :
    (xs : List TelemetryEvent) (t : Telemetry) (sent : Bool)
    → length xs ≤ t.size
    → IsBounded t
    → IsBounded (take_payload xs t sent)
unfolding take_payload
take_payload-IsBounded [] t sent le b = b
take_payload-IsBounded (x ∷ xs) t sent le b = record {
  events = b.events;
  exports = omega (arith, le);
  counts = b.counts;
  durations = b.durations;
  inflight = b.inflight;
}

step-IsBounded : (t : Telemetry) (e : Event) → IsBounded t → IsBounded (step t e)
unfolding step start observe event_of export_one add_at
step-IsBounded t (starts component kind) b =
    let a = labels-IsAllowed component kind "pending" in
    record {
      events = b.events;
      exports = b.exports;
      counts = b.counts;
      durations = b.durations;
      inflight =
          All-set_at same_pair IsAllowedPair (_, _) _ t.inflight (a.component, a.kind) b.inflight;
    }
step-IsBounded t (observes token o) b =
    enqueue-IsBounded (count_event t (event_of token o) o.decrement_inflight) (event_of token o) (
      count_event-IsBounded t (event_of token o) o.decrement_inflight
        (labels-IsAllowed o.component o.kind o.outcome) b)
step-IsBounded t (sends sent) b = take_payload-IsBounded t.exports t sent b.exports b

-- Through every interleaving of starts, observations and exports, both buffers of a telemetry object stay
-- within its size, and every counter stands for labels out of the allowed sets, whatever texts the
-- callers pass.
pub run-IsBounded : (es : List Event) (t : Telemetry) → IsBounded t → IsBounded (run t es)
unfolding run
run-IsBounded [] t b = b
run-IsBounded (e ∷ es) t b = run-IsBounded es (step t e) (step-IsBounded t e b)

keep-All :
    (p : TelemetryEvent → Bool) (xs : List TelemetryEvent) → All (λ e. p e ≡ true) (keep p xs)
keep-All p [] = tt
keep-All p (x ∷ xs) = elim (Bool-cases (p x)) [
  | inl e ↦ rw e (e, keep-All p xs)
  | inr e ↦ rw e (keep-All p xs)
]

drop-All :
    (p : TelemetryEvent → Bool) (n : ℕ) (xs : List TelemetryEvent)
    → All (λ e. p e ≡ true) xs
    → All (λ e. p e ≡ true) (drop n xs)
drop-All p zero xs a = a
drop-All p (suc n) [] a = tt
drop-All p (suc n) (x ∷ xs) a = drop-All p n xs a.1

-- The recent events of a project are at most 50, whatever limit is asked for, and all of that project.
pub recent_for_project-bounded :
    (t : Telemetry) (p limit : ℕ)
    → (length (recent_for_project t p limit) ≤ 50)
      × All (λ e. is_project p e ≡ true) (recent_for_project t p limit)
unfolding recent_for_project last_of
recent_for_project-bounded t p limit = (
  omega (arith, length-last_of-le (max 1 (min limit 50)) (keep (is_project p) t.events)),
  drop-All (is_project p) _ (keep (is_project p) t.events) (keep-All (is_project p) t.events),
)
