-- ===== src/Gateway/Tests.antt =====
-- The gateway at work on concrete inputs, and its theorems applied to them.
use django_ops.Common.{
  ℕ, String, ◌≡◌, ◌≢◌, ◌↔◌, refl, member, true, false, none, some, List, [], ◌∷◌, ok, err, arith,
}
use mathlib.Core.Option
use django_ops.Common.Dict.{Dict, lookup, insert, erase, modify, count_where}
use django_ops.Common.Text.{path_parts, split, split_go, occurs, starts_with, eq_text}
use django_ops.Gateway.State.{
  AgentFrame, AgentHello, hello, progress, cancel, JobState, AgentSession, Gateway,
  KubernetesReleaseRequest, no_capability, not_connected, already_connected, capacity_reached,
  invalid_job_id, invalid_release_root, Put, after, done, offer, is_terminal,
}
use django_ops.Gateway.Jobs.{
  matches_id, validate_job_id, validate_release_root, failure_frame, send, deliver, accept_event,
  open_job, inflight, evict, remember_completed, take_event, close_events, next_event,
  start_diagnostics, start_kubernetes_release, cancel_job, with_queue, with_outgoing,
}
use django_ops.Gateway.Sessions.{
  new_gateway, authenticate, admit, connect, consume, consume_end, fail_jobs, unregister,
  disconnect, is_connected, heartbeat_age,
}
use django_ops.Gateway.Steps.{Event, connects, receives, diagnoses, reads, take_outgoing, step, run}
use django_ops.Gateway.Cases.{order_failure}
use django_ops.Gateway.Admission.{Opened, Admitted}
use django_ops.Gateway.Delivery.{accept_all, accept_all_in_order, accept_event_out_of_order}
use django_ops.Gateway.Lifecycle.{
  open_job_iff, close_events_ends, start_kubernetes_release-jobs, cancel_job_twice,
}
use django_ops.Gateway.Presence.{connect_iff, connect_twice, disconnected, disconnect-jobs}
use django_ops.Gateway.Invariant.Reachable.{IsValid, run-IsValid}

-- Everything that a test computes with.
program : Unit {0}
unfolding lookup insert erase modify count_where path_parts split split_go occurs starts_with
    eq_text offer is_terminal matches_id validate_job_id validate_release_root failure_frame send
    deliver accept_event open_job inflight evict remember_completed take_event close_events
    next_event start_diagnostics start_kubernetes_release cancel_job new_gateway authenticate admit
    connect consume consume_end fail_jobs unregister disconnect is_connected heartbeat_age
    take_outgoing step run
program = tt

abbrev tokens : Dict String
tokens = ("vps-1", "s3cret") ∷ []

abbrev greeting : AgentHello
greeting = record {
  agent_id = "vps-1";
  major = 1;
  minor = 2;
  capabilities = "django_diagnostics_v1" ∷ [];
  auth_token = "s3cret";
}

abbrev idle : Gateway
idle = record {
  agent_tokens = tokens;
  sessions = [];
  jobs = [];
  completed_jobs = [];
  completed_order = [];
  max_completed_jobs = 2;
  max_inflight_per_agent = 1;
  next_ident = 0;
}

abbrev vps : AgentSession
vps = record {
  ident = 0;
  agent_id = "vps-1";
  capabilities = "django_diagnostics_v1" ∷ [];
  protocol_major = 1;
  protocol_minor = 2;
  outgoing = [];
  last_heartbeat = 7;
}

abbrev connected : Gateway
connected = record idle { sessions = ("vps-1", vps) ∷ []; next_ident = 1 }

abbrev fresh_job : JobState
fresh_job = record {
  agent_id = "vps-1";
  kind = "diagnostic";
  queue = [];
  next_sequence = 1;
  cancel_sent = false;
}

abbrev busy : Gateway
busy = record connected { jobs = ("job-1", fresh_job) ∷ [] }

abbrev tick : ℕ → AgentFrame
tick n = progress "job-1" n "check" "running"

abbrev history : List Event
history =
    connects (some (hello greeting)) 7
    ∷ diagnoses "vps-1" "job-1" "current"
    ∷ receives "vps-1" (tick 1) 8
    ∷ receives "vps-1" (tick 3) 9
    ∷ reads "job-1"
    ∷ reads "job-1"
    ∷ []

-- The second event is out of order: the caller sees the failure, and the job is over.
history_ends : (run idle history).completed_order ≡ "job-1" ∷ []
unfolding program
history_ends = refl

refusals :
    (start_diagnostics busy "vps-1" "job-2" "current" ≡ err capacity_reached)
    × (start_diagnostics connected "vps-2" "job-2" "current" ≡ err not_connected)
    × (start_diagnostics connected "vps-1" "-job" "current" ≡ err invalid_job_id)
    × (start_diagnostics connected "vps-1" "job-2" "../etc" ≡ err invalid_release_root)
unfolding program
refusals = (refl, refl, refl, refl)

run-IsValid_example : IsValid (run idle history)
unfolding new_gateway
run-IsValid_example = run-IsValid tokens 2 1 history refl

accept_all_in_order_example :
    let g' = accept_all busy vps "job-1" 1 (tick 1 ∷ tick 2 ∷ []) in
    (lookup "job-1" g'.jobs
      ≡ some (record fresh_job { queue = tick 1 ∷ tick 2 ∷ []; next_sequence = 3 }))
    × ((k : String) → k ≢ "job-1" → lookup k g'.jobs ≡ lookup k busy.jobs)
unfolding lookup
accept_all_in_order_example =
    accept_all_in_order (tick 1 ∷ tick 2 ∷ []) busy vps "job-1" fresh_job refl refl (omega arith)

accept_event_out_of_order_example :
    let g' = after (accept_event busy vps "job-1" 5 (tick 5)) in
    (lookup "job-1" g'.jobs ≡ some (with_queue (order_failure fresh_job "job-1" ∷ []) fresh_job))
    × (is_terminal (order_failure fresh_job "job-1") ≡ true)
    × ((k : String) → k ≢ "job-1" → lookup k g'.jobs ≡ lookup k busy.jobs)
    × (lookup "vps-1" g'.sessions ≡ some (with_outgoing (some (cancel "job-1") ∷ []) vps))
    × ((a : String) → a ≢ "vps-1" → lookup a g'.sessions ≡ lookup a busy.sessions)
    × (g' ≡ record busy { jobs = g'.jobs; sessions = g'.sessions })
unfolding lookup
accept_event_out_of_order_example =
    accept_event_out_of_order busy vps "job-1" fresh_job refl refl (omega arith) 5 (tick 5)
      (omega arith) (omega arith) refl

open_job_iff_example :
    (open_job connected "vps-1" "job-1" "diagnostic" false ≡ ok (busy, vps, fresh_job))
    ↔ Opened connected "vps-1" "job-1" "diagnostic" false busy vps fresh_job
open_job_iff_example = open_job_iff connected "vps-1" "job-1" "diagnostic" false busy vps fresh_job

close_events_ends_example :
    let g' = close_events busy "job-1" in
    (lookup "job-1" g'.jobs ≡ none)
    × ((k : String) → k ≢ "job-1" → lookup k g'.jobs ≡ lookup k busy.jobs)
    × (member "job-1" g'.completed_jobs ≡ true)
    × ((h : Gateway) (a root : String) (p : Put Gateway)
        → member "job-1" h.completed_jobs ≡ true
        → start_diagnostics h a "job-1" root ≢ ok p)
close_events_ends_example = close_events_ends busy "job-1"

abbrev agent_request : KubernetesReleaseRequest
agent_request = record {
  job_id = "k8s-1";
  namespace = "prod";
  release_name = "shop";
  chart_path = "charts/djangoops";
  image = "shop";
  values_json = "{}";
  credential_ref = "vault:prod";
  migration_timeout_seconds = 300;
  rollout_timeout_seconds = 300;
  rollback_policy = "allow";
  mode = "release";
  previous_revision = 0;
}

start_kubernetes_release-jobs_example :
    lookup "k8s-1" connected.jobs ≡ lookup "k8s-1" connected.jobs
unfolding program
start_kubernetes_release-jobs_example =
    start_kubernetes_release-jobs connected "vps-1" agent_request no_capability connected refl
      "k8s-1"

connect_iff_example : (connect idle (some (hello greeting)) 7 ≡ ok (connected, vps)) ↔ (
    (h : AgentHello) × (some (hello greeting) ≡ some (hello h)) × Admitted idle h 7 connected vps)
connect_iff_example = connect_iff idle (some (hello greeting)) 7 connected vps

disconnect-jobs_example :
    lookup "job-1" (after (disconnect busy vps)).jobs
    ≡ Option.map (disconnected "vps-1" "job-1") (lookup "job-1" busy.jobs)
unfolding program
disconnect-jobs_example = disconnect-jobs busy (after (disconnect busy vps)) vps "job-1" refl

connect_twice_example : connect connected (some (hello greeting)) 9 ≡ err already_connected
unfolding program
connect_twice_example = connect_twice idle connected (some (hello greeting)) 7 9 vps refl

cancel_job_twice_example :
    let g' = (after (cancel_job busy "job-1")).0 in cancel_job g' "job-1" ≡ done (g', true)
unfolding program
cancel_job_twice_example = cancel_job_twice busy (after (cancel_job busy "job-1")).0 "job-1" refl
