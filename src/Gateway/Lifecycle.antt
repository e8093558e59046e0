-- ===== src/Gateway/Lifecycle.antt =====
-- How a job begins and ends: `_open_job`, the `finally` of `_events`, `kubernetes_release` of an
-- agent that cannot do it, and `cancel`.
use django_ops.Common.{
  ◌≡◌, ◌≢◌, ◌↔◌, refl, eq_iff, eq_refl, Bool, true, Option, none, some, String, arith, member, ok,
  err,
}
use django_ops.Common.Dict.{lookup, insert, erase, lookup-insert, lookup-erase, lookup-modify}
use django_ops.Gateway.State.{
  ControlFrame, cancel, JobState, AgentSession, Gateway, GatewayError, KubernetesReleaseRequest,
  Put, done, offer,
}
use django_ops.Gateway.Jobs.{
  validate_job_id, open_job, remember_completed, close_events, start_diagnostics,
  start_kubernetes_release, cancel_job, send, set_job, then_put,
}
use django_ops.Gateway.Cases.{remember_completed_cases}
use django_ops.Gateway.Admission.{Opened, open_job-Opened}
use django_ops.Gateway.Calls.{
  start_diagnostics_cases, start_kubernetes_release_cases, cancel_job_cases,
}

Opened-open_job :
    (g : Gateway) (a j kind : String) (reuse : Bool) {g' : Gateway} {s : AgentSession}
    {st : JobState}
    → Opened g a j kind reuse g' s st
    → open_job g a j kind reuse ≡ ok (g', s, st)
unfolding open_job validate_job_id
Opened-open_job g a j kind reuse o = ground arith

-- `_open_job` succeeds exactly when the identifier is well formed and not active, has not completed
-- or may be used again, the agent is connected and has fewer jobs than the limit; it then returns the
-- agent's session and a fresh job, which it adds to the active ones, and changes nothing else.
pub open_job_iff :
    (g : Gateway) (a j kind : String) (reuse : Bool) (g' : Gateway) (s : AgentSession)
    (st : JobState)
    → (open_job g a j kind reuse ≡ ok (g', s, st)) ↔ Opened g a j kind reuse g' s st
open_job_iff g a j kind reuse g' s st =
    (open_job-Opened g a j kind reuse, Opened-open_job g a j kind reuse)

remember_completed-member :
    (g : Gateway) (j : String) → member j (remember_completed g j).completed_jobs ≡ true
remember_completed-member g j =
    remember_completed_cases (λ h. member j h.completed_jobs ≡ true) g j (λ e. e)
      (λ _ _. ground (arith, eq_refl j)) (λ _ _. ground (arith, eq_refl j))

remember_completed-jobs : (g : Gateway) (j : String) → (remember_completed g j).jobs ≡ g.jobs
remember_completed-jobs g j =
    remember_completed_cases (λ h. h.jobs ≡ g.jobs) g j (λ _. refl) (λ _ _. refl) (λ _ _. refl)

-- Once the events of a job are closed the job is no longer active, other jobs are as they were, the
-- identifier is remembered, and no diagnostic can be started under it in any later state of a gateway that
-- still remembers it.
pub close_events_ends :
    (g : Gateway) (j : String)
    → let g' = close_events g j in
      (lookup j g'.jobs ≡ none)
      × ((k : String) → k ≢ j → lookup k g'.jobs ≡ lookup k g.jobs)
      × (member j g'.completed_jobs ≡ true)
      × ((h : Gateway) (a root : String) (p : Put Gateway)
          → member j h.completed_jobs ≡ true
          → start_diagnostics h a j root ≢ ok p)
unfolding close_events
close_events_ends g j =
    let g' = close_events g j in
    let dropped : Gateway = record g { jobs = erase j g.jobs } in
    let known = remember_completed-member dropped j in
    (
      rw (remember_completed-jobs dropped j) (ground (arith, lookup-erase j j g.jobs, eq_refl j)),
      (λ k ne.
          rw (remember_completed-jobs dropped j)
            (ground (arith, lookup-erase j k g.jobs, eq_iff j k))),
      known,
      (λ h a root p remembered.
          start_diagnostics_cases (λ r. r ≢ ok p) h a j root (λ e k. cc)
            (λ k s st _ o _. ground (arith, o.unused, remembered))),
    )

-- When a release is refused, by whatever error, every job is found as before it was asked for.
pub start_kubernetes_release-jobs :
    (g : Gateway) (a : String) (r : KubernetesReleaseRequest) (e : GatewayError) (g' : Gateway)
    → start_kubernetes_release g a r ≡ err (e, g')
    → (k : String) → lookup k g'.jobs ≡ lookup k g.jobs
start_kubernetes_release-jobs g a r e g' =
    start_kubernetes_release_cases
      (λ t. t ≡ err (e, g') → (k : String) → lookup k g'.jobs ≡ lookup k g.jobs) g a r
      (λ x h k. ground arith)
      (λ h s st o eq k. ground (
        arith,
        o.changed,
        o.fresh,
        lookup-erase r.job_id k (insert r.job_id st g.jobs),
        lookup-insert r.job_id k st g.jobs,
        eq_iff r.job_id k,
      ))
      (λ h s st able o eq k. cc)

send-jobs :
    (g : Gateway) (s : AgentSession) (f : Option ControlFrame) (g' : Gateway)
    → then_put {B = Gateway × Bool} (λ h. (h, true)) (λ h. done (h, true)) (send g s f)
      ≡ done (g', true)
    → g'.jobs ≡ g.jobs
unfolding send offer
send-jobs g s f g' h = ground arith

cancel_job-marks :
    (g g' : Gateway) (j : String)
    → cancel_job g j ≡ done (g', true)
    → (st : JobState) × (lookup j g'.jobs ≡ some st) × (st.cancel_sent ≡ true)
cancel_job-marks g g' j =
    cancel_job_cases
      (λ p.
        p ≡ done (g', true)
        → (st : JobState) × (lookup j g'.jobs ≡ some st) × (st.cancel_sent ≡ true))
      g j (λ h. cc) (λ st e marked h. (st, cc, marked))
      λ st s e _ _ h.
        let mark : JobState → JobState = λ t. record t { cancel_sent = true } in
        (
          record st { cancel_sent = true },
          rw (send-jobs (set_job g j mark) s (some (cancel j)) g' h)
              (ground (arith, lookup-modify j j mark g.jobs, eq_refl j)),
          refl,
        )

-- After a cancel that returned true without waiting, a second cancel of the job returns true at once
-- and leaves the gateway as it is, so no second cancel frame is sent.
pub cancel_job_twice :
    (g g' : Gateway) (j : String)
    → cancel_job g j ≡ done (g', true)
    → cancel_job g' j ≡ done (g', true)
unfolding cancel_job
cancel_job_twice g g' j h =
    let (st, e, marked) = cancel_job-marks g g' j h in rw (e, marked, cancel_job)
