-- ===== src/Gateway/Invariant/Changes.antt =====
-- Every event of the gateway is a sequence of primitive changes.
use django_ops.Common.{
  ℕ, Bool, true, ◌≡◌, refl, inl, inr, Option, none, some, String, length, arith, ap, Option-cases,
  Result-cases, ok, err, Bool-cases, subst, sym, eqb, ◌<◌,
}
use django_ops.Common.Dict.{lookup, AllValues-lookup}
use django_ops.Gateway.State.{
  AgentFrame, hello, heartbeat, progress, result, kubernetes_progress, kubernetes_result, unset,
  ControlFrame, cancel, JobState, AgentSession, Gateway, Put, waits, done, after, is_terminal,
}
use django_ops.Gateway.Jobs.{
  send, deliver, accept_event, close_events, next_event, cancel_job, bump, set_job, with_queue,
  with_outgoing, inflight, then_put,
}
use django_ops.Gateway.Sessions.{consume, consume_end, unregister, fail_jobs, disconnect, connect}
use django_ops.Gateway.Steps.{
  Event, connects, receives, ends, sends, leaves, diagnoses, releases, reads, closes, cancels,
  with_session, take_outgoing, step,
}
use django_ops.Gateway.Cases.{
  after-then_done, JobFits, SessionFits, send_elim, deliver_elim, then_put-after,
  accept_event_cases,
}
use django_ops.Gateway.Admission.{Opened, connect-Admitted}
use django_ops.Gateway.Calls.{
  start_diagnostics_cases, start_kubernetes_release_cases, cancel_job_cases, next_event_cases,
  take_outgoing_cases,
}
use django_ops.Gateway.Invariant.Queues.{
  job, session, opens, drops, remembers, registers, unregisters, fails, Changes, here, next,
  QueuesFit,
}

send-Changes :
    {g₀ : Gateway} (g : Gateway) (s : AgentSession) (f : Option ControlFrame)
    → SessionFits s
    → Changes g₀ g
    → Changes g₀ (after (send g s f))
send-Changes {g₀} g s f fits so_far =
    send_elim (Changes g₀) g s f fits so_far
      λ q short. next so_far (session s.agent_id (with_outgoing q) (λ _ _. short))

deliver-Changes :
    {g₀ : Gateway} (g : Gateway) (j : String) (s : JobState) (f : AgentFrame)
    → JobFits s
    → Changes g₀ g
    → Changes g₀ (after (deliver g j s f))
deliver-Changes {g₀} g j s f fits so_far =
    deliver_elim (Changes g₀) g j s f fits so_far
      λ q short. next so_far (job j (with_queue q) (λ _. refl) (λ _ _. short))

accept_event-Changes :
    (g : Gateway) (s : AgentSession) (j : String) (n : ℕ) (f : AgentFrame)
    → QueuesFit g
    → SessionFits s
    → Changes g (after (accept_event g s j n f))
accept_event-Changes g s j n f fit fits =
    accept_event_cases (λ p. Changes g (after p)) g s j n f here
      (λ st e _ _.
        deliver-Changes (set_job g j bump) j (bump st) f (AllValues-lookup JobFits j g.jobs fit.0 e)
          (next here (job j bump (λ _. refl) (λ _ b. b))))
      (λ st e _ _.
        then_put-after (Changes g) (λ g'. send g' s (some (cancel j))) (deliver g j st _)
          (deliver-Changes g j st _ (AllValues-lookup JobFits j g.jobs fit.0 e) here)
          (λ g' so_far. send-Changes g' s (some (cancel j)) fits so_far))

consume-Changes :
    (g : Gateway) (s : AgentSession) (f : AgentFrame) (now : ℕ)
    → QueuesFit g
    → SessionFits s
    → Changes g (after (consume g s f now))
unfolding consume
consume-Changes g s heartbeat now fit fits = next here (session s.agent_id _ (λ _ b. b))
consume-Changes g s (progress j n p m) now fit fits = accept_event-Changes g s j n _ fit fits
consume-Changes g s (result j n t c) now fit fits = accept_event-Changes g s j n _ fit fits
consume-Changes g s (kubernetes_progress j n p m) now fit fits =
    accept_event-Changes g s j n _ fit fits
consume-Changes g s (kubernetes_result r) now fit fits =
    accept_event-Changes g s r.job_id r.sequence _ fit fits
consume-Changes g s (hello h) now fit fits = here
consume-Changes g s unset now fit fits = here

Opened-Changes :
    {g : Gateway} {a j kind : String} {reuse : Bool} {g' : Gateway} {s : AgentSession}
    {st : JobState}
    → Opened g a j kind reuse g' s st
    → Changes g g'
Opened-Changes {g} {a} {j} {st = st} o = subst (Changes g) (sym o.changed) (
    next here (
      opens j st o.fresh
        (subst (λ t. inflight t.agent_id g.jobs < g.max_inflight_per_agent) (sym o.state) o.room)
        (ap (λ t. t.queue) o.state)))

Opened-session :
    {g : Gateway} {a j kind : String} {reuse : Bool} {g' : Gateway} {s : AgentSession}
    {st : JobState}
    → Opened g a j kind reuse g' s st
    → QueuesFit g
    → SessionFits s
Opened-session {g} {a} o fit = AllValues-lookup SessionFits a g.sessions fit.1 o.connected

connect-Changes :
    (g : Gateway) (first : Option AgentFrame) (now : ℕ) (r : Gateway × AgentSession)
    → connect g first now ≡ ok r
    → Changes g r.0
connect-Changes g first now (g', s) e =
    let (h, _, a) = connect-Admitted g first now e in
    subst (Changes g) (sym a.changed)
      (next here (registers h.agent_id s (ap (λ t. t.outgoing) a.session)))

unregister-Changes : (g : Gateway) (s : AgentSession) → Changes g (unregister g s)
unfolding unregister
unregister-Changes g s = elim (Option-cases (lookup s.agent_id g.sessions)) [
  | inl e ↦ rw (e, unregister) here
  | inr (t, e) ↦ elim (Bool-cases (eqb t.ident s.ident)) [
    | inl same ↦ rw (e, same, unregister) (next here (unregisters s.agent_id))
    | inr other ↦ rw (e, other, unregister) here
  ]
]

disconnect-Changes : (g : Gateway) (s : AgentSession) → Changes g (after (disconnect g s))
unfolding disconnect
disconnect-Changes g s =
    subst (Changes g)
      (sym (
        after-then_done (λ jobs. record (unregister g s) { jobs = jobs })
          (fail_jobs s.agent_id (unregister g s).jobs)))
      (next (unregister-Changes g s) (fails s.agent_id))

close_events-Changes :
    {g₀ : Gateway} (g : Gateway) (j : String) → Changes g₀ g → Changes g₀ (close_events g j)
unfolding close_events
close_events-Changes g j so_far = next (next so_far (drops j)) (remembers j)

next_event-Changes :
    (g : Gateway) (j : String)
    → QueuesFit g
    → Changes g (elim (next_event g j) [ none ↦ g | some r ↦ r.1 ])
next_event-Changes g j fit =
    next_event_cases (λ o. Changes g (elim o [ none ↦ g | some r ↦ r.1 ])) g j here
      λ st f rest found q.
        let bound : JobFits st = AllValues-lookup JobFits j g.jobs fit.0 found in
        let taken =
          next here (job j (with_queue rest) (λ _. refl) (λ _ _. omega (arith, ap length q))) in
        elim (Bool-cases (is_terminal f)) [
          | inl last ↦ rw last (close_events-Changes (set_job g j (with_queue rest)) j taken)
          | inr more ↦ rw more taken
        ]

then_put-flag :
    (b : Bool) (p : Put Gateway)
    → (after {A = Gateway × Bool} (then_put (λ g. (g, b)) (λ g. done (g, b)) p)).0 ≡ after p
then_put-flag b (done g) = refl
then_put-flag b (waits g) = refl

cancel_job-Changes : (g : Gateway) (j : String) → QueuesFit g → Changes g (after (cancel_job g j)).0
cancel_job-Changes g j fit =
    cancel_job_cases (λ p. Changes g (after p).0) g j here (λ _ _ _. here)
      λ st s _ _ found.
        let g' = set_job g j (λ t. record t { cancel_sent = true }) in
        subst (Changes g) (sym (then_put-flag true (send g' s (some (cancel j))))) (
          send-Changes g' s (some (cancel j))
            (AllValues-lookup SessionFits st.agent_id g.sessions fit.1 found)
            (next here (job j _ (λ _. refl) (λ _ b. b))))

take_outgoing-Changes :
    (g : Gateway) (s : AgentSession) → SessionFits s → Changes g (take_outgoing g s)
take_outgoing-Changes g s fits = take_outgoing_cases (Changes g) g s here λ f rest q.
    next here (session s.agent_id (with_outgoing rest) (λ _ _. omega (arith, ap length q)))

with_session-Changes :
    (g : Gateway) (a : String) (f : AgentSession → Gateway)
    → QueuesFit g
    → ((s : AgentSession) → SessionFits s → Changes g (f s))
    → Changes g (with_session g a f)
with_session-Changes g a f fit each = elim (Option-cases (lookup a g.sessions)) [
  | inl e ↦ rw (e, with_session) here
  | inr (s, e) ↦ rw (e, with_session) (each s (AllValues-lookup SessionFits a g.sessions fit.1 e))
]

-- Every event of a gateway whose queues fit makes a sequence of the primitive changes.
pub step-Changes : (g : Gateway) (e : Event) → QueuesFit g → Changes g (step g e)
unfolding step
step-Changes g (connects first now) fit = elim (Result-cases (connect g first now)) [
  | inl (r, e) ↦ rw (e, step) (connect-Changes g first now r e)
  | inr (x, e) ↦ rw (e, step) here
]
step-Changes g (receives a f now) fit =
    with_session-Changes g a _ fit (λ s fits. consume-Changes g s f now fit fits)
step-Changes g (ends a) fit =
    with_session-Changes g a _ fit (λ s fits. unfold consume_end in send-Changes g s none fits here)
step-Changes g (sends a) fit = with_session-Changes g a _ fit (take_outgoing-Changes g)
step-Changes g (leaves s) fit = disconnect-Changes g s
step-Changes g (diagnoses a j root) fit =
    start_diagnostics_cases (λ r. Changes g (elim r [ ok p ↦ after p | err e ↦ g ])) g a j root
      (λ _. here) (λ g' s st _ o. send-Changes g' s _ (Opened-session o fit) (Opened-Changes o))
step-Changes g (releases a r) fit =
    start_kubernetes_release_cases (λ t. Changes g (elim t [ ok p ↦ after p | err e ↦ e.1 ])) g a r
      (λ _. here) (λ g' s st o. next (Opened-Changes o) (drops r.job_id))
      (λ g' s st _ o. send-Changes g' s _ (Opened-session o fit) (Opened-Changes o))
step-Changes g (reads j) fit = next_event-Changes g j fit
step-Changes g (closes j) fit = close_events-Changes g j here
step-Changes g (cancels j) fit = cancel_job-Changes g j fit
