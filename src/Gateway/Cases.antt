-- ===== src/Gateway/Cases.antt =====
-- How a put into a queue, an event of a job and the memory of completed jobs can end (controlplane/gateway.py):
-- one rule for each function, so that the proofs about it split on its branches with the functions that it calls
-- left shut.
use django_ops.Common.{
  ℕ, ◌≤◌, ◌≡◌, ◌≢◌, refl, inl, inr, ◌==◌, eq_iff, true, false, Option, some, List, [], ◌∷◌, String,
  length, arith, Bool-cases, Option-cases, eqb, eqb_iff, leb, member, ◌<◌, leb→le, ◌++◌,
}
use django_ops.Common.Dict.{lookup}
use django_ops.Gateway.State.{
  AgentFrame, ControlFrame, cancel, JobState, AgentSession, Gateway, max_job_events,
  max_outgoing_frames, Put, done, waits, after, offer, length-offer, Put-cases,
}
use django_ops.Gateway.Jobs.{
  send, deliver, accept_event, remember_completed, bump, set_job, set_session, with_queue,
  with_outgoing, failure_frame, then_put, evict,
}

abbrev pub JobFits : JobState → Type 0
JobFits s = length s.queue ≤ max_job_events

abbrev pub SessionFits : AgentSession → Type 0
SessionFits s = length s.outgoing ≤ max_outgoing_frames

-- What holds of the gateway as it is, and with a queue within its limit in the session, holds after
-- the frame is sent or waits to be sent.
pub send_elim {κ} :
    (P : Gateway → Type κ) (g : Gateway) (s : AgentSession) (f : Option ControlFrame)
    → SessionFits s
    → P g
    → ((q : List (Option ControlFrame))
        → length q ≤ max_outgoing_frames
        → P (set_session g s.agent_id (with_outgoing q)))
    → P (after (send g s f))
unfolding send
send_elim P g s f fits same sent =
    let short = length-offer max_outgoing_frames f s.outgoing fits in
    elim (Put-cases (offer max_outgoing_frames f s.outgoing)) [
      | inl (q, e) ↦ rw (e, after) (sent q (rw e at short))
      | inr (q, e) ↦ rw (e, after) same
    ]

pub deliver_elim {κ} :
    (P : Gateway → Type κ) (g : Gateway) (j : String) (s : JobState) (f : AgentFrame)
    → JobFits s
    → P g
    → ((q : List AgentFrame) → length q ≤ max_job_events → P (set_job g j (with_queue q)))
    → P (after (deliver g j s f))
unfolding deliver
deliver_elim P g j s f fits same sent =
    let short = length-offer max_job_events f s.queue fits in
    elim (Put-cases (offer max_job_events f s.queue)) [
      | inl (q, e) ↦ rw (e, after) (sent q (rw e at short))
      | inr (q, e) ↦ rw (e, after) same
    ]

pub after-then_done {ℓ κ} :
    {A : Type ℓ} {B : Type κ} (f : A → B) (p : Put A)
    → after (then_put f (λ a. done (f a)) p) ≡ f (after p)
after-then_done f (done a) = refl
after-then_done f (waits a) = refl

-- A put that starts where the first put ended.
pub then_put-after {ℓ κ} :
    {A : Type ℓ} (P : A → Type κ) (k : A → Put A) (p : Put A)
    → P (after p)
    → ((a : A) → P a → P (after (k a)))
    → P (after (then_put (λ a. a) k p))
then_put-after P k (done a) h next = next a h
then_put-after P k (waits a) h next = h

abbrev pub order_failure : JobState → String → AgentFrame
order_failure st j = failure_frame st j st.next_sequence "STREAM_ORDER" "stream_order"

pub accept_event_cases {κ} :
    (P : Put Gateway → Type κ) (g : Gateway) (s : AgentSession) (j : String) (n : ℕ)
    (f : AgentFrame)
    → P (done g)
    → ((st : JobState)
        → lookup j g.jobs ≡ some st
        → st.agent_id ≡ s.agent_id
        → n ≡ st.next_sequence
        → P (deliver (set_job g j bump) j (bump st) f))
    → ((st : JobState)
        → lookup j g.jobs ≡ some st
        → st.agent_id ≡ s.agent_id
        → n ≢ st.next_sequence
        → P (
            then_put
              (λ g'. g')
              (λ g'. send g' s (some (cancel j)))
              (deliver g j st (order_failure st j))))
    → P (accept_event g s j n f)
unfolding accept_event
accept_event_cases P g s j n f ignored in_order wrong = elim (Option-cases (lookup j g.jobs)) [
  | inl e ↦ rw (e, accept_event) ignored
  | inr (st, e) ↦ elim (Bool-cases (st.agent_id == s.agent_id)) [
    | inr other ↦ rw (e, other, accept_event) ignored
    | inl own ↦ elim (Bool-cases (eqb n st.next_sequence)) [
      | inl next ↦
          rw (e, own, next, accept_event)
            (in_order st e ((eq_iff _ _).0 own) ((eqb_iff _ _).0 next))
      | inr not_next ↦
          rw (e, own, not_next, accept_event) (wrong st e ((eq_iff _ _).0 own) (ground arith))
    ]
  ]
]

pub remember_completed_cases {κ} :
    (P : Gateway → Type κ) (g : Gateway) (j : String)
    → (member j g.completed_jobs ≡ true → P g)
    → (member j g.completed_jobs ≡ false
        → length g.completed_order < g.max_completed_jobs
        → P (record g {
          completed_order = g.completed_order ++ j ∷ [];
          completed_jobs = j ∷ g.completed_jobs;
        }))
    → (member j g.completed_jobs ≡ false
        → g.max_completed_jobs ≤ length g.completed_order
        → let (jobs, order) = evict g.completed_jobs g.completed_order in
          P (record g { completed_order = order ++ j ∷ []; completed_jobs = j ∷ jobs }))
    → P (remember_completed g j)
unfolding remember_completed
remember_completed_cases P g j known room full = elim (Bool-cases (member j g.completed_jobs)) [
  | inl old ↦ rw old (known old)
  | inr new ↦ elim (Bool-cases (leb g.max_completed_jobs (length g.completed_order))) [
    | inl at_limit ↦ rw (new, at_limit) (full new (leb→le _ _ at_limit))
    | inr below ↦ rw (new, below) (room new (ground arith))
  ]
]
