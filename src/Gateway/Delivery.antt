-- ===== src/Gateway/Delivery.antt =====
-- `_accept_event`: what an agent's events do to the job that they name.
use django_ops.Common.{
  ℕ, ◌+◌, ◌≤◌, ◌<◌, ◌≡◌, ◌≢◌, refl, eq_iff, eq_refl, true, some, List, [], ◌∷◌, ◌++◌, append_assoc,
  append-nil, ◌∙◌, String, length, length-append, arith,
}
use native.Mathlib.Nat.{add-zero}
use django_ops.Common.Dict.{lookup, modify, lookup-modify}
use django_ops.Gateway.State.{
  AgentFrame, cancel, JobState, AgentSession, Gateway, max_job_events, max_outgoing_frames, done,
  after, offer, is_terminal,
}
use django_ops.Gateway.Jobs.{
  accept_event, deliver, send, bump, set_job, set_session, with_queue, with_outgoing, failure_frame,
}
use django_ops.Gateway.Cases.{accept_event_cases, order_failure}

accept_event-ignored :
    (g : Gateway) (s : AgentSession) (j : String) (n : ℕ) (f : AgentFrame)
    → ((st : JobState) → lookup j g.jobs ≡ some st → st.agent_id ≢ s.agent_id)
    → accept_event g s j n f ≡ done g
accept_event-ignored g s j n f foreign =
    accept_event_cases (λ p. p ≡ done g) g s j n f refl (λ st e own _. absurd (foreign st e own))
      (λ st e own _. absurd (foreign st e own))

module _ (g : Gateway) (s : AgentSession) (j : String) (st : JobState)
    (active : lookup j g.jobs ≡ some st) (own : st.agent_id ≡ s.agent_id)
    (room : length st.queue < max_job_events) where
  delivered : AgentFrame → Gateway
  delivered f = set_job (set_job g j bump) j (with_queue (st.queue ++ f ∷ []))

  accept_event-eq-delivered :
      (f : AgentFrame) → accept_event g s j st.next_sequence f ≡ done (delivered f)
  unfolding accept_event deliver offer delivered
  accept_event-eq-delivered f = ground (arith, eq_iff st.agent_id s.agent_id)

  -- The event that the job waits for goes to the end of its queue.
  pub accept_event_next :
      (f : AgentFrame)
      → let g' = after (accept_event g s j st.next_sequence f) in
        (lookup j g'.jobs
          ≡ some (record st { queue = st.queue ++ f ∷ []; next_sequence = st.next_sequence + 1 }))
        × ((k : String) → k ≢ j → lookup k g'.jobs ≡ lookup k g.jobs)
        × (g'.sessions ≡ g.sessions)
  unfolding delivered
  accept_event_next f = rw (accept_event-eq-delivered f) (
    grind (arith, lookup-modify, eq_refl),
    (λ k ne. ground (
      arith,
      eq_iff j k,
      lookup-modify j k (with_queue (st.queue ++ f ∷ [])) (modify j bump g.jobs),
      lookup-modify j k bump g.jobs,
    )),
    refl,
  )

  refused : Gateway
  refused =
      set_session (set_job g j (with_queue (st.queue ++ order_failure st j ∷ []))) s.agent_id
        (with_outgoing (s.outgoing ++ some (cancel j) ∷ []))

  accept_event-eq-refused :
      (n : ℕ) (f : AgentFrame)
      → n ≢ st.next_sequence
      → length s.outgoing < max_outgoing_frames
      → accept_event g s j n f ≡ done refused
  unfolding accept_event deliver offer send refused
  accept_event-eq-refused n f ne space = ground (arith, eq_iff st.agent_id s.agent_id)

  order_failure-terminal : is_terminal (order_failure st j) ≡ true
  unfolding is_terminal failure_frame
  order_failure-terminal = ground arith

  -- An event of the job's own agent, whose session is the registered one, with another number than the one
  -- the job waits for, where both queues have room: the event itself is dropped, a terminal failure frame goes
  -- to the end of the job's queue, the job still waits for the same number, a cancel frame for the job goes to
  -- the end of the session's outgoing queue, and nothing else of the gateway changes: no other job, no other
  -- session and not the memory of completed jobs.
  pub accept_event_out_of_order :
      (n : ℕ) (f : AgentFrame)
      → n ≢ st.next_sequence
      → length s.outgoing < max_outgoing_frames
      → lookup s.agent_id g.sessions ≡ some s
      → let g' = after (accept_event g s j n f) in
        (lookup j g'.jobs ≡ some (with_queue (st.queue ++ order_failure st j ∷ []) st))
        × (is_terminal (order_failure st j) ≡ true)
        × ((k : String) → k ≢ j → lookup k g'.jobs ≡ lookup k g.jobs)
        × (lookup s.agent_id g'.sessions
            ≡ some (with_outgoing (s.outgoing ++ some (cancel j) ∷ []) s))
        × ((a : String) → a ≢ s.agent_id → lookup a g'.sessions ≡ lookup a g.sessions)
        × (g' ≡ record g { jobs = g'.jobs; sessions = g'.sessions })
  unfolding refused
  accept_event_out_of_order n f ne space registered = rw (accept_event-eq-refused n f ne space) (
    grind (arith, lookup-modify, eq_refl),
    order_failure-terminal,
    (λ k ne'. ground (
      arith,
      eq_iff j k,
      lookup-modify j k (with_queue (st.queue ++ order_failure st j ∷ [])) g.jobs,
    )),
    grind (arith, lookup-modify, eq_refl),
    (λ a ne'. ground (
      arith,
      eq_iff s.agent_id a,
      lookup-modify s.agent_id a (with_outgoing (s.outgoing ++ some (cancel j) ∷ [])) g.sessions,
    )),
    refl,
  )

-- The events of one job, numbered one after the other from `n` on.
abbrev pub accept_all : Gateway → AgentSession → String → ℕ → List AgentFrame → Gateway
accept_all g s j n [] = g
accept_all g s j n (f ∷ fs) = accept_all (after (accept_event g s j n f)) s j (n + 1) fs

-- Consecutively numbered events of a job's own agent that start at the number the job waits for, and
-- that fit its queue, are all queued, in order and once each, behind what is there; the job then waits
-- for the number after the last, and no other job is changed.
pub accept_all_in_order :
    (fs : List AgentFrame) (g : Gateway) (s : AgentSession) (j : String) (st : JobState)
    → lookup j g.jobs ≡ some st
    → st.agent_id ≡ s.agent_id
    → length st.queue + length fs ≤ max_job_events
    → let g' = accept_all g s j st.next_sequence fs in
      (lookup j g'.jobs
        ≡ some (record st { queue = st.queue ++ fs; next_sequence = st.next_sequence + length fs }))
      × ((k : String) → k ≢ j → lookup k g'.jobs ≡ lookup k g.jobs)
accept_all_in_order [] g s j st active own room =
    (rw (append-nil st.queue, add-zero st.next_sequence) active, λ k ne. refl)
accept_all_in_order (f ∷ fs) g s j st active own room =
    let g' = after (accept_event g s j st.next_sequence f) in
    let st' : JobState = record st {
      queue = st.queue ++ f ∷ [];
      next_sequence = st.next_sequence + 1;
    } in
    let first = accept_event_next g s j st active own (omega arith) f in
    let rest =
      accept_all_in_order fs g' s j st' first.0 own
        (omega (arith, length-append st.queue (f ∷ []))) in
    (ground (arith, rest.0, append_assoc st.queue (f ∷ []) fs), λ k ne. rest.1 k ne ∙ first.1 k ne)
