-- ===== src/Gateway/Invariant/Queues.antt =====
-- The primitive changes of the gateway, and that none of them lets a queue outgrow its limit.
use django_ops.Common.{
  ◌+◌, ◌≤◌, ◌<◌, ◌≡◌, inl, inr, ◌==◌, none, List, [], ◌∷◌, String, length, arith, Bool-cases, ◌≢◌,
  ◌++◌, eq_iff, ltb, ltb→lt, length-append, ap,
}
use django_ops.Common.Dict.{
  Dict, lookup, insert, erase, AllValues, AllValues-insert, AllValues-erase, AllValues-modify,
}
use django_ops.Gateway.State.{
  AgentFrame, JobState, AgentSession, Gateway, max_job_events, after, offer,
}
use django_ops.Gateway.Jobs.{
  failure_frame, inflight, remember_completed, set_job, set_session, with_queue,
}
use django_ops.Gateway.Cases.{after-then_done, JobFits, SessionFits, remember_completed_cases}
use django_ops.Gateway.Sessions.{fail_jobs}

-- One change of the gateway's state, as the handlers make them.
pub data Change (g : Gateway) : Gateway → Type 0 where
  job :
      (j : String) (f : JobState → JobState)
      → ((s : JobState) → (f s).agent_id ≡ s.agent_id)
      → ((s : JobState) → JobFits s → JobFits (f s))
      → Change g (set_job g j f)
  session :
      (a : String) (f : AgentSession → AgentSession)
      → ((s : AgentSession) → SessionFits s → SessionFits (f s))
      → Change g (set_session g a f)
  opens :
      (j : String) (st : JobState)
      → lookup j g.jobs ≡ none
      → inflight st.agent_id g.jobs < g.max_inflight_per_agent
      → st.queue ≡ []
      → Change g (record g { jobs = insert j st g.jobs })
  drops : (j : String) → Change g (record g { jobs = erase j g.jobs })
  remembers : (j : String) → Change g (remember_completed g j)
  registers :
      (a : String) (s : AgentSession)
      → s.outgoing ≡ []
      → Change g (record g { sessions = insert a s g.sessions; next_ident = g.next_ident + 1 })
  unregisters : (a : String) → Change g (record g { sessions = erase a g.sessions })
  fails : (a : String) → Change g (record g { jobs = after (fail_jobs a g.jobs) })

pub data Changes (g : Gateway) : Gateway → Type 0 where
  here : Changes g g
  next : {h k : Gateway} → Changes g h → Change h k → Changes g k

disconnected_frame : JobState → String → AgentFrame
disconnected_frame s j = failure_frame s j s.next_sequence "AGENT_DISCONNECTED" "agent_disconnected"

fail_jobs_cases {κ} :
    (P : Dict JobState → Type κ) (a j : String) (s : JobState) (d : Dict JobState)
    → (s.agent_id ≢ a → P ((j, s) ∷ after (fail_jobs a d)))
    → (s.agent_id ≡ a
        → length s.queue < max_job_events
        → P ((j, with_queue (s.queue ++ disconnected_frame s j ∷ []) s) ∷ after (fail_jobs a d)))
    → (s.agent_id ≡ a → max_job_events ≤ length s.queue → P ((j, s) ∷ d))
    → P (after (fail_jobs a ((j, s) ∷ d)))
unfolding fail_jobs offer disconnected_frame
fail_jobs_cases P a j s d other failed stuck = elim (Bool-cases (s.agent_id == a)) [
  | inr ne ↦
      rw (ne, fail_jobs, after-then_done (λ r. (j, s) ∷ r) (fail_jobs a d))
        (other (λ e. cc ((eq_iff s.agent_id a).1 e)))
  | inl own ↦ elim (Bool-cases (ltb (length s.queue) max_job_events)) [
    | inl room ↦
        rw
          (
            own,
            room,
            fail_jobs,
            offer,
            after-then_done (λ r. (j, with_queue (s.queue ++ disconnected_frame s j ∷ []) s) ∷ r)
                (fail_jobs a d),
          )
          (failed ((eq_iff s.agent_id a).0 own) (ltb→lt _ _ room))
    | inr full ↦
        rw (own, full, fail_jobs, offer) (stuck ((eq_iff s.agent_id a).0 own) (ground arith))
  ]
]

-- What `_disconnect` does to the jobs, job by job: the queue of some is longer, within the limit.
pub fail_jobs_elim {κ} :
    (P : Dict JobState → Dict JobState → Type κ) (a : String)
    → ((d : Dict JobState) → P d d)
    → ((j : String) (s : JobState) (q : List AgentFrame) (d e : Dict JobState)
        → (JobFits s → length q ≤ max_job_events)
        → P d e
        → P ((j, s) ∷ d) ((j, with_queue q s) ∷ e))
    → (d : Dict JobState) → P d (after (fail_jobs a d))
fail_jobs_elim P a same longer [] = unfold fail_jobs in same []
fail_jobs_elim P a same longer ((j, s) ∷ d) =
    let rest = fail_jobs_elim P a same longer d in
    fail_jobs_cases (P ((j, s) ∷ d)) a j s d
      (λ _. longer j s s.queue d (after (fail_jobs a d)) (λ h. h) rest)
      (λ _ room.
        longer j s _ d (after (fail_jobs a d))
          (λ _. ground (arith, length-append s.queue (disconnected_frame s j ∷ []))) rest)
      (λ _ _. same ((j, s) ∷ d))

abbrev pub QueuesFit : Gateway → Type 0
QueuesFit g = AllValues JobFits g.jobs × AllValues SessionFits g.sessions

fail_jobs-fit :
    (a : String) (d : Dict JobState)
    → AllValues JobFits d
    → AllValues JobFits (after (fail_jobs a d))
fail_jobs-fit a =
    fail_jobs_elim (λ d e. AllValues JobFits d → AllValues JobFits e) a (λ d h. h)
      (λ j s q d e fits rest h. (fits h.0, rest h.1))

-- Every change keeps every queue within its limit.
pub Change-QueuesFit : {g h : Gateway} → Change g h → QueuesFit g → QueuesFit h
Change-QueuesFit {g} (job j f own fits) q = (AllValues-modify JobFits j f g.jobs fits q.0, q.1)
Change-QueuesFit {g} (session a f fits) q =
    (q.0, AllValues-modify SessionFits a f g.sessions fits q.1)
Change-QueuesFit {g} (opens j st fresh room empty) q =
    (AllValues-insert JobFits j st g.jobs (omega (arith, ap length empty)) q.0, q.1)
Change-QueuesFit {g} (drops j) q = (AllValues-erase JobFits j g.jobs q.0, q.1)
Change-QueuesFit {g} (remembers j) q =
    remember_completed_cases QueuesFit g j (λ _. q) (λ _ _. q) (λ _ _. q)
Change-QueuesFit {g} (registers a s empty) q =
    (q.0, AllValues-insert SessionFits a s g.sessions (omega (arith, ap length empty)) q.1)
Change-QueuesFit {g} (unregisters a) q = (q.0, AllValues-erase SessionFits a g.sessions q.1)
Change-QueuesFit {g} (fails a) q = (fail_jobs-fit a g.jobs q.0, q.1)
