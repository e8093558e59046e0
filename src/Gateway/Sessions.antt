-- ===== src/Gateway/Sessions.antt =====
-- Sessions of controlplane/gateway.py: construction, `Connect`, `_consume`, `_disconnect` and the
-- queries about a connected agent. Times are readings of the monotonic clock.
use django_ops.Common.{
  ℕ, ◌+◌, ◌-◌, Bool, not, ◌&&◌, ◌||◌, Option, none, some, List, [], ◌∷◌, String, ◌==◌, all, member,
  ltb, eqb, if◌then◌else◌, Result, ok, err, ◌>>◌, raise_if,
}
use django_ops.Common.Dict.{Dict, lookup, insert, erase, contains}
use django_ops.Common.Text.{codes}
use django_ops.Gateway.State.{
  AgentFrame, AgentHello, hello, heartbeat, progress, result, kubernetes_progress,
  kubernetes_result, JobState, AgentSession, Gateway, GatewayError, limits_not_positive,
  not_connected, Abort, hello_required, hello_first, invalid_identity, unsupported_protocol,
  capability_required, authentication_failed, not_ascii, already_connected, max_job_events, Put,
  done, offer,
}
use django_ops.Gateway.Jobs.{
  matches_id, failure_frame, accept_event, send, set_session, with_queue, then_put,
}

-- `AgentGateway.__init__`
unfoldable pub new_gateway : Dict String → ℕ → ℕ → Result GatewayError Gateway
new_gateway agent_tokens max_completed_jobs max_inflight_per_agent = do
  raise_if (ltb max_completed_jobs 1 || ltb max_inflight_per_agent 1) limits_not_positive
  ok (record {
    agent_tokens = agent_tokens;
    sessions = [];
    jobs = [];
    completed_jobs = [];
    completed_order = [];
    max_completed_jobs = max_completed_jobs;
    max_inflight_per_agent = max_inflight_per_agent;
    next_ident = 0;
  })

abbrev pub protocol_major_supported : ℕ
protocol_major_supported = 1

abbrev pub diagnostic_capability : String
diagnostic_capability = "django_diagnostics_v1"

abbrev pub is_ascii : String → Bool
is_ascii s = all (λ c. ltb c 128) (codes s)

-- `expected is None or not hmac.compare_digest(expected, token)`; the digest comparison of two
-- texts raises where one of them is not ASCII.
unfoldable pub authenticate : Option String → String → Result Abort (Unit {0})
authenticate none token = err authentication_failed
authenticate (some expected) token = do
  raise_if (not (is_ascii expected && is_ascii token)) not_ascii
  raise_if (not (expected == token)) authentication_failed

unfoldable pub admit : Gateway → AgentHello → ℕ → Result Abort (Gateway × AgentSession)
admit g h now = do
  raise_if (not (matches_id (codes h.agent_id))) invalid_identity
  raise_if (not (eqb h.major protocol_major_supported)) unsupported_protocol
  raise_if (not (member diagnostic_capability h.capabilities)) capability_required
  authenticate (lookup h.agent_id g.agent_tokens) h.auth_token
  raise_if (contains h.agent_id g.sessions) already_connected
  let session : AgentSession = record {
    ident = g.next_ident;
    agent_id = h.agent_id;
    capabilities = h.capabilities;
    protocol_major = h.major;
    protocol_minor = h.minor;
    outgoing = [];
    last_heartbeat = now;
  }
  ok (
    record g { sessions = insert h.agent_id session g.sessions; next_ident = g.next_ident + 1 },
    session,
  )

-- `Connect` up to the start of its loop; `none` is a stream that ends before its first frame.
unfoldable pub connect : Gateway → Option AgentFrame → ℕ → Result Abort (Gateway × AgentSession)
connect g none now = err hello_required
connect g (some (hello h)) now = admit g h now
connect g (some _) now = err hello_first

-- The body of the loop in `_consume`.
unfoldable pub consume : Gateway → AgentSession → AgentFrame → ℕ → Put Gateway
consume g session heartbeat now =
    done (set_session g session.agent_id (λ s. record s { last_heartbeat = now }))
consume g session (progress job_id sequence phase message) now =
    accept_event g session job_id sequence (progress job_id sequence phase message)
consume g session (result job_id sequence status checks) now =
    accept_event g session job_id sequence (result job_id sequence status checks)
consume g session (kubernetes_progress job_id sequence phase message) now =
    accept_event g session job_id sequence (kubernetes_progress job_id sequence phase message)
consume g session (kubernetes_result r) now =
    accept_event g session r.job_id r.sequence (kubernetes_result r)
consume g session _ now = done g

-- The `finally` of `_consume`: the sentinel that ends the outgoing stream.
unfoldable pub consume_end : Gateway → AgentSession → Put Gateway
consume_end g session = send g session none

-- The loop of `_disconnect` over the agent's jobs.
unfoldable pub fail_jobs : String → Dict JobState → Put (Dict JobState)
fail_jobs agent_id [] = done []
fail_jobs agent_id ((job_id, state) ∷ jobs) =
    let rest = fail_jobs agent_id jobs in
    if state.agent_id == agent_id
    then then_put (λ q. (job_id, state) ∷ jobs)
        (λ q.
          then_put (λ r. (job_id, with_queue q state) ∷ r)
            (λ r. done ((job_id, with_queue q state) ∷ r)) rest)
        (offer max_job_events
          (failure_frame state job_id state.next_sequence "AGENT_DISCONNECTED" "agent_disconnected")
          state.queue)
    else then_put (λ r. (job_id, state) ∷ r) (λ r. done ((job_id, state) ∷ r)) rest

-- `_disconnect` up to its loop: the session is removed only if it is the registered object.
unfoldable pub unregister : Gateway → AgentSession → Gateway
unregister g session = elim (lookup session.agent_id g.sessions) [
  | none ↦ g
  | some registered ↦
      if eqb registered.ident session.ident
      then record g { sessions = erase session.agent_id g.sessions }
      else g
]

unfoldable pub disconnect : Gateway → AgentSession → Put Gateway
disconnect g session =
    let g' = unregister g session in
    then_put (λ jobs. record g' { jobs = jobs }) (λ jobs. done (record g' { jobs = jobs }))
      (fail_jobs session.agent_id g'.jobs)

unfoldable pub is_connected : Gateway → String → Bool
is_connected g agent_id = contains agent_id g.sessions

abbrev pub query {ℓ} : {A : Type ℓ} → Gateway → String → (AgentSession → A) → Result GatewayError A
query g agent_id f = elim (lookup agent_id g.sessions) [
  | none ↦ err not_connected
  | some session ↦ ok (f session)
]

-- A reading of the monotonic clock is a number of nanoseconds. `max(0.0, now - last)` is subtraction that stops
-- at zero.
unfoldable pub heartbeat_age : Gateway → String → ℕ → Result GatewayError ℕ
heartbeat_age g agent_id now = query g agent_id (λ s. now - s.last_heartbeat)

unfoldable pub capabilities : Gateway → String → Result GatewayError (List String)
capabilities g agent_id = query g agent_id (λ s. s.capabilities)

unfoldable pub protocol_version : Gateway → String → Result GatewayError (ℕ × ℕ)
protocol_version g agent_id = query g agent_id (λ s. (s.protocol_major, s.protocol_minor))
