-- ===== src/Gateway/Steps.antt =====
-- The gateway under any sequence of events: agents that connect, send and leave, callers that open,
-- read, cancel and close jobs, and the transport that takes frames from a session.
use django_ops.Common.{ℕ, Option, none, some, List, [], ◌∷◌, String, ok, err}
use django_ops.Common.Dict.{lookup}
use django_ops.Gateway.State.{AgentFrame, AgentSession, Gateway, KubernetesReleaseRequest, after}
use django_ops.Gateway.Jobs.{
  start_diagnostics, start_kubernetes_release, next_event, close_events, cancel_job, set_session,
  with_outgoing,
}
use django_ops.Gateway.Sessions.{connect, consume, consume_end, disconnect}

pub data Event : Type 0 where
  connects : Option AgentFrame → ℕ → Event
  receives : String → AgentFrame → ℕ → Event
  ends : String → Event
  sends : String → Event
  leaves : AgentSession → Event
  diagnoses : String → String → String → Event
  releases : String → KubernetesReleaseRequest → Event
  reads : String → Event
  closes : String → Event
  cancels : String → Event

abbrev pub with_session : Gateway → String → (AgentSession → Gateway) → Gateway
with_session g agent_id f = elim (lookup agent_id g.sessions) [ none ↦ g | some s ↦ f s ]

-- `await session.outgoing.get()` by the transport
unfoldable pub take_outgoing : Gateway → AgentSession → Gateway
take_outgoing g session = elim session.outgoing [
  | [] ↦ g
  | frame ∷ rest ↦ set_session g session.agent_id (with_outgoing rest)
]

-- A call that raises leaves the gateway as it was, but for the release that gives its job back.
unfoldable pub step : Gateway → Event → Gateway
step g (connects first now) = elim (connect g first now) [ ok r ↦ r.0 | err e ↦ g ]
step g (receives agent_id frame now) = with_session g agent_id (λ s. after (consume g s frame now))
step g (ends agent_id) = with_session g agent_id (λ s. after (consume_end g s))
step g (sends agent_id) = with_session g agent_id (take_outgoing g)
step g (leaves session) = after (disconnect g session)
step g (diagnoses agent_id job_id root) = elim (start_diagnostics g agent_id job_id root) [
  | ok p ↦ after p
  | err e ↦ g
]
step g (releases agent_id request) = elim (start_kubernetes_release g agent_id request) [
  | ok p ↦ after p
  | err r ↦ r.1
]
step g (reads job_id) = elim (next_event g job_id) [ none ↦ g | some r ↦ r.1 ]
step g (closes job_id) = close_events g job_id
step g (cancels job_id) = (after (cancel_job g job_id)).0

unfoldable pub run : Gateway → List Event → Gateway
run g [] = g
run g (e ∷ es) = run (step g e) es
