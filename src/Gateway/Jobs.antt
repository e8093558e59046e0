-- ===== src/Gateway/Jobs.antt =====
-- Jobs of controlplane/gateway.py: opening, events of the agent, the consumer's side, cancelling.
-- A coroutine keeps the event loop until it waits, so each function is one uninterrupted run; the
-- lock is never awaited inside it, and a wait at a full queue is `Put.waits`.
use django_ops.Common.{
  ℕ, ◌+◌, Bool, true, false, not, ◌&&◌, ◌||◌, Option, none, some, List, [], ◌∷◌, ◌++◌, String, ◌==◌,
  length, all, any, member, keep, ltb, leb, eqb, if◌then◌else◌, Result, ok, err, ◌>>=◌, ◌>>◌,
  raise_if,
}
use django_ops.Common.Dict.{Dict, lookup, insert, erase, modify, contains, count_where}
use django_ops.Common.Text.{Text, codes, is_alnum, one_of, eq_text, path_parts, occurs, starts_with}
use django_ops.Gateway.State.{
  AgentFrame, result, kubernetes_result, ControlFrame, cancel, diagnostics, kubernetes_release,
  KubernetesReleaseRequest, JobState, AgentSession, Gateway, GatewayError, invalid_job_id,
  invalid_release_root, job_active, job_used, not_connected, no_capability, capacity_reached,
  max_job_events, max_outgoing_frames, Put, done, waits, offer, is_terminal,
}

-- `_ID_RE`: `^[A-Za-z0-9][A-Za-z0-9._-]{0,63}$`
unfoldable pub matches_id : Text → Bool
matches_id [] = false
matches_id (c ∷ s) =
    is_alnum c && leb (length s) 63 && all (λ d. is_alnum d || one_of (b'.' ∷ b'_' ∷ b'-' ∷ []) d) s

unfoldable pub validate_job_id : String → Result GatewayError (Unit {0})
validate_job_id job_id = raise_if (not (matches_id (codes job_id))) invalid_job_id

-- A path that starts with a slash is absolute.
unfoldable pub validate_release_root : String → Result GatewayError (Unit {0})
validate_release_root release_root = do
  let root = codes release_root
  raise_if (eqb (length root) 0 || ltb 256 (length root) || occurs (b'\\' ∷ []) root)
      invalid_release_root
  raise_if (starts_with (b'/' ∷ []) root || any (eq_text (b'.' ∷ b'.' ∷ [])) (path_parts root))
      invalid_release_root

-- `_failure_frame`; `detail` is `code.lower()`, whose two callers give it as a literal.
unfoldable pub failure_frame : JobState → String → ℕ → String → String → AgentFrame
failure_frame state job_id sequence code detail =
    if state.kind == "kubernetes"
    then kubernetes_result (record {
      job_id = job_id;
      sequence = sequence;
      status = "failed";
      helm_revision = 0;
      previous_revision = 0;
      rollback_status = "";
      error_code = code;
    })
    else result job_id sequence "failed"
        (record { name = "control_channel"; status = "fail"; detail = detail } ∷ [])

abbrev pub with_queue : List AgentFrame → JobState → JobState
with_queue q s = record s { queue = q }

abbrev pub with_outgoing : List (Option ControlFrame) → AgentSession → AgentSession
with_outgoing q s = record s { outgoing = q }

abbrev pub set_job : Gateway → String → (JobState → JobState) → Gateway
set_job g job_id f = record g { jobs = modify job_id f g.jobs }

abbrev pub set_session : Gateway → String → (AgentSession → AgentSession) → Gateway
set_session g agent_id f = record g { sessions = modify agent_id f g.sessions }

-- `await session.outgoing.put(frame)` on the session that is registered for the agent
unfoldable pub send : Gateway → AgentSession → Option ControlFrame → Put Gateway
send g session frame = elim (offer max_outgoing_frames frame session.outgoing) [
  | done q ↦ done (set_session g session.agent_id (with_outgoing q))
  | waits q ↦ waits g
]

-- `await state.queue.put(frame)`
unfoldable pub deliver : Gateway → String → JobState → AgentFrame → Put Gateway
deliver g job_id state frame = elim (offer max_job_events frame state.queue) [
  | done q ↦ done (set_job g job_id (with_queue q))
  | waits q ↦ waits g
]

abbrev pub then_put {ℓ κ} : {A : Type ℓ} {B : Type κ} → (A → B) → (A → Put B) → Put A → Put B
then_put stop k (done a) = k a
then_put stop k (waits a) = waits (stop a)

abbrev pub bump : JobState → JobState
bump s = record s { next_sequence = s.next_sequence + 1 }

unfoldable pub accept_event : Gateway → AgentSession → String → ℕ → AgentFrame → Put Gateway
accept_event g session job_id sequence frame = elim (lookup job_id g.jobs) [
  | none ↦ done g
  | some state ↦
      if not (state.agent_id == session.agent_id)
      then done g
      else if not (eqb sequence state.next_sequence)
      then then_put (λ g'. g') (λ g'. send g' session (some (cancel job_id)))
          (deliver g job_id state
            (failure_frame state job_id state.next_sequence "STREAM_ORDER" "stream_order"))
      else deliver (set_job g job_id bump) job_id (bump state) frame
]

-- `inflight = sum(1 for state in self._jobs.values() if state.agent_id == agent_id)`
unfoldable pub inflight : String → Dict JobState → ℕ
inflight agent_id = count_where (λ s. s.agent_id == agent_id)

unfoldable pub open_job :
    Gateway
    → String
    → String
    → String
    → Bool
    → Result GatewayError (Gateway × AgentSession × JobState)
open_job g agent_id job_id kind allow_completed_reuse = do
  validate_job_id job_id
  raise_if (contains job_id g.jobs) job_active
  raise_if (member job_id g.completed_jobs && not allow_completed_reuse) job_used
  elim (lookup agent_id g.sessions) [
    | none ↦ err not_connected
    | some session ↦ do
      raise_if (leb g.max_inflight_per_agent (inflight agent_id g.jobs)) capacity_reached
      let state : JobState = record {
        agent_id = agent_id;
        kind = kind;
        queue = [];
        next_sequence = 1;
        cancel_sent = false;
      }
      ok (record g { jobs = insert job_id state g.jobs }, session, state)
  ]

-- `deque.popleft` together with `set.discard` of what it returns
unfoldable pub evict : List String → List String → List String × List String
evict jobs [] = (jobs, [])
evict jobs (oldest ∷ order) = (keep (λ j. not (j == oldest)) jobs, order)

unfoldable pub remember_completed : Gateway → String → Gateway
remember_completed g job_id =
    if member job_id g.completed_jobs
    then g
    else let (jobs, order) =
        if leb g.max_completed_jobs (length g.completed_order)
        then evict g.completed_jobs g.completed_order
        else (g.completed_jobs, g.completed_order) in
      record g { completed_order = order ++ job_id ∷ []; completed_jobs = job_id ∷ jobs }

-- One turn of the loop in `_events`: the frame that is yielded, once there is one.
unfoldable pub take_event : Gateway → String → Option (AgentFrame × Gateway)
take_event g job_id = elim (lookup job_id g.jobs) [
  | none ↦ none
  | some state ↦ elim state.queue [
    | [] ↦ none
    | frame ∷ rest ↦ some (frame, set_job g job_id (with_queue rest))
  ]
]

-- The `finally` of `_events`, reached after a terminal frame and when the caller stops early.
unfoldable pub close_events : Gateway → String → Gateway
close_events g job_id = remember_completed (record g { jobs = erase job_id g.jobs }) job_id

-- One `async for` step of the caller: the frame, and the loop's end after a terminal one.
unfoldable pub next_event : Gateway → String → Option (AgentFrame × Gateway)
next_event g job_id = elim (take_event g job_id) [
  | none ↦ none
  | some (frame, g') ↦ some (frame, if is_terminal frame then close_events g' job_id else g')
]

-- `AgentGateway.diagnostics`, up to its first frame.
unfoldable pub start_diagnostics :
    Gateway → String → String → String → Result GatewayError (Put Gateway)
start_diagnostics g agent_id job_id release_root = do
  validate_release_root release_root
  (g', session, state) ← open_job g agent_id job_id "diagnostic" false
  ok (send g' session (some (diagnostics job_id release_root)))

abbrev pub kubernetes_capability : String
kubernetes_capability = "kubernetes_release_v1"

-- `AgentGateway.kubernetes_release`, up to its first frame. The job that `_open_job` adds is taken
-- back when the agent lacks the capability, so the error comes with the gateway it leaves.
unfoldable pub start_kubernetes_release :
    Gateway → String → KubernetesReleaseRequest → Result (GatewayError × Gateway) (Put Gateway)
start_kubernetes_release g agent_id request =
    elim (open_job g agent_id request.job_id "kubernetes" true) [
      | err e ↦ err (e, g)
      | ok (g', session, state) ↦
          if not (member kubernetes_capability session.capabilities)
          then err (no_capability, record g' { jobs = erase request.job_id g'.jobs })
          else ok (send g' session (some (kubernetes_release request)))
    ]

-- `AgentGateway.cancel`: what it returns, and whether its put waits.
unfoldable pub cancel_job : Gateway → String → Put (Gateway × Bool)
cancel_job g job_id = elim (lookup job_id g.jobs) [
  | none ↦ done (g, false)
  | some state ↦
      if state.cancel_sent then done (g, true) else elim (lookup state.agent_id g.sessions) [
        | none ↦ done (g, false)
        | some session ↦
            then_put (λ g'. (g', true)) (λ g'. done (g', true))
              (send (set_job g job_id (λ s. record s { cancel_sent = true })) session
                (some (cancel job_id)))
      ]
]
