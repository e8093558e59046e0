-- ===== src/Gateway/State.antt =====
-- The data of controlplane/gateway.py: frames (proto/djangoops/agent/v1/agent.proto), jobs,
-- sessions, the gateway object and the exceptions its methods raise.
use django_ops.Common.{
  ℕ, ◌≤◌, ◌≡◌, refl, ◌⊎◌, inl, inr, Bool, true, false, Option, List, [], ◌∷◌, ◌++◌, String, length,
  ltb, if◌then◌else◌, length-append, arith,
}
use django_ops.Common.Dict.{Dict}

pub record DiagnosticCheck : Type 0 where
  pub name : String
  pub status : String
  pub detail : String

pub record AgentHello : Type 0 where
  pub agent_id : String
  pub major : ℕ
  pub minor : ℕ
  pub capabilities : List String
  pub auth_token : String

pub record KubernetesReleaseResult : Type 0 where
  pub job_id : String
  pub sequence : ℕ
  pub status : String
  pub helm_revision : ℕ
  pub previous_revision : ℕ
  pub rollback_status : String
  pub error_code : String

pub record KubernetesReleaseRequest : Type 0 where
  pub job_id : String
  pub namespace : String
  pub release_name : String
  pub chart_path : String
  pub image : String
  pub values_json : String
  pub credential_ref : String
  pub migration_timeout_seconds : ℕ
  pub rollout_timeout_seconds : ℕ
  pub rollback_policy : String
  pub mode : String
  pub previous_revision : ℕ

-- `AgentFrame`, by the field of its `oneof` that is set; `unset` is a frame with none.
pub data AgentFrame : Type 0 where
  hello : AgentHello → AgentFrame
  heartbeat : AgentFrame
  progress : String → ℕ → String → String → AgentFrame
  result : String → ℕ → String → List DiagnosticCheck → AgentFrame
  kubernetes_progress : String → ℕ → String → String → AgentFrame
  kubernetes_result : KubernetesReleaseResult → AgentFrame
  unset : AgentFrame

pub data ControlFrame : Type 0 where
  diagnostics : String → String → ControlFrame
  cancel : String → ControlFrame
  kubernetes_release : KubernetesReleaseRequest → ControlFrame

-- `frame.HasField("result") or frame.HasField("kubernetes_result")`
unfoldable pub is_terminal : AgentFrame → Bool
is_terminal (result j n s c) = true
is_terminal (kubernetes_result r) = true
is_terminal _ = false

pub record JobState : Type 0 where
  pub agent_id : String
  pub kind : String
  pub queue : List AgentFrame
  pub next_sequence : ℕ
  pub cancel_sent : Bool

-- `ident` tells one session object from another, for `is`; `none` in `outgoing` ends the stream.
pub record AgentSession : Type 0 where
  pub ident : ℕ
  pub agent_id : String
  pub capabilities : List String
  pub protocol_major : ℕ
  pub protocol_minor : ℕ
  pub outgoing : List (Option ControlFrame)
  pub last_heartbeat : ℕ

pub record Gateway : Type 0 where
  pub agent_tokens : Dict String
  pub sessions : Dict AgentSession
  pub jobs : Dict JobState
  pub completed_jobs : List String
  pub completed_order : List String
  pub max_completed_jobs : ℕ
  pub max_inflight_per_agent : ℕ
  pub next_ident : ℕ

-- `ValueError`, `LookupError` and `RuntimeError` of the gateway's methods, by their message.
pub data GatewayError : Type 0 where
  limits_not_positive invalid_job_id invalid_release_root job_active job_used : GatewayError
  not_connected no_capability : GatewayError
  capacity_reached : GatewayError

-- What `Connect` answers when it aborts.
pub data Abort : Type 0 where
  hello_required hello_first invalid_identity : Abort
  unsupported_protocol capability_required : Abort
  authentication_failed not_ascii : Abort
  already_connected : Abort

abbrev pub max_job_events : ℕ
max_job_events = 32

abbrev pub max_outgoing_frames : ℕ
max_outgoing_frames = 32

-- A coroutine that has run to its end, or that waits at a full queue in the state it reached.
pub data Put {ℓ} (A : Type ℓ) : Type ℓ where
  done : A → Put A
  waits : A → Put A

abbrev pub after {ℓ} : {A : Type ℓ} → Put A → A
after (done a) = a
after (waits a) = a

pub Put-cases {ℓ} : {A : Type ℓ} (p : Put A) → ((a : A) × (p ≡ done a)) ⊎ ((a : A) × (p ≡ waits a))
Put-cases (done a) = inl (a, refl)
Put-cases (waits a) = inr (a, refl)

-- `await queue.put(frame)`: at once where there is room.
unfoldable pub offer {ℓ} : {A : Type ℓ} → ℕ → A → List A → Put (List A)
offer limit a q = if ltb (length q) limit then done (q ++ a ∷ []) else waits q

pub length-offer {ℓ} :
    {A : Type ℓ} (limit : ℕ) (a : A) (q : List A)
    → length q ≤ limit
    → length (after (offer limit a q)) ≤ limit
unfolding offer
length-offer limit a q h = ground (arith, length-append q (a ∷ []))
