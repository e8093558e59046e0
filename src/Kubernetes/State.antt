-- ===== src/Kubernetes/State.antt =====
-- `KubernetesTarget` and `KubernetesRelease` (controlplane/models.py), the requests and answers of
-- controlplane/kubernetes.py, and the errors it raises. Rows of releases stand newest first.
use django_ops.Common.{ℕ, Bool, true, false, Option, List, String, [], ◌∷◌}

-- `KubernetesRelease.Status`
pub data Status : Type 0 where
  pending validating migrating applying verifying : Status
  succeeded failed cancelled rolled_back rollback_blocked : Status

-- `_ACTIVE`
unfoldable pub is_active : Status → Bool
is_active pending = true
is_active validating = true
is_active migrating = true
is_active applying = true
is_active verifying = true
is_active _ = false

-- `_TERMINAL`
unfoldable pub is_terminal : Status → Bool
is_terminal succeeded = true
is_terminal failed = true
is_terminal cancelled = true
is_terminal rolled_back = true
is_terminal rollback_blocked = true
is_terminal _ = false

abbrev pub is_failed : Status → Bool
is_failed failed = true
is_failed _ = false

abbrev pub is_succeeded : Status → Bool
is_succeeded succeeded = true
is_succeeded _ = false

-- `_RECOVERABLE_ERRORS`
abbrev pub recoverable_errors : List String
recoverable_errors =
    "AGENT_UNAVAILABLE" ∷ "AGENT_RESULT_UNAVAILABLE" ∷ "CANCEL_UNAVAILABLE"
    ∷ "DURABLE_STATE_UNAVAILABLE" ∷ "RECOVERY_REQUIRED" ∷ []

pub record KubernetesTarget : Type 0 where
  pub pk : ℕ
  pub project_id : ℕ
  pub agent_id : String
  pub name : String
  pub api_server : String
  pub namespace : String
  pub release_name : String
  pub credential_ref : String
  pub ingress_class : String
  pub tls_secret_name : String
  pub validated : Bool

pub record KubernetesRelease : Type 0 where
  pub pk : ℕ
  pub project_id : ℕ
  pub target_id : ℕ
  pub status : Status
  pub operation_id : String
  pub image : String
  pub chart_version : String
  pub values_digest : String
  pub helm_revision : Option ℕ
  pub previous_helm_revision : Option ℕ
  pub previous_image : String
  pub previous_values_digest : String
  pub migration_compatibility : String
  pub rollback_status : String
  pub error_code : String

pub record Releases : Type 0 where
  pub rows : List KubernetesRelease
  pub next_pk : ℕ

pub record ReleaseRequest : Type 0 where
  pub operation_id : String
  pub namespace : String
  pub release_name : String
  pub image : String
  pub values_json : String
  pub credential_ref : String
  pub rollback_policy : String
  pub mode : String
  pub previous_revision : ℕ
  pub migration_timeout_seconds : ℕ
  pub rollout_timeout_seconds : ℕ

pub record ReleaseResult : Type 0 where
  pub status : String
  pub helm_revision : Option ℕ
  pub previous_revision : Option ℕ
  pub rollback_status : String
  pub error_code : String

pub record TargetValidation : Type 0 where
  pub reachable : Bool
  pub namespace_access : Bool
  pub helm_available : Bool
  pub permissions : List String

-- The `ValueError`s, the database's `IntegrityError`, `RuntimeError` of the backend, and what escapes it from
-- the gateway: `LookupError` and `ValueError`.
pub data KubernetesError : Type 0 where
  invalid_name invalid_api_server invalid_credential_ref mutable_image : KubernetesError
  unsupported_values secret_values bad_compatibility : KubernetesError
  foreign_agent identity_taken identity_duplicate validation_failed : KubernetesError
  bad_endpoint bad_observability backend_unavailable agent_missing gateway_refused : KubernetesError
