-- ===== src/Kubernetes/Targets.antt =====
-- controlplane/kubernetes.py: `register_target`. The row is committed before the backend is asked,
-- since no transaction surrounds the two.
use django_ops.Common.{
  ℕ, ◌+◌, Bool, true, false, not, ◌&&◌, List, [], ◌∷◌, String, ◌==◌, eqb, any, keep, if◌then◌else◌,
  Result, ok, err, ◌>>=◌, ◌>>◌, raise_if,
}
use django_ops.Common.Redact.{truncate}
use django_ops.Kubernetes.State.{
  KubernetesTarget, TargetValidation, KubernetesError, foreign_agent, identity_taken,
  identity_duplicate, validation_failed, backend_unavailable,
}
use django_ops.Kubernetes.Validation.{
  strip, validate_name, ParsedUrl, validate_api_server, validate_credential_ref, is_valid,
}

pub record Targets : Type 0 where
  pub rows : List KubernetesTarget
  pub next_pk : ℕ

pub record Agent : Type 0 where
  pub agent_id : String
  pub project_id : ℕ

-- The keyword arguments of `register_target`.
pub record Registration : Type 0 where
  pub project_id : ℕ
  pub agent : Agent
  pub name : String
  pub api_server : String
  pub namespace : String
  pub release_name : String
  pub credential_ref : String
  pub ingress_class : String
  pub tls_secret_name : String

-- The fields of the constraint `cp_k8s_cluster_release_unique`.
unfoldable pub same_identity : KubernetesTarget → KubernetesTarget → Bool
same_identity a b =
    a.api_server == b.api_server && a.namespace == b.namespace && a.release_name == b.release_name

-- `_validate_name(value) if value else ""`
unfoldable pub optional_name : String → Result KubernetesError String
optional_name value = if value == "" then ok "" else validate_name false value

-- The validated address, namespace and release name.
pub record Identity : Type 0 where
  pub api_server : String
  pub namespace : String
  pub release_name : String

unfoldable pub identity_of : (String → ParsedUrl) → Registration → Result KubernetesError Identity
identity_of urlparse a = do
  raise_if (not (eqb a.agent.project_id a.project_id)) foreign_agent
  api_server ← validate_api_server urlparse a.api_server
  namespace ← validate_name false a.namespace
  release_name ← validate_name true a.release_name
  ok (record { api_server = api_server; namespace = namespace; release_name = release_name })

-- The query for a row of another project with the identity.
unfoldable pub is_taken : ℕ → Identity → KubernetesTarget → Bool
is_taken project i r =
    r.api_server == i.api_server
    && r.namespace == i.namespace
    && r.release_name == i.release_name
    && not (eqb r.project_id project)

-- The validated fields that the arguments of `objects.create` compute.
pub record Fields : Type 0 where
  pub credential_ref : String
  pub ingress_class : String
  pub tls_secret_name : String

unfoldable pub fields_of : Registration → Result KubernetesError Fields
fields_of a = do
  credential_ref ← validate_credential_ref a.credential_ref
  ingress_class ← optional_name a.ingress_class
  tls_secret_name ← optional_name a.tls_secret_name
  ok (record {
    credential_ref = credential_ref;
    ingress_class = ingress_class;
    tls_secret_name = tls_secret_name;
  })

unfoldable pub target_row : ℕ → Registration → Identity → Fields → KubernetesTarget
target_row pk a i f = record {
  pk = pk;
  project_id = a.project_id;
  agent_id = a.agent.agent_id;
  name = truncate 80 (strip a.name);
  api_server = i.api_server;
  namespace = i.namespace;
  release_name = i.release_name;
  credential_ref = f.credential_ref;
  ingress_class = f.ingress_class;
  tls_secret_name = f.tls_secret_name;
  validated = false;
}

-- The checks up to `objects.create`, and the row to create.
unfoldable pub checked_row :
    (String → ParsedUrl) → Targets → Registration → Result KubernetesError KubernetesTarget
checked_row urlparse t a = identity_of urlparse a >>= λ i.
    raise_if (any (is_taken a.project_id i) t.rows) identity_taken
    >> (fields_of a >>= λ f. ok (target_row t.next_pk a i f))

-- `objects.create`: the database refuses a second row of one identity.
unfoldable pub create_row : Targets → KubernetesTarget → Result KubernetesError Targets
create_row t r =
    raise_if (any (same_identity r) t.rows) identity_duplicate
    >> ok (record { rows = r ∷ t.rows; next_pk = t.next_pk + 1 })

-- What the backend's `validate` did: it returned, raised `RuntimeError`, or let an error of the gateway
-- escape (`agent_missing` or `gateway_refused`).
pub data ValidateAnswer : Type 0 where
  escaped : KubernetesError → ValidateAnswer
  validated : TargetValidation → ValidateAnswer
  unreachable : ValidateAnswer

unfoldable pub without_pk : ℕ → List KubernetesTarget → List KubernetesTarget
without_pk pk rows = keep (λ r. not (eqb r.pk pk)) rows

unfoldable pub mark_validated : ℕ → List KubernetesTarget → List KubernetesTarget
mark_validated pk [] = []
mark_validated pk (r ∷ rs) =
    (if eqb r.pk pk then record r { validated = true } else r) ∷ mark_validated pk rs

-- `register_target` after the backend's answer; `t` holds the created row.
unfoldable pub settle_target :
    Targets → KubernetesTarget → ValidateAnswer → Targets × Result KubernetesError KubernetesTarget
settle_target t r unreachable = (t, err backend_unavailable)
settle_target t r (escaped e) = (t, err e)
settle_target t r (validated v) =
    if is_valid v
    then (record t { rows = mark_validated r.pk t.rows }, ok (record r { validated = true }))
    else (record t { rows = without_pk r.pk t.rows }, err validation_failed)

-- `register_target`: the table it leaves, and what it returns or raises.
unfoldable pub register_target :
    (String → ParsedUrl)
    → Targets
    → Registration
    → ValidateAnswer
    → Targets × Result KubernetesError KubernetesTarget
register_target urlparse t a answer = elim (checked_row urlparse t a) [
  | err e ↦ (t, err e)
  | ok r ↦ elim (create_row t r) [ err e ↦ (t, err e) | ok t' ↦ settle_target t' r answer ]
]
