-- ===== src/Graphql/Steps.antt =====
-- The mutations of controlplane/graphql/schema.py as steps of the database.
use django_ops.Common.{ℕ, Bool, Option, List, String, eqb, keep}
use django_ops.Common.Dict.{Dict}
use django_ops.Diagnostics.State.{Operation}
use django_ops.Diagnostics.Service
use django_ops.Diagnostics.Service.{CancelAnswer}
use django_ops.Kubernetes.State.{KubernetesTarget, KubernetesRelease}
use django_ops.Kubernetes.Validation.{ParsedUrl}
use django_ops.Kubernetes.Targets.{ValidateAnswer}
use django_ops.Kubernetes.Releases
use django_ops.Graphql.Site.{Site, Environment}
use django_ops.Graphql.Mutations.{start, cancel, register, TargetArguments}
use django_ops.Graphql.ReleaseValues.{Json}
use django_ops.Graphql.ReleaseMutations.{Service, start_release, cancel_kubernetes_release}

-- The fields of `Mutation`, with their arguments and what the backends answer.
pub data Mutation {ℓ} (J : Type ℓ) : Type ℓ where
  start_diagnostic : String → String → String → (String → Bool) → Service.StartAnswer → Mutation J
  cancel_diagnostic : String → CancelAnswer → Mutation J
  register_kubernetes_target : String → String → TargetArguments → ValidateAnswer → Mutation J
  start_kubernetes_release :
      Service J → String → String → Dict J → Releases.StartAnswer → Mutation J
  cancels_release : String → Option Bool → Mutation J

-- The database after a mutation.
unfoldable pub step {ℓ} :
    {J : Type ℓ} → Json J → Environment → (String → ParsedUrl) → ℕ → Site → Mutation J → Site
step json env urlparse user s (start_diagnostic project agent diagnostic connected answer) =
    (start env s user project agent diagnostic connected answer).0
step json env urlparse user s (cancel_diagnostic id answer) = (cancel env s user id answer).0
step json env urlparse user s (register_kubernetes_target project agent args answer) =
    (register env urlparse s user project agent args answer).0
step json env urlparse user s (start_kubernetes_release k target image values answer) =
    (start_release json k env s user target image values answer).0
step json env urlparse user s (cancels_release id answer) =
    (cancel_kubernetes_release env s user id answer).0

-- What belongs to a project.
pub record Rows : Type 0 where
  pub operations : List Operation
  pub targets : List KubernetesTarget
  pub releases : List KubernetesRelease

unfoldable pub rows_of : ℕ → Site → Rows
rows_of project s = record {
  operations = keep (λ r. eqb r.project_id project) s.operations.rows;
  targets = keep (λ r. eqb r.project_id project) s.targets.rows;
  releases = keep (λ r. eqb r.project_id project) s.releases.rows;
}
