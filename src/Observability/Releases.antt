-- ===== src/Observability/Releases.antt =====
-- `_release_saved` of controlplane/observability.py: what the save of a row of `KubernetesRelease` reports.
-- The milliseconds between the row's timestamps are an argument.
use Prim.Native.String.{◌++◌ as ◌<>◌}
use django_ops.Common.{ℕ, false, some, List, [], ◌∷◌, String}
use django_ops.Kubernetes.State.{
  Status, pending, validating, migrating, applying, verifying, succeeded, failed, cancelled,
  rolled_back, rollback_blocked, KubernetesRelease,
}
use django_ops.Telemetry.Steps.{Observation}

-- The values of `KubernetesRelease.Status`
unfoldable pub status_text : Status → String
status_text pending = "pending"
status_text validating = "validating"
status_text migrating = "migrating"
status_text applying = "applying"
status_text verifying = "verifying"
status_text succeeded = "succeeded"
status_text failed = "failed"
status_text cancelled = "cancelled"
status_text rolled_back = "rolled_back"
status_text rollback_blocked = "rollback_blocked"

abbrev pub terminal : List String
terminal = "succeeded" ∷ "failed" ∷ "cancelled" ∷ "rolled_back" ∷ "rollback_blocked" ∷ []

-- `seen_key`
unfoldable pub seen_key : KubernetesRelease → String
seen_key r = "release:" <> r.operation_id <> ":" <> status_text r.status

unfoldable pub observation : ℕ → KubernetesRelease → Observation
observation elapsed_ms r = record {
  component = "controlplane";
  kind = "kubernetes_release";
  outcome = status_text r.status;
  duration_ms = elapsed_ms;
  correlation = some r.operation_id;
  project_id = some r.project_id;
  decrement_inflight = false;
}
