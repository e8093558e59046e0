-- ===== src/Observability/Diagnostics.antt =====
-- `_diagnostic_saved` of controlplane/observability.py: what the save of a row of `DiagnosticOperation`
-- reports. The row's `public_id` and the milliseconds between its timestamps are arguments.
use Prim.Native.String.{◌++◌ as ◌<>◌}
use django_ops.Common.{ℕ, false, some, List, [], ◌∷◌, String}
use django_ops.Diagnostics.State.{
  Status, pending, running, succeeded, failed, cancelled, offline, overloaded, disconnected,
  timeout, Operation,
}
use django_ops.Telemetry.Steps.{Observation}

-- The values of `DiagnosticOperation.Status`
unfoldable pub status_text : Status → String
status_text pending = "pending"
status_text running = "running"
status_text succeeded = "succeeded"
status_text failed = "failed"
status_text cancelled = "cancelled"
status_text offline = "offline"
status_text overloaded = "overloaded"
status_text disconnected = "disconnected"
status_text timeout = "timeout"

abbrev pub terminal : List String
terminal =
    "succeeded" ∷ "failed" ∷ "cancelled" ∷ "offline" ∷ "overloaded" ∷ "disconnected" ∷ "timeout"
    ∷ []

-- `seen_key`
unfoldable pub seen_key : String → Operation → String
seen_key public_id r = "diagnostic:" <> public_id <> ":" <> status_text r.status

unfoldable pub observation : String → ℕ → Operation → Observation
observation public_id elapsed_ms r = record {
  component = "controlplane";
  kind = "diagnostic";
  outcome = status_text r.status;
  duration_ms = elapsed_ms;
  correlation = some public_id;
  project_id = some r.project_id;
  decrement_inflight = false;
}
