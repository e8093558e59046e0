-- ===== src/Observability/Saves.antt =====
-- The handlers of the signal `post_save` in controlplane/observability.py, on the keys that were seen and the
-- telemetry. The random token of a correlation id is an argument.
use django_ops.Common.{ℕ, Bool, List, [], ◌∷◌, String, member, if◌then◌else◌}
use django_ops.Diagnostics.State.{Operation}
use django_ops.Kubernetes.State.{KubernetesRelease}
use django_ops.Telemetry.State.{Telemetry}
use django_ops.Telemetry.Steps.{Observation, observe}
use django_ops.Observability.Diagnostics
use django_ops.Observability.Releases
use django_ops.Observability.Seen.{Seen, remember}

pub record Observed : Type 0 where
  pub seen : Seen
  pub telemetry : Telemetry

-- The body of both handlers: a status that is not terminal is passed over before its key is remembered.
unfoldable pub notice : Bool → String → String → Observation → Observed → Observed
notice is_over key token o s =
    let answer = remember key s.seen in
    if is_over
    then record {
      seen = answer.1;
      telemetry = if answer.0 then observe s.telemetry token o else s.telemetry;
    }
    else s

-- A row that was saved: the token, what the row's handler takes, and the row.
pub data Save : Type 0 where
  diagnostic : String → String → ℕ → Operation → Save
  release : String → ℕ → KubernetesRelease → Save

unfoldable pub is_over : Save → Bool
is_over (diagnostic token id ms r) = member (Diagnostics.status_text r.status) Diagnostics.terminal
is_over (release token ms r) = member (Releases.status_text r.status) Releases.terminal

unfoldable pub key_of : Save → String
key_of (diagnostic token id ms r) = Diagnostics.seen_key id r
key_of (release token ms r) = Releases.seen_key r

unfoldable pub token_of : Save → String
token_of (diagnostic token id ms r) = token
token_of (release token ms r) = token

unfoldable pub observation_of : Save → Observation
observation_of (diagnostic token id ms r) = Diagnostics.observation id ms r
observation_of (release token ms r) = Releases.observation ms r

-- `_diagnostic_saved` and `_release_saved`
unfoldable pub saved : Save → Observed → Observed
saved x s = notice (is_over x) (key_of x) (token_of x) (observation_of x) s

unfoldable pub save_all : List Save → Observed → Observed
save_all [] s = s
save_all (x ∷ xs) s = save_all xs (saved x s)
