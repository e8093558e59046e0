-- ===== src/Telemetry/State.antt =====
-- controlplane/telemetry.py: the state of `Telemetry` and what it makes of labels and texts. The random
-- token of a correlation id is an argument.
use Prim.Native.Char.{Char, char, code}
use django_ops.Common.{
  ℕ, ◌-◌, min, max, Bool, false, ◌||◌, ◌&&◌, Option, none, some, List, [], ◌∷◌, String, ◌==◌, eqb,
  member, length, drop, keep, if◌then◌else◌,
}
use django_ops.Common.Redact.{truncate}
use django_ops.Common.Text.{codes, is_alnum, one_of}

abbrev pub allowed_components : List String
allowed_components = "controlplane" ∷ "agent" ∷ "cli" ∷ []

abbrev pub allowed_kinds : List String
allowed_kinds =
    "diagnostic" ∷ "kubernetes_release" ∷ "deploy" ∷ "health" ∷ "backup" ∷ "restore" ∷ "graphql"
    ∷ []

abbrev pub allowed_outcomes : List String
allowed_outcomes =
    "pending" ∷ "running" ∷ "succeeded" ∷ "failed" ∷ "cancelled" ∷ "offline" ∷ "overloaded"
    ∷ "disconnected" ∷ "timeout" ∷ "rolled_back" ∷ "rollback_blocked" ∷ "recovery_required" ∷ []

pub record Labels : Type 0 where
  pub component : String
  pub kind : String
  pub outcome : String

-- `Telemetry._labels`
unfoldable pub labels : String → String → String → Labels
labels component kind outcome = record {
  component = if member component allowed_components then component else "controlplane";
  kind = if member kind allowed_kinds then kind else "diagnostic";
  outcome = if member outcome allowed_outcomes then outcome else "failed";
}

unfoldable pub same_labels : Labels → Labels → Bool
same_labels a b = a.component == b.component && a.kind == b.kind && a.outcome == b.outcome

unfoldable pub same_pair : String × String → String × String → Bool
same_pair a b = a.0 == b.0 && a.1 == b.1

-- A character that `_SAFE` keeps.
unfoldable pub is_safe : ℕ → Bool
is_safe c = is_alnum c || one_of (codes "_.:/@+-") c

abbrev underscore : Char
underscore = char b'_' tt

-- `_SAFE.sub("_", value)`; line ends are among the characters that become `_`.
unfoldable pub replace_unsafe : String → String
replace_unsafe String.[] = String.[]
replace_unsafe (String.◌∷◌ c s) =
    String.◌∷◌ (if is_safe (code c) then c else underscore) (replace_unsafe s)

-- `correlation_id`
unfoldable pub correlation_id : String → Option String → String
correlation_id token none = token
correlation_id token (some value) =
    let cleaned = truncate 64 (replace_unsafe value) in if cleaned == "" then token else cleaned

pub record TelemetryEvent : Type 0 where
  pub labels : Labels
  pub duration_ms : ℕ
  pub correlation : String
  pub project_id : Option ℕ

pub record Telemetry : Type 0 where
  pub endpoint : String
  pub size : ℕ
  pub counts : List (Labels × ℕ)
  pub durations : List (Labels × ℕ)
  pub inflight : List ((String × String) × ℕ)
  pub events : List TelemetryEvent
  pub exports : List TelemetryEvent
  pub dropped : ℕ
  pub export_errors : ℕ
  pub worker_started : Bool

-- `Telemetry.__init__`, with an endpoint that was validated.
unfoldable pub new_telemetry : ℕ → String → Telemetry
new_telemetry max_buffer endpoint = record {
  endpoint = endpoint;
  size = max 8 (min max_buffer 1024);
  counts = [];
  durations = [];
  inflight = [];
  events = [];
  exports = [];
  dropped = 0;
  export_errors = 0;
  worker_started = false;
}

-- The last so many of the list.
unfoldable pub last_of {ℓ} : {A : Type ℓ} → ℕ → List A → List A
last_of n xs = drop (length xs - n) xs

unfoldable pub is_project : ℕ → TelemetryEvent → Bool
is_project p e = elim e.project_id [ none ↦ false | some q ↦ eqb q p ]

-- `recent_for_project`, before the events are turned into mappings
unfoldable pub recent_for_project : Telemetry → ℕ → ℕ → List TelemetryEvent
recent_for_project t p limit = last_of (max 1 (min limit 50)) (keep (is_project p) t.events)
