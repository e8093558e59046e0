-- ===== src/Diagnostics/Service.antt =====
-- controlplane/services.py: starting, running and cancelling diagnostics. What the backend, which
-- talks to the gateway's event loop, answered is an argument of each function that asks it.
use django_ops.Common.{
  ℕ, ◌+◌, Bool, true, false, not, ◌&&◌, none, some, List, [], ◌∷◌, String, ◌==◌, map, eqb, keep,
  take, drop, if◌then◌else◌, Result, ok, err,
}
use django_ops.Common.Redact.{Piece, word, sub_secrets, truncate}
use django_ops.Common.Text.{codes}
use django_ops.Common.{length}
use django_ops.Gateway.State.{AgentFrame, DiagnosticCheck}
use django_ops.Gateway.State
use django_ops.Diagnostics.State.{
  Status, pending, running, succeeded, failed, cancelled, offline, overloaded, disconnected,
  timeout, is_terminal, is_active, blank, progress, checks, Operation, Table, find, update_where,
  delete_pks, pks,
}

abbrev pub max_history_per_project : ℕ
max_history_per_project = 200

abbrev pub max_checks : ℕ
max_checks = 32

abbrev pub max_detail : ℕ
max_detail = 2048

-- `_SECRET_RE`, its words
abbrev pub secret_words : List (List Piece)
secret_words =
    word (codes "secret")
    ∷ word (codes "password")
    ∷ word (codes "token")
    ∷ word (codes "access?key")
    ∷ []

unfoldable pub redact : String → String
redact value = truncate max_detail (sub_secrets (length (codes value)) secret_words value)

abbrev set_rows : Table → List Operation → Table
set_rows t rows = record t { rows = rows }

abbrev pub is_pending : Status → Bool
is_pending pending = true
is_pending _ = false

-- `_set_running`
unfoldable pub set_running : Table → ℕ → Table
set_running t pk =
    set_rows t (update_where pk is_pending (λ r. record r { status = running }) t.rows)

-- `_save_progress`
unfoldable pub save_progress : Table → ℕ → String → String → Table
save_progress t pk phase message = set_rows t (
    update_where pk is_active
      (λ r. record r { result_summary = progress (truncate 64 phase) (redact message) }) t.rows)

-- The status that `_save_result` maps the agent's to.
unfoldable pub map_result : String → Status
map_result status =
    if status == "succeeded"
    then succeeded
    else if status == "cancelled"
    then cancelled
    else if status == "disconnected"
    then disconnected
    else failed

abbrev pub is_succeeded : Status → Bool
is_succeeded succeeded = true
is_succeeded _ = false

-- `_save_result`; `upper` is `str.upper`.
unfoldable pub save_result : (String → String) → Table → ℕ → String → List DiagnosticCheck → Table
save_result upper t pk status found =
    let mapped = map_result status in
    set_rows t (
      update_where pk is_active
        (λ r. record r {
          status = mapped;
          result_summary = checks found;
          error_code = if is_succeeded mapped then "" else truncate 32 (upper status);
        })
        t.rows)

-- `_save_error`
unfoldable pub save_error : Table → ℕ → Status → String → Table
save_error t pk status code =
    set_rows t
      (update_where pk is_active (λ r. record r { status = status; error_code = code }) t.rows)

-- The checks of a result frame, cut down and redacted.
unfoldable pub bounded_checks : List DiagnosticCheck → List DiagnosticCheck
bounded_checks found =
    map
      (λ c. record {
        name = truncate 128 c.name;
        status = truncate 32 c.status;
        detail = redact c.detail;
      })
      (take max_checks found)

-- How the loop over the gateway's frames ended, in the order of the `except` clauses.
pub data Ending : Type 0 where
  finished timed_out lookup_error runtime_error other_error : Ending

-- One frame in `_consume`.
unfoldable pub save_frame : (String → String) → ℕ → Table → AgentFrame → Table
save_frame upper pk t (State.AgentFrame.progress job n phase message) =
    save_progress t pk phase message
save_frame upper pk t (State.AgentFrame.result job n status found) =
    save_result upper t pk status (bounded_checks found)
save_frame upper pk t _ = t

unfoldable pub save_frames : (String → String) → ℕ → Table → List AgentFrame → Table
save_frames upper pk t [] = t
save_frames upper pk t (f ∷ fs) = save_frames upper pk (save_frame upper pk t f) fs

-- The `except` clauses of `_consume`.
unfoldable pub save_ending : ℕ → Table → Ending → Table
save_ending pk t finished = t
save_ending pk t timed_out = save_error t pk timeout "DIAGNOSTIC_TIMEOUT"
save_ending pk t lookup_error = save_error t pk offline "AGENT_OFFLINE"
save_ending pk t runtime_error = save_error t pk overloaded "OVERLOADED"
save_ending pk t other_error = save_error t pk failed "DIAGNOSTIC_FAILED"

-- `_consume`, where no other task writes to the row in between.
unfoldable pub consume : (String → String) → Table → ℕ → List AgentFrame → Ending → Table
consume upper t pk frames ending =
    save_ending pk (save_frames upper pk (set_running t pk) frames) ending

-- `_trim_history`
unfoldable pub in_history : ℕ → Operation → Bool
in_history project r = eqb r.project_id project && not (is_active r.status)

unfoldable pub trim_rows : ℕ → ℕ → List Operation → List Operation
trim_rows limit project rows = delete_pks (drop limit (pks (keep (in_history project) rows))) rows

unfoldable pub trim_history : Table → ℕ → Table
trim_history t project = set_rows t (trim_rows max_history_per_project project t.rows)

-- What `self.backend.start(operation)` did; the flag says whether "capacity" stands in the message.
pub data StartAnswer : Type 0 where
  started : StartAnswer
  start_failed : Bool → StartAnswer

-- The row as `OperationsService.start` leaves it.
unfoldable pub started_row : Operation → Bool → StartAnswer → Operation
started_row r false answer = record r { status = offline; error_code = "AGENT_OFFLINE" }
started_row r true started = r
started_row r true (start_failed true) = record r { status = overloaded; error_code = "OVERLOADED" }
started_row r true (start_failed false) = record r {
  status = failed;
  error_code = "GATEWAY_UNAVAILABLE";
}

-- `ValueError("unsupported diagnostic")`
pub data ServiceError : Type 0 where
  unsupported_diagnostic : ServiceError

-- The row of `objects.create`.
abbrev pub created : Table → ℕ → Operation
created t project = record {
  pk = t.next_pk;
  project_id = project;
  status = pending;
  result_summary = blank;
  error_code = "";
}

-- `objects.create`, committed on its own.
unfoldable pub create_row : Table → ℕ → Table
create_row t project = record { rows = created t project ∷ t.rows; next_pk = t.next_pk + 1 }

-- `operation.save(update_fields=...)`, where the operation did not start: the status and the error code are
-- written whatever the row holds by then. On a row that is gone it raises, and the table stays.
unfoldable pub save_start : Table → ℕ → Bool → StartAnswer → Table
save_start t pk connected answer =
    set_rows t (update_where pk (λ s. true) (λ r. started_row r connected answer) t.rows)

-- `OperationsService.start` for an agent of the project, where no other request writes in between: it creates
-- the row, saves how the start failed, and trims the history.
unfoldable pub start :
    Table → ℕ → String → Bool → StartAnswer → Result ServiceError (Table × Operation)
start t project diagnostic connected answer =
    if not (diagnostic == "django_health")
    then err unsupported_diagnostic
    else ok (
      trim_history (save_start (create_row t project) t.next_pk connected answer) project,
      started_row (created t project) connected answer,
    )

-- What `self.backend.cancel(operation)` did.
pub data CancelAnswer : Type 0 where
  answered : Bool → CancelAnswer
  cancel_timed_out cancel_failed : CancelAnswer

unfoldable pub cancel_write : Table → ℕ → CancelAnswer → Table
cancel_write t pk cancel_timed_out = save_error t pk failed "CANCEL_TIMEOUT"
cancel_write t pk cancel_failed = save_error t pk failed "CANCEL_FAILED"
cancel_write t pk (answered true) = save_error t pk cancelled ""
cancel_write t pk (answered false) = save_error t pk disconnected "CANCEL_UNAVAILABLE"

-- `OperationsService.cancel`: `seen` is the table at the refresh, `t` the one when the backend has
-- answered. `none` is a row that is gone.
unfoldable pub cancel : Table → Table → ℕ → CancelAnswer → Table
cancel seen t pk answer = elim (find pk seen.rows) [
  | none ↦ t
  | some r ↦ if is_terminal r.status then t else cancel_write t pk answer
]
