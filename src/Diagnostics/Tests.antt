-- ===== src/Diagnostics/Tests.antt =====
-- Diagnostic operations on concrete tables, and the theorems applied to them.
use django_ops.Common.{
  ◌≡◌, ◌≤◌, refl, inl, true, false, some, List, [], ◌∷◌, String, arith, length, keep,
}
use django_ops.Common.Dict.{lookup}
use django_ops.Common.Redact.{
  truncate, is_space, fold_case, after_word, after_words, skip_spaces, skip_token, after_token,
  after_assignment, after_secret, sub_secrets,
}
use django_ops.Gateway.State
use django_ops.Gateway.State.{AgentSession, Gateway, not_connected, AgentFrame}
use django_ops.Gateway.Jobs.{
  start_diagnostics, open_job, validate_job_id, validate_release_root, matches_id,
}
use django_ops.Common.Text.{path_parts, split, split_go, occurs, starts_with, eq_text}
use django_ops.Diagnostics.State.{
  Status, running, succeeded, pending, blank, Operation, Table, find, has_pk, is_terminal,
  is_active,
}
use django_ops.Diagnostics.Service.{
  started, cancel, create_row, save_start, finished, timed_out, answered, redact, in_history,
  trim_history, consume, map_result, max_history_per_project,
}
use django_ops.Diagnostics.Race.{Closed, Offline, save_start-cancel}
use django_ops.Diagnostics.Final.{
  Settled, Write, frames, cancels, saves_start, ends, spares, write_all, terminal_final,
}
use django_ops.Diagnostics.History.{keep_newest, trim_history-eq-keep_newest}
use django_ops.Diagnostics.Outcomes.{ending_of, outcome, HasStatus, consume_ends, refused_ends}

abbrev done_row : Operation
done_row = record {
  pk = 1;
  project_id = 4;
  status = succeeded;
  result_summary = blank;
  error_code = "";
}

abbrev open_row : Operation
open_row = record {
  pk = 2;
  project_id = 4;
  status = pending;
  result_summary = blank;
  error_code = "";
}

abbrev table : Table
table = record { rows = open_row ∷ done_row ∷ []; next_pk = 3 }

abbrev same_text : String → String
same_text s = s

abbrev late : List Write
late =
    cancels (record table { rows = record done_row { status = running } ∷ [] }) 1 (answered true)
    ∷ frames 1 (State.AgentFrame.result "j" 4 "failed" [])
    ∷ saves_start 2 false started
    ∷ ends 1 timed_out
    ∷ []

redacted : redact "url=x Token : abc access_key=Q1 ok" ≡ "url=x [REDACTED] [REDACTED] ok"
unfolding redact truncate is_space fold_case after_word after_words skip_spaces skip_token
    after_token after_assignment after_secret sub_secrets
redacted = refl

terminal_final_example : Settled done_row (write_all same_text table late)
unfolding is_terminal find spares
terminal_final_example =
    terminal_final same_text late table done_row refl
      (record { known = omega arith; same = inl refl }) (refl, (refl, (refl, (refl, tt))))

trim_history-eq-keep_newest_example :
    ((trim_history table 4).rows ≡ keep_newest max_history_per_project (in_history 4) table.rows)
    × (length (keep (in_history 4) (trim_history table 4).rows) ≤ max_history_per_project)
unfolding has_pk
trim_history-eq-keep_newest_example = trim_history-eq-keep_newest table 4 (refl, (refl, tt))

consume_ends_example : HasStatus 2 succeeded (
    consume same_text table 2
      (State.AgentFrame.progress "j" 1 "check" "m"
        ∷ State.AgentFrame.result "j" 2 "succeeded" []
        ∷ [])
      finished)
unfolding outcome map_result find is_active
consume_ends_example =
    consume_ends same_text table 2
      (State.AgentFrame.progress "j" 1 "check" "m"
        ∷ State.AgentFrame.result "j" 2 "succeeded" []
        ∷ [])
      finished (open_row, refl, refl)

abbrev nobody : Gateway
nobody = record {
  agent_tokens = [];
  sessions = [];
  jobs = [];
  completed_jobs = [];
  completed_order = [];
  max_completed_jobs = 2;
  max_inflight_per_agent = 1;
  next_ident = 0;
}

refused_ends_example :
    (st : Status) × (outcome [] (ending_of not_connected) ≡ some st)
    × (is_terminal st ≡ true)
    × HasStatus 2 st (consume same_text table 2 [] (ending_of not_connected))
unfolding start_diagnostics open_job validate_job_id validate_release_root matches_id path_parts
    split split_go occurs starts_with eq_text lookup find is_active
refused_ends_example =
    refused_ends same_text nobody "vps-1" "j" "current" not_connected table 2 refl
      (open_row, refl, refl)

save_start-cancel_example :
    Closed 3 (cancel (create_row table 4) (create_row table 4) 3 (answered true))
    × Offline 3 (
        save_start
          (cancel (create_row table 4) (create_row table 4) 3 (answered true))
          3
          false
          started)
save_start-cancel_example = save_start-cancel table 4 (answered true) started
