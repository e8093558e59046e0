-- ===== src/Observability/Tests.antt =====
-- Saved rows and a summary, and the theorems applied to them.
use django_ops.Common.{◌+◌, ◌≤◌, ◌≡◌, ◌⊎◌, refl, true, false, none, List, [], ◌∷◌, length, ok, err}
use django_ops.Common.Redact.{truncate}
use django_ops.Diagnostics.Backend.{connected, agent_state}
use django_ops.Diagnostics.State.{Operation, Status, succeeded, running, offline, blank}
use django_ops.Graphql.Site.{Site, get_where, sees, sees_among, project_does_not_exist}
use django_ops.Integrations.Parser.{is_distinct}
use django_ops.Observability.Diagnostics
use django_ops.Observability.Members.{IsBounded, summary_for_project-IsBounded}
use django_ops.Observability.Noticed.{noticed, save_all-noticed}
use django_ops.Observability.Saves.{
  notice, Save, diagnostic, is_over, key_of, token_of, observation_of, saved, save_all,
}
use django_ops.Observability.Seen.{
  nothing_seen, max_seen, discard, add, forget_first, make_room, remember,
}
use django_ops.Observability.Summary.{
  Runtime, is_up, count_if, ObservabilitySummary, failed_operation, failed_release,
  summary_for_project, agents_in,
}
use django_ops.Telemetry.Counters.{value_at, set_at, add_at, total}
use django_ops.Telemetry.State.{
  labels, same_labels, same_pair, is_safe, replace_unsafe, correlation_id, Telemetry, new_telemetry,
  last_of,
}
use django_ops.Telemetry.Steps.{
  start, enqueue, append_bounded, count_event, event_of, observe, take_payload, export_one, step,
  run,
}
use django_ops.Telemetry.Totals.{observed}

program : Unit {0}
unfolding truncate connected agent_state get_where sees_among is_distinct Diagnostics.status_text
    Diagnostics.seen_key Diagnostics.observation noticed notice is_over key_of token_of
    observation_of saved save_all discard add forget_first make_room remember is_up count_if
    failed_operation failed_release summary_for_project value_at set_at add_at total labels
    same_labels same_pair is_safe replace_unsafe correlation_id new_telemetry last_of start enqueue
    append_bounded count_event event_of observe take_payload export_one step run observed
program = tt

abbrev row : Status → Operation
row status = record {
  pk = 1;
  project_id = 4;
  status = status;
  result_summary = blank;
  error_code = "";
}

-- A row that is saved while it runs, then twice as offline, and once more as another operation.
abbrev saves : List Save
saves =
    diagnostic "t" "a" 10 (row running)
    ∷ diagnostic "u" "a" 20 (row offline)
    ∷ diagnostic "v" "a" 30 (row offline)
    ∷ diagnostic "w" "b" 40 (row offline)
    ∷ []

abbrev fresh : Telemetry
fresh = new_telemetry 16 ""

reported : observed (noticed [] saves) ≡ 2
unfolding program
reported = refl

save_all-noticed_example :
    let after = save_all saves (record { seen = nothing_seen; telemetry = fresh }) in
    (after.telemetry ≡ run fresh (noticed [] saves))
    × (total same_labels after.telemetry.counts
        ≡ total same_labels fresh.counts + observed (noticed [] saves))
    × (after.seen.keys ≡ after.seen.order)
    × (is_distinct after.seen.order ≡ true)
    × (length after.seen.order ≤ max_seen)
save_all-noticed_example = save_all-noticed saves fresh

abbrev site : Site
site = record {
  projects = record { pk = 4; slug = "shop"; members = 7 ∷ [] } ∷ [];
  agents = record { pk = 3; agent = record { agent_id = "web-1"; project_id = 4 } } ∷ [];
  operations = record { rows = row offline ∷ row succeeded ∷ []; next_pk = 2 };
  targets = record { rows = []; next_pk = 1 };
  releases = record { rows = []; next_pk = 1 };
}

abbrev runtime : Runtime
runtime = record { found = λ id n. none; stored = λ id. []; now = 100 }

summarised :
    summary_for_project runtime fresh site 7 4
    ≡ ok (record {
      total_agents = 1;
      connected_agents = 0;
      recent_operations = 2;
      recent_releases = 0;
      recent_failures = 1;
      otlp_configured = false;
      telemetry_status = "disabled";
    })
unfolding program
summarised = refl

summary_for_project-IsBounded_example :
    ((sees site 7 4 ≡ false)
      × (summary_for_project runtime fresh site 7 4 ≡ err project_does_not_exist))
    ⊎ ((sees site 7 4 ≡ true)
        × (o : ObservabilitySummary) × (summary_for_project runtime fresh site 7 4 ≡ ok o)
        × IsBounded o
        × (o.total_agents ≡ length (agents_in site 4)))
summary_for_project-IsBounded_example = summary_for_project-IsBounded runtime fresh site 7 4
