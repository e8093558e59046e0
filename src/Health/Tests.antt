-- ===== src/Health/Tests.antt =====
-- Health reports from concrete output, and the theorems applied to them.
use mathlib.Core.List.{◌++◌}
use django_ops.Common.{◌≡◌, refl, true, false, List, [], ◌∷◌, ok, err}
use django_ops.Common.Text.{Text, codes, eq_text, split, split_go, starts_with, path_parts}
use django_ops.Health.Report.{
  check_names, has_text, eq_texts, HealthCheck, read_parts, read_line, names, remember, collect,
  incomplete_response, parse_report, is_healthy, validate_compose_file, dotted_path,
}
use django_ops.Health.Reading.{first_check, first_report, parse_report_reads, parse_report_stable}

program : Unit {0}
unfolding eq_text split split_go starts_with path_parts has_text eq_texts read_parts read_line
    remember collect parse_report is_healthy validate_compose_file
program = tt

abbrev output : List Text
output =
    codes "Warning: known hosts"
    ∷ codes "DJANGOOPS_HEALTH\tactive_release\tPASS"
    ∷ codes "DJANGOOPS_HEALTH\tcompose_services\tPASS"
    ∷ codes "DJANGOOPS_HEALTH\tcompose_services\tFAIL"
    ∷ codes "DJANGOOPS_HEALTH\tdjango_deploy_check\tFAIL"
    ∷ codes "DJANGOOPS_HEALTH\tdatabase_connectivity\tPASS"
    ∷ codes "DJANGOOPS_HEALTH\tpending_migrations\tPASS"
    ∷ []

abbrev forged : List Text
forged = codes "DJANGOOPS_HEALTH\tdjango_deploy_check\tPASS" ∷ []

abbrev report : List HealthCheck
report =
    record { name = codes "active_release"; passed = true }
    ∷ record { name = codes "compose_services"; passed = true }
    ∷ record { name = codes "django_deploy_check"; passed = false }
    ∷ record { name = codes "database_connectivity"; passed = true }
    ∷ record { name = codes "pending_migrations"; passed = true }
    ∷ []

unhealthy : is_healthy report ≡ false
unfolding program
unhealthy = refl

missing :
    parse_report (codes "DJANGOOPS_HEALTH\tactive_release\tPASS" ∷ []) ≡ err incomplete_response
unfolding program
missing = refl

parent_segment : validate_compose_file "deploy/../compose.yaml" ≡ err dotted_path
unfolding program
parent_segment = refl

parse_report_reads_example :
    (names report ≡ check_names)
    × ((name : Text) → first_check name report ≡ first_report name output)
unfolding program
parse_report_reads_example = parse_report_reads output report refl

parse_report_stable_example : parse_report (output ++ forged) ≡ ok report
unfolding program
parse_report_stable_example = parse_report_stable output forged report refl
