-- ===== src/Health/Report.antt =====
-- cli/djangoops/health.py: `_parse_report`, `HealthReport` and `_validate_compose_file`. The lines are
-- those of `output.splitlines()`.
use django_ops.Common.{
  Bool, true, false, ◌&&◌, ◌||◌, Option, none, some, List, [], ◌∷◌, String, ◌==◌, map, all, any,
  ltb, eqb, if◌then◌else◌, Result, ok, err, ◌>>◌, raise_if,
}
use mathlib.Core.List.{◌++◌}
use django_ops.Common.Text.{Text, codes, eq_text, split, starts_with, path_parts}

abbrev pub check_names : List Text
check_names =
    codes "active_release"
    ∷ codes "compose_services"
    ∷ codes "django_deploy_check"
    ∷ codes "database_connectivity"
    ∷ codes "pending_migrations"
    ∷ []

-- `x in xs`, over texts
unfoldable pub has_text : Text → List Text → Bool
has_text x [] = false
has_text x (y ∷ ys) = eq_text y x || has_text x ys

-- equality of tuples of texts
unfoldable pub eq_texts : List Text → List Text → Bool
eq_texts [] [] = true
eq_texts [] (y ∷ ys) = false
eq_texts (x ∷ xs) [] = false
eq_texts (x ∷ xs) (y ∷ ys) = eq_text x y && eq_texts xs ys

-- One check: its name, and whether its status is "pass".
pub record HealthCheck : Type 0 where
  pub name : Text
  pub passed : Bool

-- The name and status of the parts of a line, where the loop does not skip it before it looks at
-- `results`.
unfoldable pub read_parts : List Text → Option HealthCheck
read_parts (mark ∷ name ∷ status ∷ []) =
    if eq_text mark (codes "DJANGOOPS_HEALTH")
      && has_text name check_names
      && (eq_text status (codes "PASS") || eq_text status (codes "FAIL"))
    then some (record { name = name; passed = eq_text status (codes "PASS") })
    else none
read_parts _ = none

unfoldable pub read_line : Text → Option HealthCheck
read_line line = read_parts (split 9 line)

abbrev pub names : List HealthCheck → List Text
names = map (λ c. c.name)

-- `results[name] = ...`, where the name is new
unfoldable pub remember : Option HealthCheck → List HealthCheck → List HealthCheck
remember none results = results
remember (some c) results = if has_text c.name (names results) then results else results ++ c ∷ []

-- The loop over the lines.
unfoldable pub collect : List Text → List HealthCheck → List HealthCheck
collect [] results = results
collect (line ∷ lines) results = collect lines (remember (read_line line) results)

-- `HealthTransportError`
pub data HealthError : Type 0 where
  incomplete_response : HealthError

-- `_parse_report`; the checks of the report are those of `results`, whose keys are the names in order.
unfoldable pub parse_report : List Text → Result HealthError (List HealthCheck)
parse_report lines =
    let results = collect lines [] in
    if eq_texts (names results) check_names then ok results else err incomplete_response

-- `HealthReport.healthy`
unfoldable pub is_healthy : List HealthCheck → Bool
is_healthy checks = all (λ c. c.passed) checks

-- The `ValueError`s of `_validate_compose_file`.
pub data ComposeFileError : Type 0 where
  control_characters absolute_path dotted_path : ComposeFileError

-- `_validate_compose_file`: the parts of the path that it accepts
unfoldable pub validate_compose_file : String → Result ComposeFileError (List Text)
validate_compose_file value = do
  raise_if (value == "" || any (λ c. ltb c 32 || eqb c 127) (codes value)) control_characters
  raise_if (starts_with (codes "/") (codes value)) absolute_path
  raise_if (any (λ p. eq_text p (codes ".") || eq_text p (codes "..")) (path_parts (codes value)))
      dotted_path
  ok (path_parts (codes value))
