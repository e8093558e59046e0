-- ===== src/Integrations/Evaluation.antt =====
-- cli/djangoops/integrations.py: `evaluate_integration`, and `evaluate_project_integrations` of
-- controlplane/ecosystem.py. The time that an evaluation takes is an argument.
use django_ops.Common.{
  ℕ, ◌*◌, not, ◌||◌, none, some, List, [], ◌∷◌, String, ◌==◌, length, all, member, ltb,
  if◌then◌else◌, Result, ok, err, ◌>>=◌, ◌>>◌, raise_if,
}
use django_ops.Common.Dict.{Dict, lookup}
use django_ops.Common.Text.{codes}
use django_ops.Integrations.Contract.{
  IntegrationError, unknown_integration, limit_exceeded, unsupported_capability, secret_rejected,
  invalid_budget, timeout, result_rejected, key_error, max_config_fields, max_config_value_chars,
  is_secret_key, IntegrationConfig, resolve, builtin_registry,
}
use django_ops.Integrations.Parser.{get_or}

abbrev pub max_result_fields : ℕ
max_result_fields = 16

abbrev pub max_result_value_chars : ℕ
max_result_value_chars = 256

abbrev pub default_budget_ms : ℕ
default_budget_ms = 100

abbrev pub max_budget_ms : ℕ
max_budget_ms = 1000

pub record IntegrationResult : Type 0 where
  pub name : String
  pub version : String
  pub status : String
  pub capabilities : List String
  pub summary : Dict String

-- The loop of `_validate_context`; a dict has one entry for a key.
unfoldable pub check_context : Dict String → Result IntegrationError (Dict String)
check_context [] = ok []
check_context ((key, value) ∷ d) = do
  raise_if (is_secret_key key) secret_rejected
  raise_if (ltb 64 (length (codes key)) || ltb max_config_value_chars (length (codes value)))
      limit_exceeded
  rest ← check_context d
  ok ((key, value) ∷ rest)

-- `_validate_context`
unfoldable pub validate_context : Dict String → Result IntegrationError (Dict String)
validate_context context =
    raise_if (ltb max_config_fields (length context)) limit_exceeded >> check_context context

-- `config[key]`
unfoldable pub setting : String → Dict String → Result IntegrationError String
setting key config = elim (lookup key config) [ none ↦ err key_error | some s ↦ ok s ]

-- `_django_runtime_summary`
unfoldable pub django_runtime_summary :
    Dict String → Dict String → Result IntegrationError (Dict String)
django_runtime_summary config context = do
  path ← setting "health_path" config
  label ← setting "metadata_label" config
  ok (
      ("kind", "django-runtime")
      ∷ ("health_path", path)
      ∷ ("metadata_label", label)
      ∷ ("project", get_or "unknown" "project" context)
      ∷ [])

-- `_otlp_export_summary`
unfoldable pub otlp_export_summary :
    Dict String → Dict String → Result IntegrationError (Dict String)
otlp_export_summary config context = do
  endpoint ← setting "endpoint" config
  namespace ← setting "service_namespace" config
  ok (
      ("kind", "otlp-export")
      ∷ ("endpoint", endpoint)
      ∷ ("service_namespace", namespace)
      ∷ ("project", get_or "unknown" "project" context)
      ∷ [])

-- The dispatch on the name.
unfoldable pub summary_of : IntegrationConfig → Dict String → Result IntegrationError (Dict String)
summary_of c context =
    if c.name == "django-runtime"
    then django_runtime_summary c.config context
    else if c.name == "otlp-export"
    then otlp_export_summary c.config context
    else err unknown_integration

-- The loop of `_bounded_result`.
unfoldable pub check_result : Dict String → Result IntegrationError (Dict String)
check_result [] = ok []
check_result ((key, item) ∷ d) = do
  raise_if
      (is_secret_key key
        || ltb 64 (length (codes key))
        || ltb max_result_value_chars (length (codes item)))
      result_rejected
  rest ← check_result d
  ok ((key, item) ∷ rest)

-- `_bounded_result`
unfoldable pub bounded_result : Dict String → Result IntegrationError (Dict String)
bounded_result value =
    raise_if (ltb max_result_fields (length value)) limit_exceeded >> check_result value

-- `evaluate_integration`, for an evaluation that takes so many nanoseconds.
unfoldable pub evaluate_integration :
    IntegrationConfig → Dict String → ℕ → ℕ → Result IntegrationError IntegrationResult
evaluate_integration c context budget_ms elapsed_ns =
    raise_if (ltb budget_ms 1 || ltb max_budget_ms budget_ms) invalid_budget
    >> (if not c.enabled
        then ok (record {
          name = c.name;
          version = c.version;
          status = "disabled";
          capabilities = c.capabilities;
          summary = [];
        })
        else (do
          definition ← resolve builtin_registry c.name c.version
          raise_if (not (all (λ x. member x definition.capabilities) c.capabilities))
              unsupported_capability
          safe_context ← validate_context context
          summary ← summary_of c safe_context
          raise_if (ltb (budget_ms * 1000000) elapsed_ns) timeout
          bounded ← bounded_result summary
          ok (record {
            name = c.name;
            version = c.version;
            status = "ready";
            capabilities = c.capabilities;
            summary = bounded;
          })))
