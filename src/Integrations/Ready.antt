-- ===== src/Integrations/Ready.antt =====
-- An accepted integration is evaluated without an error: `parse_integrations` against `evaluate_integration`
-- (cli/djangoops/integrations.py).
use django_ops.Common.{
  ℕ, ◌*◌, ◌≤◌, ◌≡◌, refl, inl, inr, true, false, ◌||◌, some, none, [], ◌∷◌, String, length, arith,
  ltb, if◌then◌else◌, Bool-cases, ok,
}
use django_ops.Common.Dict.{Dict, lookup}
use django_ops.Common.Text.{codes}
use django_ops.Config.Validators.{SplitUrl}
use django_ops.Integrations.Contract.{max_config_value_chars, IntegrationConfig}
use django_ops.Integrations.Parser.{get_or}
use django_ops.Integrations.Evaluation.{
  max_budget_ms, IntegrationResult, check_context, validate_context, setting,
  django_runtime_summary, otlp_export_summary, summary_of, bounded_result, evaluate_integration,
}
use django_ops.Integrations.Settings.{IsRuntime, IsOtlp, Configured}
use django_ops.Integrations.Parsing.{IsAllowed}
use django_ops.Integrations.Lengths.{
  Fits, endpoint-Fits, namespace-Fits, path-Fits, none_checked, check_result-cons, safe_keys,
}

abbrev pub project_context : String → Dict String
project_context slug = ("project", slug) ∷ []

context-eq :
    (slug : String)
    → Fits slug
    → validate_context (project_context slug) ≡ ok (project_context slug)
unfolding validate_context check_context
context-eq slug fits =
    let fits' : ltb max_config_value_chars (length (codes slug)) ≡ false = ground arith in
    rw (safe_keys.5, fits') refl

-- What an evaluation that is ready has found for the project.
abbrev pub runtime_summary : String → String → String → Dict String
runtime_summary path label slug =
    ("kind", "django-runtime")
    ∷ ("health_path", path)
    ∷ ("metadata_label", label)
    ∷ ("project", slug)
    ∷ []

abbrev pub otlp_summary : String → String → String → Dict String
otlp_summary endpoint namespace slug =
    ("kind", "otlp-export")
    ∷ ("endpoint", endpoint)
    ∷ ("service_namespace", namespace)
    ∷ ("project", slug)
    ∷ []

runtime-bounded :
    (path label slug : String)
    → Fits path
    → Fits label
    → Fits slug
    → bounded_result (runtime_summary path label slug) ≡ ok (runtime_summary path label slug)
unfolding bounded_result
runtime-bounded path label slug p l s =
    check_result-cons "kind" "django-runtime" _ safe_keys.0 refl (omega arith) (
      check_result-cons "health_path" path _ safe_keys.1 refl p (
        check_result-cons "metadata_label" label _ safe_keys.2 refl l
          (check_result-cons "project" slug [] safe_keys.5 refl s none_checked)))

otlp-bounded :
    (endpoint namespace slug : String)
    → Fits endpoint
    → Fits namespace
    → Fits slug
    → bounded_result (otlp_summary endpoint namespace slug)
      ≡ ok (otlp_summary endpoint namespace slug)
unfolding bounded_result
otlp-bounded endpoint namespace slug e n s =
    check_result-cons "kind" "otlp-export" _ safe_keys.0 refl (omega arith) (
      check_result-cons "endpoint" endpoint _ safe_keys.3 refl e (
        check_result-cons "service_namespace" namespace _ safe_keys.4 refl n
          (check_result-cons "project" slug [] safe_keys.5 refl s none_checked)))

runtime-found :
    (c : IntegrationConfig) (slug : String)
    → c.name ≡ "django-runtime"
    → (r : IsRuntime c.config)
    → summary_of c (project_context slug) ≡ ok (runtime_summary r.path r.label slug)
unfolding summary_of django_runtime_summary setting get_or lookup
runtime-found c slug e r = rw (e, django_runtime_summary, setting, r.has_path, r.has_label) refl

otlp-found :
    (urlsplit : String → SplitUrl) (c : IntegrationConfig) (slug : String)
    → c.name ≡ "otlp-export"
    → (r : IsOtlp urlsplit c.config)
    → summary_of c (project_context slug) ≡ ok (otlp_summary r.endpoint r.namespace slug)
unfolding summary_of otlp_export_summary setting get_or lookup
otlp-found urlsplit c slug e r =
    rw (e, otlp_export_summary, setting, r.has_endpoint, r.has_namespace) refl

-- The summary of an accepted integration, which `_bounded_result` accepts.
summary-bounded :
    (urlsplit : String → SplitUrl) (c : IntegrationConfig) (slug : String)
    → Fits slug
    → Configured urlsplit c.name c.config
    → (d : Dict String) × (summary_of c (project_context slug) ≡ ok d)
      × (bounded_result d ≡ ok d)
      × (lookup "project" d ≡ some slug)
unfolding lookup
summary-bounded urlsplit c slug fits (inl (e, r)) = (
  runtime_summary r.path r.label slug,
  runtime-found c slug e r,
  runtime-bounded r.path r.label slug (path-Fits r.path r.safe_path)
      (namespace-Fits r.label r.safe_label) fits,
  refl,
)
summary-bounded urlsplit c slug fits (inr (e, r)) = (
  otlp_summary r.endpoint r.namespace slug,
  otlp-found urlsplit c slug e r,
  otlp-bounded r.endpoint r.namespace slug
      (endpoint-Fits urlsplit r.given r.endpoint r.bounded r.validated)
      (namespace-Fits r.namespace r.safe_namespace) fits,
  refl,
)

-- What an evaluation returns for the project.
pub record IsEvaluated (c : IntegrationConfig) (slug : String) (r : IntegrationResult)
    : Type 0 where
  pub name : r.name ≡ c.name
  pub status : r.status ≡ (if c.enabled then "ready" else "disabled")
  pub summary : lookup "project" r.summary ≡ (if c.enabled then some slug else none)

-- An accepted integration is evaluated without an error for a project whose slug is not longer than a setting,
-- within a valid budget of time that is not used up: it is ready and names the project, or disabled.
pub evaluate_integration-IsEvaluated :
    (urlsplit : String → SplitUrl) (c : IntegrationConfig) (slug : String)
    (budget_ms elapsed_ns : ℕ)
    → IsAllowed urlsplit c
    → length (codes slug) ≤ max_config_value_chars
    → 1 ≤ budget_ms
    → budget_ms ≤ max_budget_ms
    → elapsed_ns ≤ budget_ms * 1000000
    → (r : IntegrationResult) × (evaluate_integration c (project_context slug) budget_ms elapsed_ns
        ≡ ok r)
      × IsEvaluated c slug r
unfolding evaluate_integration lookup
evaluate_integration-IsEvaluated urlsplit c slug budget_ms elapsed_ns a fits low high in_time =
    let budget : (ltb budget_ms 1 || ltb max_budget_ms budget_ms) ≡ false = ground arith in
    let time : ltb (budget_ms * 1000000) elapsed_ns ≡ false = ground arith in
    let (d, found, bounded, project) =
      summary-bounded urlsplit (record c { enabled = true }) slug fits a.configured in
    elim (Bool-cases c.enabled) [
      | inl on ↦ (
        record {
          name = c.name;
          version = c.version;
          status = "ready";
          capabilities = c.capabilities;
          summary = d;
        },
        rw (budget, on, a.resolved, a.capable, context-eq slug fits, found, time, bounded) refl,
        record { name = refl; status = rw on refl; summary = rw on project },
      )
      | inr off ↦ (
        record {
          name = c.name;
          version = c.version;
          status = "disabled";
          capabilities = c.capabilities;
          summary = [];
        },
        rw (budget, off) refl,
        record { name = refl; status = rw off refl; summary = rw off refl },
      )
    ]
