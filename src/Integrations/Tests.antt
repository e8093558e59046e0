-- ===== src/Integrations/Tests.antt =====
-- Integrations of a concrete document, and the theorems applied to them.
use django_ops.Common.{◌≤◌, ◌≡◌, refl, true, none, some, List, [], ◌∷◌, String, All, arith, ok, err}
use django_ops.Common.Dict.{lookup, insert}
use django_ops.Common.Redact.{after_word, after_words, fold_case}
use django_ops.Common.Text.{occurs, starts_with}
use django_ops.Config.Validators.{SplitUrl, rstrip_char}
use django_ops.Graphql.Site.{Project, get_where}
use django_ops.Integrations.Contract.{
  register, resolve, django_runtime, otlp_export, builtin_registry, is_safe_name, is_safe_namespace,
  is_safe_health_path, is_secret_key, max_integrations, IntegrationConfig, Value, boolean, text,
  list, mapping, nil, cons, empty, entry, items, entries, unsupported_capability,
}
use django_ops.Integrations.Parser.{
  read_string, read_boolean, read_list, read_mapping, read_strings, keys, get, has_contract_keys,
  is_distinct, read_settings, get_or, default_runtime, validate_endpoint, read_endpoint,
  default_otlp, default_settings, validate_config, parse_integration, parse_all, parse_integrations,
}
use django_ops.Integrations.Evaluation.{IntegrationResult}
use django_ops.Integrations.Parsing.{IsAllowed, parse_integrations-IsAllowed}
use django_ops.Integrations.Projects.{evaluate_project_integrations, Evaluated, parsed-Evaluated}

program : Unit {0}
unfolding lookup insert after_word after_words fold_case occurs starts_with rstrip_char get_where
    register resolve is_safe_name is_safe_namespace is_safe_health_path is_secret_key items entries
    read_string read_boolean read_list read_mapping read_strings keys get has_contract_keys
    is_distinct read_settings get_or default_runtime validate_endpoint read_endpoint default_otlp
    default_settings validate_config parse_integration parse_all parse_integrations
program = tt

registered : register [] (django_runtime ∷ otlp_export ∷ []) ≡ ok builtin_registry
unfolding program
registered = refl

abbrev urlsplit : String → SplitUrl
urlsplit s = record {
  scheme = "https";
  hostname = some "otel.example";
  username = none;
  password = none;
  path = "/";
  query = "";
  fragment = "";
}

abbrev integration : String → Value → Value → Value
integration name capability settings = mapping (
    entry "name" (text name) (
      entry "version" (text "v1") (
        entry "enabled" (boolean true)
          (entry "capabilities" (list (cons capability nil)) (entry "config" settings empty)))))

abbrev document : Value
document = list (
    cons
      (integration "otlp-export" (text "telemetry")
        (mapping (entry "endpoint" (text "https://otel.example/") empty)))
      (cons (integration "django-runtime" (text "health") (mapping empty)) nil))

abbrev parsed : List IntegrationConfig
parsed =
    record {
      name = "otlp-export";
      version = "v1";
      enabled = true;
      capabilities = "telemetry" ∷ [];
      config = ("endpoint", "https://otel.example") ∷ ("service_namespace", "djangoops") ∷ [];
    }
    ∷ record {
      name = "django-runtime";
      version = "v1";
      enabled = true;
      capabilities = "health" ∷ [];
      config = ("health_path", "/healthz") ∷ ("metadata_label", "django") ∷ [];
    }
    ∷ []

document_read : parse_integrations urlsplit document ≡ ok parsed
unfolding program
document_read = refl

foreign_capability :
    parse_integrations urlsplit
      (list (cons (integration "django-runtime" (text "telemetry") (mapping empty)) nil))
    ≡ err unsupported_capability
unfolding program
foreign_capability = refl

parse_integrations-IsAllowed_example :
    (2 ≤ max_integrations)
    × (is_distinct ("otlp-export" ∷ "django-runtime" ∷ []) ≡ true)
    × All (IsAllowed urlsplit) parsed
parse_integrations-IsAllowed_example =
    parse_integrations-IsAllowed urlsplit document parsed document_read

abbrev shop : Project
shop = record { pk = 4; slug = "shop"; members = 7 ∷ [] }

parsed-Evaluated_example :
    (rs : List IntegrationResult) × (evaluate_project_integrations
        (shop ∷ [])
        7
        4
        parsed
        (λ c. 5000000)
      ≡ ok rs)
    × Evaluated "shop" parsed rs
unfolding program
parsed-Evaluated_example =
    parsed-Evaluated urlsplit document parsed (shop ∷ []) 7 4 shop (λ c. 5000000) document_read refl
      (omega arith) (λ c. omega arith)
