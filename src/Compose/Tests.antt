-- ===== src/Compose/Tests.antt =====
-- A Compose file of a concrete configuration, and the theorems applied to it.
use django_ops.Common.{◌≡◌, refl, true, false, none, some, List, [], ◌∷◌, String, ok}
use django_ops.Common.Dict.{lookup, insert}
use django_ops.Common.Text.{starts_with}
use django_ops.Config.Schema.{DjangoOpsConfig}
use django_ops.Config.Validators.{SplitUrl, rstrip_char}
use django_ops.Common.Redact.{after_word, after_words, fold_case}
use django_ops.Common.Text.{occurs}
use django_ops.Integrations.Contract.{
  IntegrationConfig, Value, text, boolean, list, mapping, nil, cons, empty, entry, items, entries,
  resolve, is_safe_name, is_safe_namespace, is_safe_health_path, is_secret_key,
}
use django_ops.Integrations.Evaluation.{setting}
use django_ops.Integrations.Parser.{
  read_string, read_boolean, read_list, read_mapping, read_strings, keys, get, has_contract_keys,
  is_distinct, read_settings, get_or, default_runtime, validate_endpoint, read_endpoint,
  default_otlp, default_settings, validate_config, parse_integration, parse_all, parse_integrations,
}
use django_ops.Compose.Services.{
  ComposeDocument, remove_suffix, django_project_module, infrastructure_dependencies,
  storage_environment, find_integration, otel_of, application_environment, celery_service,
  traefik_service, web_healthcheck, web_service,
}
use django_ops.Compose.Render.{render_compose}
use django_ops.Compose.Complete.{IsComplete, render_compose-IsComplete}

program : Unit {0}
unfolding lookup insert after_word after_words fold_case occurs starts_with rstrip_char resolve
    is_safe_name is_safe_namespace is_safe_health_path is_secret_key items entries read_string
    read_boolean read_list read_mapping read_strings keys get has_contract_keys is_distinct
    read_settings get_or default_runtime validate_endpoint read_endpoint default_otlp
    default_settings validate_config parse_integration parse_all parse_integrations setting
    remove_suffix django_project_module infrastructure_dependencies storage_environment
    find_integration otel_of application_environment celery_service traefik_service web_healthcheck
    web_service render_compose
program = tt

abbrev config : DjangoOpsConfig
config = record {
  project_name = "shop";
  django_module = "shop.settings";
  postgres = true;
  redis = false;
  celery = true;
  celery_beat = false;
  hostname = "shop.example";
  acme_email = "ops@shop.example";
  endpoint_url = "https://s3.example";
  region = none;
  static_bucket = "shop-static";
  media_bucket = "shop-media";
  schedule = "0 3 * * *";
  bucket = "shop-backups";
  prefix = "shop";
}

abbrev urlsplit : String → SplitUrl
urlsplit s = record {
  scheme = "https";
  hostname = some "otel.example";
  username = none;
  password = none;
  path = "";
  query = "";
  fragment = "";
}

abbrev runtime : Value
runtime = list (
    cons
      (mapping (
        entry "name" (text "django-runtime") (
          entry "version" (text "v1") (
            entry "enabled" (boolean true) (
              entry "capabilities" (list (cons (text "health") nil))
                (entry "config" (mapping empty) empty))))))
      nil)

abbrev parsed : List IntegrationConfig
parsed =
    record {
      name = "django-runtime";
      version = "v1";
      enabled = true;
      capabilities = "health" ∷ [];
      config = ("health_path", "/healthz") ∷ ("metadata_label", "django") ∷ [];
    }
    ∷ []

runtime_read : parse_integrations urlsplit runtime ≡ ok parsed
unfolding program
runtime_read = refl

module_of_settings : django_project_module config ≡ "shop"
unfolding program
module_of_settings = refl

settings_inside : remove_suffix ".settings" "shop.settings.base" ≡ "shop.settings.base"
unfolding program
settings_inside = refl

render_compose-IsComplete_example :
    (d : ComposeDocument) × (render_compose config parsed ≡ ok d) × IsComplete config d
render_compose-IsComplete_example =
    render_compose-IsComplete urlsplit runtime config parsed runtime_read
