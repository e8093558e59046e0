-- ===== src/Config/Tests.antt =====
-- Concrete configurations and documents, and the theorems applied to them.
use django_ops.Common.{ℕ, ◌≡◌, refl, true, false, none, some, String, ok, err}
use django_ops.Common.Redact.{is_space}
use django_ops.Common.Text.{is_alnum, eq_text, occurs, starts_with, split, split_go}
use django_ops.Config.Validators.{
  bad_hostname, bad_schedule, matches_project, matches_identifier, matches_module,
  matches_host_label, matches_domain, matches_email_parts, matches_bucket, validate_project_name,
  validate_django_module, rstrip_char, validate_hostname, validate_email, SplitUrl,
  validate_storage_endpoint, validate_region, validate_bucket, words_go, words, join_words,
  matches_cron, validate_backup_schedule, matches_prefix, validate_backup_prefix,
}
use django_ops.Config.Schema.{
  null, boolean, number, text, mapping, Entries, empty, entry, get, keys, has_keys, DjangoOpsConfig,
  require_mapping, require_string, require_boolean, require_region, upgrade_legacy, document_of,
  current_document, validated, read_texts, read_sections, read_document, from_mapping, region_value,
  to_mapping, upgrade_document, create,
}

program : Unit {0}
unfolding is_space eq_text occurs starts_with split split_go matches_project matches_identifier
    matches_module matches_host_label matches_domain matches_email_parts matches_bucket
    validate_project_name validate_django_module rstrip_char validate_hostname validate_email
    validate_storage_endpoint validate_region validate_bucket words_go words join_words matches_cron
    validate_backup_schedule matches_prefix validate_backup_prefix get keys has_keys require_mapping
    require_string require_boolean require_region upgrade_legacy document_of current_document
    validated read_texts read_sections read_document from_mapping region_value to_mapping
    upgrade_document create
program = tt

abbrev same : String → String
same s = s

abbrev split_url : String → SplitUrl
split_url url = record {
  scheme = "https";
  hostname = some "s3.example.com";
  username = none;
  password = none;
  path = "";
  query = "";
  fragment = "";
}

abbrev config : DjangoOpsConfig
config = record {
  project_name = "shop";
  django_module = "shop.config";
  postgres = true;
  redis = true;
  celery = true;
  celery_beat = false;
  hostname = "shop.example.com";
  acme_email = "ops@example.com";
  endpoint_url = "https://s3.example.com";
  region = none;
  static_bucket = "shop-static";
  media_bucket = "shop-media";
  schedule = "17 2 * * *";
  bucket = "shop-backups";
  prefix = "backups";
}

spaced_schedule : validate_backup_schedule " 17 2  * * * " ≡ ok "17 2 * * *"
unfolding program
spaced_schedule = refl

four_fields : validate_backup_schedule "17 2 * *" ≡ err bad_schedule
unfolding program
four_fields = refl

bare_hostname : validate_hostname same "localhost." ≡ err bad_hostname
unfolding program
bare_hostname = refl

read_back : from_mapping is_alnum same split_url (to_mapping config) ≡ ok config
unfolding program
read_back = refl

abbrev legacy : ℕ → Entries
legacy version = entry "schema_version" (number version) (
    entry "project" (mapping (entry "name" (text "shop") empty)) (
      entry "django" (mapping (entry "module" (text "shop.config") empty)) (
        entry "services"
          (mapping (
            entry "postgres" (boolean true) (
              entry "redis" (boolean true)
                (entry "celery" (boolean true) (entry "celery_beat" (boolean false) empty)))))
          (entry "tls"
            (mapping (
              entry "hostname" (text "shop.example.com")
                (entry "acme_email" (text "ops@example.com") empty)))
            (entry "storage"
              (mapping (
                entry "endpoint_url" (text "https://s3.example.com") (
                  entry "region" null (
                    entry "static_bucket" (text "shop-static")
                      (entry "media_bucket" (text "shop-media") empty)))))
              empty)))))

upgraded :
    upgrade_document is_alnum same split_url (mapping (legacy 2)) "shop-backups" "5 3 * * 1"
    ≡ ok (record config { schedule = "5 3 * * 1"; prefix = "djangoops-backups" })
unfolding program
upgraded = refl
