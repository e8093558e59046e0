-- ===== src/Config/Schema.antt =====
-- cli/djangoops/config.py: `DjangoOpsConfig`, `create`, `from_mapping` and `to_mapping`. A document is what
-- the YAML parser returns.
use django_ops.Common.{
  ℕ, Bool, true, false, not, ◌&&◌, Option, none, some, List, [], ◌∷◌, String, ◌==◌, all, member,
  eqb, if◌then◌else◌, Result, ok, err, ◌>>=◌, ◌>>◌, raise_if,
}
use django_ops.Config.Validators.{
  ConfigError, not_mapping, no_schema_version, old_schema, upgrade_needed, unsupported_schema,
  wrong_keys, not_boolean, not_string, not_upgradable, SplitUrl, validate_project_name,
  validate_django_module, validate_hostname, validate_email, validate_storage_endpoint,
  validate_region, validate_bucket, validate_backup_schedule, validate_backup_prefix,
}

-- A `number` is one that equals a natural number; all other values are `other`.
mutual
  pub data Value : Type 0 where
    null other : Value
    boolean : Bool → Value
    number : ℕ → Value
    text : String → Value
    mapping : Entries → Value

  -- Entries of a mapping, whose keys are texts; a mapping with another key is `other`.
  pub data Entries : Type 0 where
    empty : Entries
    entry : String → Value → Entries → Entries

unfoldable pub get : String → Entries → Value
get k empty = null
get k (entry j v rest) = if j == k then v else get k rest

unfoldable pub keys : Entries → List String
keys empty = []
keys (entry j v rest) = j ∷ keys rest

-- `set(value) == {...}`
unfoldable pub has_keys : List String → Entries → Bool
has_keys wanted d = all (λ k. member k wanted) (keys d) && all (λ k. member k (keys d)) wanted

-- The configuration, its nested records laid out flat.
pub record DjangoOpsConfig : Type 0 where
  pub project_name : String
  pub django_module : String
  pub postgres : Bool
  pub redis : Bool
  pub celery : Bool
  pub celery_beat : Bool
  pub hostname : String
  pub acme_email : String
  pub endpoint_url : String
  pub region : Option String
  pub static_bucket : String
  pub media_bucket : String
  pub schedule : String
  pub bucket : String
  pub prefix : String

-- `_require_mapping`, for a document whose mappings have text keys
unfoldable pub require_mapping : Value → Result ConfigError Entries
require_mapping (mapping d) = ok d
require_mapping _ = err not_mapping

unfoldable pub require_string : Value → Result ConfigError String
require_string (text s) = ok s
require_string _ = err not_string

unfoldable pub require_boolean : Value → Result ConfigError Bool
require_boolean (boolean b) = ok b
require_boolean _ = err not_boolean

unfoldable pub require_region : Value → Result ConfigError (Option String)
require_region null = ok none
require_region (text s) = ok (some s)
require_region _ = err not_string

abbrev pub legacy_keys : List String
legacy_keys = "schema_version" ∷ "project" ∷ "django" ∷ "services" ∷ "tls" ∷ "storage" ∷ []

abbrev pub schema_keys : List String
schema_keys = "backup" ∷ legacy_keys

-- The backup settings of a document of schema 1.
abbrev pub default_backup : Value
default_backup = mapping (
    entry "schedule" (text "17 2 * * *")
      (entry "bucket" (text "djangoops-backups") (entry "prefix" (text "djangoops-backups") empty)))

-- A document of schema 1 with the settings it gets; a new entry hides an old one of its key.
unfoldable pub upgrade_legacy : Entries → Result ConfigError Entries
upgrade_legacy d =
    raise_if (not (has_keys legacy_keys d)) old_schema
    >> ok (entry "schema_version" (number 3) (entry "backup" default_backup d))

-- The branches on `schema_version`.
unfoldable pub document_of : ℕ → Entries → Result ConfigError Entries
document_of version d =
    if eqb version 1
    then upgrade_legacy d
    else if eqb version 2
    then err upgrade_needed
    else if eqb version 3
    then ok d
    else err unsupported_schema

-- The document that the checks of `schema_version` leave; `True == 1` in Python.
unfoldable pub current_document : Entries → Value → Result ConfigError Entries
current_document d (number version) = document_of version d
current_document d (boolean true) = document_of 1 d
current_document d _ = err unsupported_schema

module _ (is_word : ℕ → Bool) (lower : String → String) (urlsplit : String → SplitUrl) where
  -- The validators in the order in which the constructor's arguments call them.
  unfoldable pub validated : DjangoOpsConfig → Result ConfigError DjangoOpsConfig
  validated c = do
    project_name ← validate_project_name c.project_name
    django_module ← validate_django_module is_word c.django_module
    hostname ← validate_hostname lower c.hostname
    acme_email ← validate_email c.acme_email
    endpoint_url ← validate_storage_endpoint urlsplit c.endpoint_url
    region ← validate_region c.region
    static_bucket ← validate_bucket c.static_bucket
    media_bucket ← validate_bucket c.media_bucket
    schedule ← validate_backup_schedule c.schedule
    bucket ← validate_bucket c.bucket
    prefix ← validate_backup_prefix c.prefix
    ok (record c {
      project_name = project_name;
      django_module = django_module;
      hostname = hostname;
      acme_email = acme_email;
      endpoint_url = endpoint_url;
      region = region;
      static_bucket = static_bucket;
      media_bucket = media_bucket;
      schedule = schedule;
      bucket = bucket;
      prefix = prefix;
    })

  -- `from_mapping` once the flags and the region are read.
  unfoldable pub read_texts :
      Entries
      → Entries
      → Entries
      → Entries
      → Entries
      → Bool
      → Bool
      → Bool
      → Bool
      → Option String
      → Result ConfigError DjangoOpsConfig
  read_texts project django tls storage backup postgres redis celery celery_beat region = do
    project_name ← require_string (get "name" project)
    django_module ← require_string (get "module" django)
    hostname ← require_string (get "hostname" tls)
    acme_email ← require_string (get "acme_email" tls)
    endpoint_url ← require_string (get "endpoint_url" storage)
    static_bucket ← require_string (get "static_bucket" storage)
    media_bucket ← require_string (get "media_bucket" storage)
    schedule ← require_string (get "schedule" backup)
    bucket ← require_string (get "bucket" backup)
    prefix ← require_string (get "prefix" backup)
    validated (record {
      project_name = project_name;
      django_module = django_module;
      postgres = postgres;
      redis = redis;
      celery = celery;
      celery_beat = celery_beat;
      hostname = hostname;
      acme_email = acme_email;
      endpoint_url = endpoint_url;
      region = region;
      static_bucket = static_bucket;
      media_bucket = media_bucket;
      schedule = schedule;
      bucket = bucket;
      prefix = prefix;
    })

  -- `from_mapping` once the sections are mappings.
  unfoldable pub read_sections :
      Entries → Entries → Entries → Entries → Entries → Entries → Result ConfigError DjangoOpsConfig
  read_sections project django services tls storage backup = do
    raise_if (not (has_keys ("name" ∷ []) project && has_keys ("module" ∷ []) django)) wrong_keys
    raise_if (not (has_keys ("postgres" ∷ "redis" ∷ "celery" ∷ "celery_beat" ∷ []) services))
        wrong_keys
    raise_if (not (has_keys ("hostname" ∷ "acme_email" ∷ []) tls)) wrong_keys
    raise_if
        (not (has_keys ("endpoint_url" ∷ "region" ∷ "static_bucket" ∷ "media_bucket" ∷ []) storage))
        wrong_keys
    raise_if (not (has_keys ("schedule" ∷ "bucket" ∷ "prefix" ∷ []) backup)) wrong_keys
    postgres ← require_boolean (get "postgres" services)
    redis ← require_boolean (get "redis" services)
    celery ← require_boolean (get "celery" services)
    celery_beat ← require_boolean (get "celery_beat" services)
    region ← require_region (get "region" storage)
    read_texts project django tls storage backup postgres redis celery celery_beat region

  -- `from_mapping` from the checks of the keys on.
  unfoldable pub read_document : Entries → Result ConfigError DjangoOpsConfig
  read_document d = do
    raise_if (not (has_keys schema_keys d)) wrong_keys
    project ← require_mapping (get "project" d)
    django ← require_mapping (get "django" d)
    services ← require_mapping (get "services" d)
    tls ← require_mapping (get "tls" d)
    storage ← require_mapping (get "storage" d)
    backup ← require_mapping (get "backup" d)
    read_sections project django services tls storage backup

  -- `from_mapping`
  unfoldable pub from_mapping : Value → Result ConfigError DjangoOpsConfig
  from_mapping (mapping d) =
      raise_if (not (member "schema_version" (keys d))) no_schema_version
      >> (current_document d (get "schema_version" d) >>= λ current. read_document current)
  from_mapping _ = err not_mapping

unfoldable pub region_value : Option String → Value
region_value none = null
region_value (some s) = text s

-- `to_mapping`, which is `asdict`
unfoldable pub to_mapping : DjangoOpsConfig → Value
to_mapping c = mapping (
    entry "schema_version" (number 3) (
      entry "project" (mapping (entry "name" (text c.project_name) empty)) (
        entry "django" (mapping (entry "module" (text c.django_module) empty)) (
          entry "services"
            (mapping (
              entry "postgres" (boolean c.postgres) (
                entry "redis" (boolean c.redis) (
                  entry "celery" (boolean c.celery)
                    (entry "celery_beat" (boolean c.celery_beat) empty)))))
            (entry "tls"
              (mapping
                (entry "hostname" (text c.hostname) (entry "acme_email" (text c.acme_email) empty)))
              (entry "storage"
                (mapping (
                  entry "endpoint_url" (text c.endpoint_url) (
                    entry "region" (region_value c.region) (
                      entry "static_bucket" (text c.static_bucket)
                        (entry "media_bucket" (text c.media_bucket) empty)))))
                (entry "backup"
                  (mapping (
                    entry "schedule" (text c.schedule)
                      (entry "bucket" (text c.bucket) (entry "prefix" (text c.prefix) empty))))
                  empty)))))))

abbrev is_two : Value → Bool
is_two (number n) = eqb n 2
is_two _ = false

-- `upgrade_config` between the parser and the renderer
unfoldable pub upgrade_document :
    (ℕ → Bool)
    → (String → String)
    → (String → SplitUrl)
    → Value
    → String
    → String
    → Result ConfigError DjangoOpsConfig
upgrade_document is_word lower urlsplit (mapping d) backup_bucket backup_schedule = do
  raise_if (not (is_two (get "schema_version" d))) not_upgradable
  raise_if (not (has_keys legacy_keys d)) not_upgradable
  schedule ← validate_backup_schedule backup_schedule
  bucket ← validate_bucket backup_bucket
  from_mapping is_word lower urlsplit (
      mapping (
        entry "schema_version" (number 3) (
          entry "backup"
            (mapping (
              entry "schedule" (text schedule)
                (entry "bucket" (text bucket) (entry "prefix" (text "djangoops-backups") empty))))
            d)))
upgrade_document is_word lower urlsplit _ backup_bucket backup_schedule = err not_upgradable

-- `DjangoOpsConfig.create`
unfoldable pub create :
    (ℕ → Bool)
    → (String → String)
    → (String → SplitUrl)
    → DjangoOpsConfig
    → Result ConfigError DjangoOpsConfig
create is_word lower urlsplit c =
    validated is_word lower urlsplit
      (record c { postgres = true; redis = true; celery = true; celery_beat = true })
