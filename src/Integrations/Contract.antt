-- ===== src/Integrations/Contract.antt =====
-- cli/djangoops/integrations.py: the registry of integrations and the parser of their configuration.
use django_ops.Common.{
  ℕ, Bool, true, false, not, ◌&&◌, ◌||◌, none, some, List, [], ◌∷◌, String, length, all, member,
  leb, eqb, Result, ok, err, ◌>>◌, raise_if,
}
use django_ops.Common.Dict.{Dict, lookup, contains, insert}
use django_ops.Common.Redact.{Piece, word, after_words}
use django_ops.Common.Text.{Text, codes, is_lower, is_digit, is_alnum}

-- The codes of `IntegrationError`; `key_error` is Python's own.
pub data IntegrationError : Type 0 where
  duplicate_registration invalid_registration unknown_integration unsupported_version :
      IntegrationError
  invalid_config limit_exceeded schema_drift duplicate_integration : IntegrationError
  unsupported_capability secret_rejected invalid_budget timeout result_rejected : IntegrationError
  key_error : IntegrationError

abbrev pub max_integrations : ℕ
max_integrations = 8

abbrev pub max_config_fields : ℕ
max_config_fields = 16

abbrev pub max_config_value_chars : ℕ
max_config_value_chars = 256

-- The words of `_SECRET_KEY_RE`; `?` is `[_-]?`.
abbrev pub secret_words : List (List Piece)
secret_words =
    word (codes "secret")
    ∷ word (codes "token")
    ∷ word (codes "password")
    ∷ word (codes "authorization")
    ∷ word (codes "api?key")
    ∷ word (codes "access?key")
    ∷ word (codes "credential")
    ∷ []

-- `_SECRET_KEY_RE.search(key)`
unfoldable pub is_secret_key : String → Bool
is_secret_key String.[] = false
is_secret_key (String.◌∷◌ c s) =
    let rest = is_secret_key s in
    elim (after_words secret_words (String.◌∷◌ c s)) [ some r ↦ true | none ↦ rest ]

-- `_SAFE_NAME_RE`
unfoldable pub is_safe_name : Text → Bool
is_safe_name [] = false
is_safe_name (c ∷ s) =
    is_lower c && leb (length s) 47 && all (λ d. is_lower d || is_digit d || eqb d b'-') s

-- `_SAFE_NAMESPACE_RE`
unfoldable pub is_safe_namespace : Text → Bool
is_safe_namespace [] = false
is_safe_namespace (c ∷ s) =
    is_alnum c
    && leb (length s) 62
    && all (λ d. is_alnum d || eqb d b'_' || eqb d b'.' || eqb d b'-') s

-- `_SAFE_HEALTH_PATH_RE`
unfoldable pub is_safe_health_path : Text → Bool
is_safe_health_path [] = false
is_safe_health_path (c ∷ s) =
    eqb c b'/'
    && leb (length s) 127
    && all (λ d. is_alnum d || eqb d b'/' || eqb d b'_' || eqb d b'-') s

pub record IntegrationDefinition : Type 0 where
  pub name : String
  pub versions : List String
  pub capabilities : List String
  pub config_keys : List String

pub record IntegrationConfig : Type 0 where
  pub name : String
  pub version : String
  pub enabled : Bool
  pub capabilities : List String
  pub config : Dict String

-- `IntegrationRegistry.__init__`: the loop over the definitions.
unfoldable pub register :
    Dict IntegrationDefinition
    → List IntegrationDefinition
    → Result IntegrationError (Dict IntegrationDefinition)
register registered [] = ok registered
register registered (d ∷ ds) =
    raise_if (contains d.name registered) duplicate_registration
    >> raise_if (not (is_safe_name (codes d.name))) invalid_registration
    >> register (insert d.name d registered) ds

-- `IntegrationRegistry.resolve`
unfoldable pub resolve :
    Dict IntegrationDefinition → String → String → Result IntegrationError IntegrationDefinition
resolve registry name version = elim (lookup name registry) [
  | none ↦ err unknown_integration
  | some d ↦ raise_if (not (member version d.versions)) unsupported_version >> ok d
]

abbrev pub django_runtime : IntegrationDefinition
django_runtime = record {
  name = "django-runtime";
  versions = "v1" ∷ [];
  capabilities = "metadata" ∷ "health" ∷ [];
  config_keys = "health_path" ∷ "metadata_label" ∷ [];
}

abbrev pub otlp_export : IntegrationDefinition
otlp_export = record {
  name = "otlp-export";
  versions = "v1" ∷ [];
  capabilities = "telemetry" ∷ "deployment_config" ∷ [];
  config_keys = "endpoint" ∷ "service_namespace" ∷ [];
}

-- `BUILTIN_REGISTRY`
abbrev pub builtin_registry : Dict IntegrationDefinition
builtin_registry = ("django-runtime", django_runtime) ∷ ("otlp-export", otlp_export) ∷ []

-- The values of a document; a mapping has text keys, one entry for a key, and is `other` if it has not.
mutual
  pub data Value : Type 0 where
    nothing other : Value
    boolean : Bool → Value
    text : String → Value
    list : Items → Value
    mapping : Entries → Value

  pub data Items : Type 0 where
    nil : Items
    cons : Value → Items → Items

  pub data Entries : Type 0 where
    empty : Entries
    entry : String → Value → Entries → Entries

unfoldable pub items : Items → List Value
items nil = []
items (cons v vs) = v ∷ items vs

unfoldable pub entries : Entries → Dict Value
entries empty = []
entries (entry k v d) = (k, v) ∷ entries d
