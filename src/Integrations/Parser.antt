-- ===== src/Integrations/Parser.antt =====
-- cli/djangoops/integrations.py: `parse_integrations` and the validation of an integration's settings.
-- `urlsplit` is an argument.
use django_ops.Common.{
  Bool, true, false, not, ◌&&◌, ◌||◌, Option, none, some, List, [], ◌∷◌, String, ◌==◌, length, all,
  member, ltb, is_some, if◌then◌else◌, Result, ok, err, ◌>>=◌, ◌>>◌, raise_if,
}
use django_ops.Common.Dict.{Dict, lookup, insert}
use django_ops.Common.Text.{codes, occurs}
use django_ops.Config.Validators.{SplitUrl, rstrip_char}
use django_ops.Integrations.Contract.{
  IntegrationError, invalid_config, limit_exceeded, schema_drift, duplicate_integration,
  unsupported_capability, secret_rejected, max_integrations, max_config_fields,
  max_config_value_chars, is_secret_key, is_safe_namespace, is_safe_health_path,
  IntegrationDefinition, IntegrationConfig, resolve, builtin_registry, Value, nothing, boolean,
  text, list, mapping, items, entries,
}

-- `_string`
unfoldable pub read_string : Value → Result IntegrationError String
read_string (text s) = ok s
read_string _ = err invalid_config

unfoldable pub read_boolean : Value → Result IntegrationError Bool
read_boolean (boolean b) = ok b
read_boolean _ = err invalid_config

unfoldable pub read_list : Value → Result IntegrationError (List Value)
read_list (list vs) = ok (items vs)
read_list _ = err invalid_config

unfoldable pub read_mapping : Value → Result IntegrationError (Dict Value)
read_mapping (mapping d) = ok (entries d)
read_mapping _ = err invalid_config

unfoldable pub read_strings : List Value → Result IntegrationError (List String)
read_strings [] = ok []
read_strings (v ∷ vs) = read_string v >>= λ s. read_strings vs >>= λ ss. ok (s ∷ ss)

unfoldable pub keys : Dict Value → List String
keys [] = []
keys ((k, v) ∷ d) = k ∷ keys d

-- `raw[key]`, for a key that is there
unfoldable pub get : String → Dict Value → Value
get key d = elim (lookup key d) [ none ↦ nothing | some v ↦ v ]

abbrev pub contract_keys : List String
contract_keys = "name" ∷ "version" ∷ "enabled" ∷ "capabilities" ∷ "config" ∷ []

-- `set(raw) == {...}`
unfoldable pub has_contract_keys : Dict Value → Bool
has_contract_keys d =
    all (λ k. member k contract_keys) (keys d) && all (λ k. member k (keys d)) contract_keys

-- `len(xs) == len(set(xs))`
unfoldable pub is_distinct : List String → Bool
is_distinct [] = true
is_distinct (x ∷ xs) = not (member x xs) && is_distinct xs

-- The loop of `_validate_config` over the entries.
unfoldable pub read_settings : Dict Value → Result IntegrationError (Dict String)
read_settings [] = ok []
read_settings ((key, v) ∷ d) = do
  raise_if (is_secret_key key) secret_rejected
  s ← read_string v
  raise_if (ltb max_config_value_chars (length (codes s))) limit_exceeded
  rest ← read_settings d
  ok ((key, s) ∷ rest)

-- `d.get(key, default)`
unfoldable pub get_or : String → String → Dict String → String
get_or default key d = elim (lookup key d) [ none ↦ default | some s ↦ s ]

unfoldable pub default_runtime : Dict String → Result IntegrationError (Dict String)
default_runtime settings = do
  let path = get_or "/healthz" "health_path" settings
  raise_if (not (is_safe_health_path (codes path)) || occurs (codes "..") (codes path))
      invalid_config
  let with_path = insert "health_path" path settings
  let label = get_or "django" "metadata_label" with_path
  raise_if (not (is_safe_namespace (codes label))) invalid_config
  ok (insert "metadata_label" label with_path)

-- a text that is there and is not empty
abbrev pub is_filled : Option String → Bool
is_filled none = false
is_filled (some s) = not (s == "")

-- `_validate_endpoint`
unfoldable pub validate_endpoint : (String → SplitUrl) → String → Result IntegrationError String
validate_endpoint urlsplit value = do
  let parsed = urlsplit value
  raise_if
      (not (parsed.scheme == "http" || parsed.scheme == "https")
        || not (is_filled parsed.hostname)
        || is_some parsed.username
        || is_some parsed.password
        || not (parsed.query == "")
        || not (parsed.fragment == "")
        || not (parsed.path == "" || parsed.path == "/"))
      secret_rejected
  ok (rstrip_char b'/' value)

-- `validated["endpoint"]`, validated
unfoldable pub read_endpoint : (String → SplitUrl) → Dict String → Result IntegrationError String
read_endpoint urlsplit settings = elim (lookup "endpoint" settings) [
  | none ↦ err invalid_config
  | some endpoint ↦ validate_endpoint urlsplit endpoint
]

unfoldable pub default_otlp :
    (String → SplitUrl) → Dict String → Result IntegrationError (Dict String)
default_otlp urlsplit settings = do
  endpoint ← read_endpoint urlsplit settings
  let with_endpoint = insert "endpoint" endpoint settings
  let namespace = get_or "djangoops" "service_namespace" with_endpoint
  raise_if (not (is_safe_namespace (codes namespace))) invalid_config
  ok (insert "service_namespace" namespace with_endpoint)

-- The part of `_validate_config` that knows the integrations.
unfoldable pub default_settings :
    (String → SplitUrl) → String → Dict String → Result IntegrationError (Dict String)
default_settings urlsplit name settings =
    if name == "django-runtime"
    then default_runtime settings
    else if name == "otlp-export"
    then default_otlp urlsplit settings
    else ok settings

-- `_validate_config`
unfoldable pub validate_config :
    (String → SplitUrl) → IntegrationDefinition → Value → Result IntegrationError (Dict String)
validate_config urlsplit definition value = do
  d ← read_mapping value
  raise_if (ltb max_config_fields (length d)) limit_exceeded
  raise_if (not (all (λ k. member k definition.config_keys) (keys d))) schema_drift
  settings ← read_settings d
  default_settings urlsplit definition.name settings

-- The body of the loop of `parse_integrations`, with the names seen before.
unfoldable pub parse_integration :
    (String → SplitUrl) → List String → Value → Result IntegrationError IntegrationConfig
parse_integration urlsplit seen value = do
  raw ← read_mapping value
  raise_if (not (has_contract_keys raw)) schema_drift
  name ← read_string (get "name" raw)
  version ← read_string (get "version" raw)
  enabled ← read_boolean (get "enabled" raw)
  raise_if (member name seen) duplicate_integration
  definition ← resolve builtin_registry name version
  listed ← read_list (get "capabilities" raw)
  capabilities ← read_strings listed
  raise_if (not (is_distinct capabilities)) invalid_config
  raise_if (not (all (λ c. member c definition.capabilities) capabilities)) unsupported_capability
  config ← validate_config urlsplit definition (get "config" raw)
  ok (record {
    name = name;
    version = version;
    enabled = enabled;
    capabilities = capabilities;
    config = config;
  })

unfoldable pub parse_all :
    (String → SplitUrl)
    → List String
    → List Value
    → Result IntegrationError (List IntegrationConfig)
parse_all urlsplit seen [] = ok []
parse_all urlsplit seen (v ∷ vs) = parse_integration urlsplit seen v >>= λ c.
    parse_all urlsplit (c.name ∷ seen) vs >>= λ cs. ok (c ∷ cs)

-- `parse_integrations`
unfoldable pub parse_integrations :
    (String → SplitUrl) → Value → Result IntegrationError (List IntegrationConfig)
parse_integrations urlsplit nothing = ok []
parse_integrations urlsplit (list vs) =
    raise_if (ltb max_integrations (length (items vs))) limit_exceeded
    >> parse_all urlsplit [] (items vs)
parse_integrations urlsplit _ = err invalid_config
