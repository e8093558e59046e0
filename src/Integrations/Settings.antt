-- ===== src/Integrations/Settings.antt =====
-- What the settings of an integration satisfy once cli/djangoops/integrations.py has validated them.
use django_ops.Common.{
  ◌≤◌, ◌≡◌, ◌⊎◌, sym, ◌∙◌, subst, inl, inr, Bool, true, false, not, ◌||◌, some, [], ◌∷◌, String,
  ◌==◌, eq_iff, length, all, member, arith, ltb, Bool-cases, Option-cases, ok, ◌>>◌, raise_if,
  bind_ok, check_ok, ok_inj, eq_refl,
}
use django_ops.Common.Dict.{Dict, lookup, insert, lookup-insert}
use django_ops.Common.Text.{codes, occurs}
use django_ops.Config.Validators.{SplitUrl}
use django_ops.Integrations.Contract.{
  max_config_fields, max_config_value_chars, is_secret_key, is_safe_namespace, is_safe_health_path,
  IntegrationDefinition, resolve, builtin_registry, django_runtime, otlp_export, Value,
  invalid_config, secret_rejected, limit_exceeded, unsupported_version, schema_drift,
}
use django_ops.Integrations.Parser.{
  read_string, read_mapping, keys, read_settings, get_or, default_runtime, validate_endpoint,
  read_endpoint, default_otlp, default_settings, validate_config,
}

-- The settings of a django-runtime integration.
pub record IsRuntime (config : Dict String) : Type 0 where
  pub path : String
  pub label : String
  pub has_path : lookup "health_path" config ≡ some path
  pub has_label : lookup "metadata_label" config ≡ some label
  pub safe_path : is_safe_health_path (codes path) ≡ true
  pub no_parent : occurs (codes "..") (codes path) ≡ false
  pub safe_label : is_safe_namespace (codes label) ≡ true

-- The settings of an otlp-export integration: the endpoint is what a validated one was cut to.
pub record IsOtlp (urlsplit : String → SplitUrl) (config : Dict String) : Type 0 where
  pub given : String
  pub endpoint : String
  pub namespace : String
  pub has_endpoint : lookup "endpoint" config ≡ some endpoint
  pub has_namespace : lookup "service_namespace" config ≡ some namespace
  pub validated : validate_endpoint urlsplit given ≡ ok endpoint
  pub bounded : length (codes given) ≤ max_config_value_chars
  pub safe_namespace : is_safe_namespace (codes namespace) ≡ true

or_false : (a b : Bool) → (a || b) ≡ false → (a ≡ false) × (b ≡ false)
or_false a b h = ground arith

lookup-inserted : (k : String) (v : String) (d : Dict String) → lookup k (insert k v d) ≡ some v
lookup-inserted k v d = ground (arith, lookup-insert k k v d, eq_refl k)

default_runtime-IsRuntime :
    (settings config : Dict String) → default_runtime settings ≡ ok config → IsRuntime config
unfolding default_runtime
default_runtime-IsRuntime settings config h =
    let path = get_or "/healthz" "health_path" settings in
    let with_path = insert "health_path" path settings in
    let label = get_or "django" "metadata_label" with_path in
    let (safe, h1) =
      check_ok (not (is_safe_health_path (codes path)) || occurs (codes "..") (codes path))
        invalid_config h in
    let (labelled, h2) = check_ok (not (is_safe_namespace (codes label))) invalid_config h1 in
    let both =
      or_false (not (is_safe_health_path (codes path))) (occurs (codes "..") (codes path)) safe in
    subst IsRuntime (ok_inj h2) (record {
      path = path;
      label = label;
      has_path =
          lookup-insert "metadata_label" "health_path" label with_path
          ∙ lookup-inserted "health_path" path settings;
      has_label = lookup-inserted "metadata_label" label with_path;
      safe_path = ground (arith, both.0);
      no_parent = both.1;
      safe_label = ground (arith, labelled);
    })

-- The values of settings that were read are short.
abbrev IsShort : Dict String → Type 0
IsShort d = (k s : String) → lookup k d ≡ some s → length (codes s) ≤ max_config_value_chars

empty-IsShort : IsShort []
unfolding lookup
empty-IsShort k s h = cc

cons-IsShort :
    (key t : String) (d : Dict String)
    → length (codes t) ≤ max_config_value_chars
    → IsShort d
    → IsShort ((key, t) ∷ d)
unfolding lookup
cons-IsShort key t d short h k s found = elim (Bool-cases (key == k)) [
  | inl e ↦
      let same : t ≡ s = ground (arith, rw e at found) in
      subst (λ x. length (codes x) ≤ max_config_value_chars) same short
  | inr e ↦ h k s (rw e at found)
]

read_settings-IsShort :
    (d : Dict Value) (settings : Dict String) → read_settings d ≡ ok settings → IsShort settings
unfolding read_settings
read_settings-IsShort [] settings h k s found = subst IsShort (ok_inj h) empty-IsShort k s found
read_settings-IsShort ((key, v) ∷ d) settings h k s found =
    let (_, h1) = check_ok (is_secret_key key) secret_rejected h in
    let (t, _, h2) = bind_ok (read_string v) h1 in
    let (short, h3) = check_ok (ltb max_config_value_chars (length (codes t))) limit_exceeded h2 in
    let (rest, read, h4) = bind_ok (read_settings d) h3 in
    subst IsShort (ok_inj h4)
      (cons-IsShort key t rest (ground (arith, short)) (read_settings-IsShort d rest read)) k s
      found

read_endpoint-found :
    (urlsplit : String → SplitUrl) (settings : Dict String) (endpoint : String)
    → read_endpoint urlsplit settings ≡ ok endpoint
    → (given : String) × (lookup "endpoint" settings ≡ some given)
      × (validate_endpoint urlsplit given ≡ ok endpoint)
unfolding read_endpoint
read_endpoint-found urlsplit settings endpoint h =
    elim (Option-cases (lookup "endpoint" settings)) [
      | inl e ↦ absurd (cc (rw (e, read_endpoint) at h))
      | inr (given, e) ↦ (given, e, rw (e, read_endpoint) at h)
    ]

default_otlp-IsOtlp :
    (urlsplit : String → SplitUrl) (settings config : Dict String)
    → IsShort settings
    → default_otlp urlsplit settings ≡ ok config
    → IsOtlp urlsplit config
unfolding default_otlp
default_otlp-IsOtlp urlsplit settings config short h =
    let (endpoint, read, h1) = bind_ok (read_endpoint urlsplit settings) h in
    let with_endpoint = insert "endpoint" endpoint settings in
    let namespace = get_or "djangoops" "service_namespace" with_endpoint in
    let (safe, h2) = check_ok (not (is_safe_namespace (codes namespace))) invalid_config h1 in
    let (given, found, validated) = read_endpoint-found urlsplit settings endpoint read in
    subst (IsOtlp urlsplit) (ok_inj h2) (record {
      given = given;
      endpoint = endpoint;
      namespace = namespace;
      has_endpoint =
          lookup-insert "service_namespace" "endpoint" namespace with_endpoint
          ∙ lookup-inserted "endpoint" endpoint settings;
      has_namespace = lookup-inserted "service_namespace" namespace with_endpoint;
      validated = validated;
      bounded = short "endpoint" given found;
      safe_namespace = ground (arith, safe);
    })

-- The registry knows two integrations.
pub resolve_cases :
    (name version : String) (definition : IntegrationDefinition)
    → resolve builtin_registry name version ≡ ok definition
    → ((name ≡ "django-runtime") × (definition ≡ django_runtime))
      ⊎ ((name ≡ "otlp-export") × (definition ≡ otlp_export))
unfolding resolve lookup
resolve_cases name version definition h = elim (Bool-cases ("django-runtime" == name)) [
  | inl e ↦
      let known : (raise_if (not (member version django_runtime.versions)) unsupported_version
            >> ok django_runtime)
          ≡ ok definition =
        rw (e, resolve, lookup) at h in
      inl (
        sym ((eq_iff "django-runtime" name).0 e),
        sym (
            ok_inj
              (check_ok (not (member version django_runtime.versions)) unsupported_version
                known).1),
      )
  | inr n ↦ elim (Bool-cases ("otlp-export" == name)) [
    | inl e ↦
        let known : (raise_if (not (member version otlp_export.versions)) unsupported_version
              >> ok otlp_export)
            ≡ ok definition =
          rw (n, e, resolve, lookup) at h in
        inr (
          sym ((eq_iff "otlp-export" name).0 e),
          sym (
              ok_inj
                (check_ok (not (member version otlp_export.versions)) unsupported_version known).1),
        )
    | inr m ↦ absurd (cc (rw (n, m, resolve, lookup) at h))
  ]
]

-- The settings of an integration, by its name.
abbrev pub Configured : (String → SplitUrl) → String → Dict String → Type 0
Configured urlsplit name config =
    ((name ≡ "django-runtime") × IsRuntime config)
    ⊎ ((name ≡ "otlp-export") × IsOtlp urlsplit config)

-- Validated settings of an integration that the registry knows.
pub validate_config-Configured :
    (urlsplit : String → SplitUrl) (name version : String) (definition : IntegrationDefinition)
    (value : Value) (config : Dict String)
    → resolve builtin_registry name version ≡ ok definition
    → validate_config urlsplit definition value ≡ ok config
    → Configured urlsplit name config
unfolding validate_config default_settings
validate_config-Configured urlsplit name version definition value config known h =
    let (d, _, h1) = bind_ok (read_mapping value) h in
    let (_, h2) = check_ok (ltb max_config_fields (length d)) limit_exceeded h1 in
    let (_, h3) =
      check_ok (not (all (λ k. member k definition.config_keys) (keys d))) schema_drift h2 in
    let (settings, read, h4) = bind_ok (read_settings d) h3 in
    elim (resolve_cases name version definition known) [
      | inl (e, q) ↦
          let runtime : default_runtime settings ≡ ok config =
            subst
              (λ (x : IntegrationDefinition). default_settings urlsplit x.name settings ≡ ok config)
              q h4 in
          inl (e, default_runtime-IsRuntime settings config runtime)
      | inr (e, q) ↦
          let otlp : default_otlp urlsplit settings ≡ ok config =
            subst
              (λ (x : IntegrationDefinition). default_settings urlsplit x.name settings ≡ ok config)
              q h4 in
          inr (
            e,
            default_otlp-IsOtlp urlsplit settings config (read_settings-IsShort d settings read)
                otlp,
          )
    ]
