-- ===== src/Graphql/InstalledValues.antt =====
-- The functions that the site installs when it starts, around those of controlplane/graphql/schema.py and
-- controlplane/kubernetes.py: `release_values` of controlplane/observability.py, `sanitize_values` of
-- controlplane/kubernetes_observability.py, and what they call.
use django_ops.Common.{
  Bool, false, not, ◌&&◌, ◌||◌, Option, none, some, List, [], ◌∷◌, ◌++◌, String, ◌==◌, all, member,
  leb, length, if◌then◌else◌, Result, ok, err, ◌>>=◌, ◌>>◌, raise_if,
}
use django_ops.Common.Dict.{Dict, lookup, erase}
use django_ops.Common.Redact.{truncate}
use django_ops.Common.Text.{Text, codes, is_alnum, one_of}
use django_ops.Config.Validators.{SplitUrl, rstrip_char}
use django_ops.Kubernetes.State.{KubernetesError, bad_endpoint, bad_observability}
use django_ops.Kubernetes.Validation.{strip, sanitize_values}
use django_ops.Graphql.ReleaseValues.{Json, release_values}

-- A part of a URL that is there and not empty.
abbrev is_filled : Option String → Bool
is_filled none = false
is_filled (some s) = not (s == "")

-- `validate_otlp_endpoint` of controlplane/telemetry.py
unfoldable pub validate_otlp_endpoint : (String → SplitUrl) → String → Result KubernetesError String
validate_otlp_endpoint urlsplit value =
    let value = strip value in
    let parsed = urlsplit value in
    if value == ""
    then ok ""
    else raise_if
        (not (parsed.scheme == "http" || parsed.scheme == "https")
          || not (is_filled parsed.hostname)
          || is_filled parsed.username
          || is_filled parsed.password
          || not (parsed.query == "")
          || not (parsed.fragment == ""))
        bad_endpoint
      >> ok (rstrip_char b'/' value)

-- `_NAMESPACE`
unfoldable pub matches_namespace : Text → Bool
matches_namespace [] = false
matches_namespace (c ∷ s) =
    is_alnum c && leb (length s) 62 && all (λ d. is_alnum d || one_of (codes "_.-") d) s

abbrev pub observability_keys : List String
observability_keys = "enabled" ∷ "otlpEndpoint" ∷ "serviceNamespace" ∷ "correlationId" ∷ []

module _ {ℓ} {J : Type ℓ} (json : Json J) (urlsplit : String → SplitUrl) where
  -- `str(d.get(key, default))`
  unfoldable pub text_or : String → String → Dict J → String
  text_or default key d = elim (lookup key d) [ none ↦ default | some v ↦ json.str v ]

  -- `raw.get(key)` is true
  unfoldable pub is_on : String → Dict J → Bool
  is_on key d = elim (lookup key d) [ none ↦ false | some v ↦ json.is_truthy v ]

  -- The installed `release_values`; `observability` is no key of what `_release_values` builds.
  unfoldable pub installed_release_values : Dict J → Result KubernetesError (Dict J)
  installed_release_values raw =
      if is_on "observabilityEnabled" raw
      then (do
        endpoint ← validate_otlp_endpoint urlsplit (text_or "" "otlpEndpoint" raw)
        ok (
            release_values json raw
            ++ (
              "observability",
              json.object (
                  ("enabled", json.true_value)
                  ∷ ("otlpEndpoint", json.text endpoint)
                  ∷ (
                    "serviceNamespace",
                    json.text (truncate 63 (text_or "djangoops" "otelServiceNamespace" raw)),
                  )
                  ∷ []),
            )
              ∷ []))
      else ok (release_values json raw)

  -- `value.get("enabled", False)`, a boolean
  unfoldable pub enabled_of : Dict J → Result KubernetesError Bool
  enabled_of d = elim (lookup "enabled" d) [
    | none ↦ ok false
    | some v ↦ elim (json.as_boolean v) [ none ↦ err bad_observability | some b ↦ ok b ]
  ]

  -- `sanitize_observability`, for a dict that is enabled
  unfoldable pub sanitize_enabled : Dict J → Result KubernetesError (Dict J)
  sanitize_enabled d = do
    endpoint ← validate_otlp_endpoint urlsplit (text_or "" "otlpEndpoint" d)
    raise_if (endpoint == "") bad_observability
    let namespace = text_or "djangoops" "serviceNamespace" d
    raise_if (not (matches_namespace (codes namespace))) bad_observability
    ok (
        ("enabled", json.true_value)
        ∷ ("otlpEndpoint", json.text endpoint)
        ∷ ("serviceNamespace", json.text namespace)
        ∷ ("correlationId", json.text "")
        ∷ [])

  -- ... for a dict
  unfoldable pub sanitize_entries : Dict J → Result KubernetesError (Dict J)
  sanitize_entries [] = ok []
  sanitize_entries (first ∷ rest) =
      raise_if (not (all (λ e. member e.0 observability_keys) (first ∷ rest))) bad_observability
      >> (enabled_of (first ∷ rest) >>= λ enabled.
          if enabled
          then sanitize_enabled (first ∷ rest)
          else ok (("enabled", json.false_value) ∷ []))

  -- `sanitize_observability`
  unfoldable pub sanitize_observability : Option J → Result KubernetesError (Dict J)
  sanitize_observability none = ok []
  sanitize_observability (some v) =
      if json.is_none v
      then ok []
      else elim (json.as_object v) [ none ↦ err bad_observability | some d ↦ sanitize_entries d ]

  -- `cleaned["observability"] = safe_observability`, where it is not empty
  unfoldable pub with_observability : Dict J → Dict J → Dict J
  with_observability cleaned [] = cleaned
  with_observability cleaned (first ∷ rest) =
      cleaned ++ ("observability", json.object (first ∷ rest)) ∷ []

  -- The installed `sanitize_values`
  unfoldable pub installed_sanitize :
      (Dict J → String) → (String → String) → Dict J → Result KubernetesError (Dict J)
  installed_sanitize dumps lower values = do
    cleaned ← sanitize_values dumps lower (erase "observability" values)
    safe ← sanitize_observability (lookup "observability" values)
    ok (with_observability cleaned safe)
