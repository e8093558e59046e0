-- ===== src/Kubernetes/Validation.antt =====
-- The validators of controlplane/kubernetes.py. `urlparse`, the JSON encoder and the digest belong to
-- Python's library; the functions that use them take them as arguments.
use django_ops.Common.{
  ℕ, ◌-◌, Bool, false, not, ◌&&◌, ◌||◌, Option, none, some, List, [], ◌∷◌, String, ◌==◌, length,
  take, drop, all, any, member, ltb, leb, eqb, if◌then◌else◌, Result, ok, ◌>>◌, raise_if,
}
use django_ops.Common.Dict.{Dict}
use django_ops.Common.Text.{Text, codes, is_lower, is_digit, is_alnum, one_of, eq_text, occurs}
use django_ops.Common.Redact.{is_space, skip_spaces}
use Prim.Native.Char.{code}
use django_ops.Kubernetes.State.{
  KubernetesError, invalid_name, invalid_api_server, invalid_credential_ref, mutable_image,
  unsupported_values, secret_values, TargetValidation,
}

-- a text without what its end has of the characters
unfoldable pub rstrip_where : (ℕ → Bool) → String → String
rstrip_where p String.[] = String.[]
rstrip_where p (String.◌∷◌ c s) = elim (rstrip_where p s) [
  | String.[] ↦ if p (code c) then String.[] else String.◌∷◌ c String.[]
  | String.◌∷◌ d r ↦ String.◌∷◌ c (String.◌∷◌ d r)
]

-- `value.strip()`
unfoldable pub strip : String → String
strip s = rstrip_where is_space (skip_spaces s)

abbrev is_label_char : ℕ → Bool
is_label_char c = is_lower c || is_digit c

abbrev last_is_label : Text → Bool
last_is_label [] = false
last_is_label (c ∷ []) = is_label_char c
last_is_label (c ∷ d ∷ s) = last_is_label (d ∷ s)

-- `_DNS_LABEL`: `^[a-z0-9](?:[-a-z0-9]*[a-z0-9])?$`
unfoldable pub matches_dns_label : Text → Bool
matches_dns_label [] = false
matches_dns_label (c ∷ s) =
    is_label_char c && all (λ d. is_label_char d || eqb d b'-') s && last_is_label (c ∷ s)

-- `_CREDENTIAL_REF`: `^[A-Za-z0-9][A-Za-z0-9:/_.-]{2,127}$`
unfoldable pub matches_credential_ref : Text → Bool
matches_credential_ref [] = false
matches_credential_ref (c ∷ s) =
    is_alnum c
    && leb 2 (length s)
    && leb (length s) 127
    && all (λ d. is_alnum d || one_of (codes ":/_.-") d) s

-- `_DIGEST_IMAGE`: `^.+@sha256:[0-9a-f]{64}$`; the end of a match has 72 characters.
unfoldable pub matches_digest_image : Text → Bool
matches_digest_image s =
    let front = length s - 72 in
    ltb 72 (length s)
    && all (λ c. not (eqb c 10)) (take front s)
    && eq_text (take 8 (drop front s)) (codes "@sha256:")
    && all (λ c. is_digit c || (leb b'a' c && leb c b'f')) (drop 8 (drop front s))

-- `_validate_name`; `release` selects the limit.
unfoldable pub validate_name : Bool → String → Result KubernetesError String
validate_name release value = do
  let name = strip value
  let limit = if release then 53 else 63
  raise_if (ltb limit (length (codes name)) || not (matches_dns_label (codes name))) invalid_name
  ok name

-- The parts of `urlparse(value)` that are read; `none` where Python has `None`.
pub record ParsedUrl : Type 0 where
  pub scheme : String
  pub hostname : Option String
  pub username : Option String
  pub password : Option String

-- a text that is there and is not empty
abbrev pub is_truthy : Option String → Bool
is_truthy none = false
is_truthy (some s) = not (s == "")

-- `_validate_api_server`
unfoldable pub validate_api_server : (String → ParsedUrl) → String → Result KubernetesError String
validate_api_server urlparse value = do
  let parsed = urlparse value
  raise_if
      (not (parsed.scheme == "https")
        || not (is_truthy parsed.hostname)
        || is_truthy parsed.username
        || is_truthy parsed.password)
      invalid_api_server
  ok (rstrip_where (eqb b'/') value)

-- `_validate_credential_ref`
unfoldable pub validate_credential_ref : String → Result KubernetesError String
validate_credential_ref value = do
  raise_if (not (matches_credential_ref (codes value))) invalid_credential_ref
  ok value

-- `_validate_image`
unfoldable pub validate_image : String → Result KubernetesError String
validate_image value = do
  raise_if (not (matches_digest_image (codes value))) mutable_image
  ok value

abbrev pub allowed_values : List String
allowed_values =
    "webReplicas" ∷ "celeryWorker" ∷ "celeryBeat" ∷ "ingress" ∷ "resources" ∷ "health"
    ∷ "environmentSecretName" ∷ "migrationCompatibility" ∷ []

abbrev pub secret_tokens : List Text
secret_tokens =
    codes "\"password\"" ∷ codes "\"token\"" ∷ codes "\"secretkey\"" ∷ codes "\"access_key\"" ∷ []

-- `sanitize_values`; `dumps` encodes with sorted keys, `lower` is `str.lower` of the encoding, and
-- decoding gives back the values.
unfoldable pub sanitize_values {ℓ} :
    {V : Type ℓ} → (Dict V → String) → (String → String) → Dict V → Result KubernetesError (Dict V)
sanitize_values dumps lower values = do
  raise_if (not (all (λ e. member e.0 allowed_values) values)) unsupported_values
  let lowered = codes (lower (dumps values))
  raise_if (any (λ t. occurs t lowered) secret_tokens) secret_values
  ok values

-- `TargetValidation.valid`
unfoldable pub is_valid : TargetValidation → Bool
is_valid v = v.reachable && v.namespace_access && v.helm_available
