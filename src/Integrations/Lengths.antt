-- ===== src/Integrations/Lengths.antt =====
-- Accepted settings fit into a result (cli/djangoops/integrations.py).
use Prim.Native.Char.{Char, code}
use django_ops.Common.{
  ℕ, ◌≤◌, ◌≡◌, ◌⊎◌, refl, subst, inl, inr, true, false, not, ◌||◌, [], ◌∷◌, String, ◌==◌, length,
  arith, ltb, eqb, is_some, Bool-cases, ok, check_ok, ok_inj,
}
use django_ops.Common.Dict.{Dict}
use django_ops.Common.Redact.{after_word, after_words, fold_case}
use django_ops.Common.Text.{codes}
use django_ops.Config.Validators.{SplitUrl, rstrip_char}
use django_ops.Integrations.Contract.{
  is_secret_key, is_safe_namespace, is_safe_health_path, max_config_value_chars, secret_rejected,
}
use django_ops.Integrations.Parser.{validate_endpoint, is_filled}
use django_ops.Integrations.Evaluation.{max_result_value_chars, check_result}

-- a text that fits into a result
abbrev pub Fits : String → Type 0
Fits s = length (codes s) ≤ max_result_value_chars

-- A text is empty or has a first character.
String-cases : (s : String) → (s ≡ String.[]) ⊎ ((c : Char) × (r : String) × (s ≡ String.◌∷◌ c r))
String-cases String.[] = inl refl
String-cases (String.◌∷◌ c r) = inr (c, r, refl)

rstrip_char-le : (c : ℕ) (s : String) → length (codes (rstrip_char c s)) ≤ length (codes s)
unfolding rstrip_char
rstrip_char-le c String.[] = omega arith
rstrip_char-le c (String.◌∷◌ x s) = elim (String-cases (rstrip_char c s)) [
  | inl e ↦ elim (Bool-cases (eqb (code x) c)) [
    | inl t ↦ rw (e, rstrip_char, t) (omega arith)
    | inr f ↦ rw (e, rstrip_char, f) (omega arith)
  ]
  | inr (y, r, e) ↦
      let shorter : length (codes (String.◌∷◌ y r)) ≤ length (codes s) =
        rw e at (rstrip_char-le c s) in
      rw (e, rstrip_char) (omega (arith, shorter))
]

pub endpoint-Fits :
    (urlsplit : String → SplitUrl) (given endpoint : String)
    → length (codes given) ≤ max_config_value_chars
    → validate_endpoint urlsplit given ≡ ok endpoint
    → Fits endpoint
unfolding validate_endpoint
endpoint-Fits urlsplit given endpoint le h =
    let parsed = urlsplit given in
    let (_, h1) =
      check_ok
        (not (parsed.scheme == "http" || parsed.scheme == "https")
          || not (is_filled parsed.hostname)
          || is_some parsed.username
          || is_some parsed.password
          || not (parsed.query == "")
          || not (parsed.fragment == "")
          || not (parsed.path == "" || parsed.path == "/"))
        secret_rejected h in
    subst Fits (ok_inj h1) (omega (arith, rstrip_char-le b'/' given, le))

pub namespace-Fits : (s : String) → is_safe_namespace (codes s) ≡ true → Fits s
unfolding is_safe_namespace
namespace-Fits String.[] h = cc
namespace-Fits (String.◌∷◌ c s) h = ground arith

pub path-Fits : (s : String) → is_safe_health_path (codes s) ≡ true → Fits s
unfolding is_safe_health_path
path-Fits String.[] h = cc
path-Fits (String.◌∷◌ c s) h = ground arith

pub none_checked : check_result [] ≡ ok []
unfolding check_result
none_checked = refl

-- One more entry of a result.
pub check_result-cons :
    (key item : String) (d : Dict String)
    → is_secret_key key ≡ false
    → ltb 64 (length (codes key)) ≡ false
    → Fits item
    → check_result d ≡ ok d
    → check_result ((key, item) ∷ d) ≡ ok ((key, item) ∷ d)
unfolding check_result
check_result-cons key item d safe short fits rest =
    let fits' : ltb max_result_value_chars (length (codes item)) ≡ false = ground arith in
    rw (safe, short, fits', rest) refl

pub safe_keys :
    (is_secret_key "kind" ≡ false)
    × (is_secret_key "health_path" ≡ false)
    × (is_secret_key "metadata_label" ≡ false)
    × (is_secret_key "endpoint" ≡ false)
    × (is_secret_key "service_namespace" ≡ false)
    × (is_secret_key "project" ≡ false)
unfolding is_secret_key after_words after_word fold_case
safe_keys = (refl, refl, refl, refl, refl, refl)
