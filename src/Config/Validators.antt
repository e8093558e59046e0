-- ===== src/Config/Validators.antt =====
-- cli/djangoops/config.py: the validators of the fields. `urlsplit`, `str.lower` and the class `\w` of
-- Unicode characters belong to Python; the functions that use them take them as arguments.
use Prim.Native.Char.{code}
use Prim.Native.String.{◌++◌}
use django_ops.Common.{
  ℕ, ◌-◌, Bool, false, not, ◌&&◌, ◌||◌, Option, none, some, List, [], ◌∷◌, String, ◌==◌, length,
  take, drop, keep, all, any, ltb, leb, eqb, if◌then◌else◌, Result, ok, ◌>>◌, raise_if,
}
use django_ops.Common.Redact.{is_space}
use django_ops.Common.Text.{
  Text, codes, is_alpha, is_lower, is_digit, is_alnum, one_of, occurs, split, ends_with_char,
}

-- The `ValueError`s of this file, by the field that is refused, and those of the document's shape.
pub data ConfigError : Type 0 where
  bad_project bad_module bad_hostname bad_email bad_endpoint bad_region bad_bucket bad_schedule :
      ConfigError
  bad_prefix not_mapping no_schema_version old_schema upgrade_needed unsupported_schema :
      ConfigError
  wrong_keys not_boolean not_string not_upgradable : ConfigError

abbrev last_passes : (ℕ → Bool) → Text → Bool
last_passes p [] = false
last_passes p (c ∷ []) = p c
last_passes p (c ∷ d ∷ s) = last_passes p (d ∷ s)

-- `_PROJECT_RE`: `^[A-Za-z][A-Za-z0-9_-]{0,62}$`
unfoldable pub matches_project : Text → Bool
matches_project [] = false
matches_project (c ∷ s) =
    is_alpha c && leb (length s) 62 && all (λ d. is_alnum d || one_of (codes "_-") d) s

-- `[A-Za-z_]\w*`
unfoldable pub matches_identifier : (ℕ → Bool) → Text → Bool
matches_identifier is_word [] = false
matches_identifier is_word (c ∷ s) = (is_alpha c || eqb c b'_') && all is_word s

-- `_MODULE_RE`: identifiers with dots between them, which `\w` does not match
unfoldable pub matches_module : (ℕ → Bool) → Text → Bool
matches_module is_word s = all (matches_identifier is_word) (split b'.' s)

-- `_HOST_LABEL_RE`: `^[A-Za-z0-9](?:[A-Za-z0-9-]{0,61}[A-Za-z0-9])?$`
unfoldable pub matches_host_label : Text → Bool
matches_host_label [] = false
matches_host_label (c ∷ s) =
    is_alnum c
    && leb (length s) 62
    && all (λ d. is_alnum d || eqb d b'-') s
    && last_passes is_alnum (c ∷ s)

-- What stands behind the `@`: a dot that is neither first nor last
unfoldable pub matches_domain : Text → Bool
matches_domain s = any (eqb b'.') (take (length s - 2) (drop 1 s))

-- `_EMAIL_RE`: `^[^@\s]+@[^@\s]+\.[^@\s]+$`; the parts between `@`s have none
unfoldable pub matches_email_parts : List Text → Bool
matches_email_parts (user ∷ domain ∷ []) =
    ltb 0 (length user)
    && not (any is_space user)
    && not (any is_space domain)
    && matches_domain domain
matches_email_parts _ = false

-- `_BUCKET_RE`: `^[a-z0-9](?:[a-z0-9.-]{1,61}[a-z0-9])$`
unfoldable pub matches_bucket : Text → Bool
matches_bucket [] = false
matches_bucket (c ∷ s) =
    (is_lower c || is_digit c)
    && leb 2 (length s)
    && leb (length s) 62
    && all (λ d. is_lower d || is_digit d || one_of (codes ".-") d) s
    && last_passes (λ d. is_lower d || is_digit d) (c ∷ s)

unfoldable pub validate_project_name : String → Result ConfigError String
validate_project_name value = do
  raise_if (not (matches_project (codes value))) bad_project
  ok value

unfoldable pub validate_django_module : (ℕ → Bool) → String → Result ConfigError String
validate_django_module is_word value = do
  raise_if (not (matches_module is_word (codes value))) bad_module
  ok value

-- `value.rstrip(c)`, for one character
unfoldable pub rstrip_char : ℕ → String → String
rstrip_char c String.[] = String.[]
rstrip_char c (String.◌∷◌ x s) = elim (rstrip_char c s) [
  | String.[] ↦ if eqb (code x) c then String.[] else String.◌∷◌ x String.[]
  | String.◌∷◌ y r ↦ String.◌∷◌ x (String.◌∷◌ y r)
]

unfoldable pub validate_hostname : (String → String) → String → Result ConfigError String
validate_hostname lower value = do
  let candidate = rstrip_char b'.' value
  raise_if
      (ltb 253 (length (codes candidate))
        || not (any (eqb b'.') (codes candidate))
        || not (all matches_host_label (split b'.' (codes candidate))))
      bad_hostname
  ok (lower candidate)

unfoldable pub validate_email : String → Result ConfigError String
validate_email value = do
  raise_if (ltb 254 (length (codes value)) || not (matches_email_parts (split b'@' (codes value))))
      bad_email
  ok value

-- The parts of `urlsplit(value)` that are read; `none` where Python has `None`.
pub record SplitUrl : Type 0 where
  pub scheme : String
  pub hostname : Option String
  pub username : Option String
  pub password : Option String
  pub path : String
  pub query : String
  pub fragment : String

abbrev pub given : Option String → Bool
given none = false
given (some s) = not (s == "")

unfoldable pub validate_storage_endpoint : (String → SplitUrl) → String → Result ConfigError String
validate_storage_endpoint urlsplit value = do
  let parsed = urlsplit value
  raise_if
      (not (parsed.scheme == "http" || parsed.scheme == "https")
        || not (given parsed.hostname)
        || given parsed.username
        || given parsed.password
        || not (parsed.query == "")
        || not (parsed.fragment == ""))
      bad_endpoint
  raise_if (not (parsed.path == "" || parsed.path == "/")) bad_endpoint
  ok (rstrip_char b'/' value)

unfoldable pub validate_region : Option String → Result ConfigError (Option String)
validate_region none = ok none
validate_region (some value) = do
  raise_if
      (value == ""
        || ltb 63 (length (codes value))
        || not (all (λ c. is_alnum c || eqb c b'-') (codes value)))
      bad_region
  ok (some value)

unfoldable pub validate_bucket : String → Result ConfigError String
validate_bucket value = do
  raise_if
      (not (matches_bucket (codes value))
        || occurs (codes "..") (codes value)
        || occurs (codes ".-") (codes value)
        || occurs (codes "-.") (codes value))
      bad_bucket
  ok value

-- `value.split()`: the first word, which may be empty, and the others
unfoldable pub words_go : String → String × List String
words_go String.[] = ("", [])
words_go (String.◌∷◌ c s) =
    let (word, rest) = words_go s in
    if is_space (code c) then ("", word ∷ rest) else (String.◌∷◌ c word, rest)

unfoldable pub words : String → List String
words s = keep (λ w. not (w == "")) ((words_go s).0 ∷ (words_go s).1)

-- `" ".join(fields)`
unfoldable pub join_words : List String → String
join_words [] = ""
join_words (w ∷ []) = w
join_words (w ∷ v ∷ ws) = w ++ " " ++ join_words (v ∷ ws)

-- `_CRON_RE`: `^[0-9*/?, -]+$`
unfoldable pub matches_cron : Text → Bool
matches_cron s = ltb 0 (length s) && all (λ c. is_digit c || one_of (codes "*/?, -") c) s

unfoldable pub validate_backup_schedule : String → Result ConfigError String
validate_backup_schedule value = do
  raise_if
      (not (eqb (length (words value)) 5)
        || not (matches_cron (codes value))
        || not (all (λ w. leb (length (codes w)) 32) (words value)))
      bad_schedule
  ok (join_words (words value))

-- `[A-Za-z0-9][A-Za-z0-9/_-]*`
unfoldable pub matches_prefix : Text → Bool
matches_prefix [] = false
matches_prefix (c ∷ s) = is_alnum c && all (λ d. is_alnum d || one_of (codes "/_-") d) s

unfoldable pub validate_backup_prefix : String → Result ConfigError String
validate_backup_prefix value = do
  raise_if
      (ltb 128 (length (codes value))
        || ends_with_char b'/' (codes value)
        || occurs (codes "..") (codes value)
        || not (matches_prefix (codes value)))
      bad_prefix
  ok value
