-- ===== src/Config/Accepted.antt =====
-- What each validator of cli/djangoops/config.py makes sure of, and the configurations that all of them accept.
use django_ops.Common.{
  ℕ, ◌≤◌, ◌≡◌, sym, subst, Bool, true, false, not, ◌||◌, Option, none, some, String, ◌==◌, all, any,
  eqb, leb, ltb, length, arith, ok, check_ok, ok_inj,
}
use django_ops.Common.Text.{codes, occurs, split, is_alnum, ends_with_char}
use django_ops.Config.Validators.{
  bad_email, bad_bucket, bad_prefix, bad_region, bad_hostname, bad_schedule, bad_endpoint, SplitUrl,
  given, rstrip_char, words, join_words, matches_project, matches_module, matches_host_label,
  matches_email_parts, matches_bucket, matches_cron, matches_prefix, validate_project_name,
  validate_django_module, validate_hostname, validate_email, validate_storage_endpoint,
  validate_region, validate_bucket, validate_backup_schedule, validate_backup_prefix,
}
use django_ops.Config.Schema.{DjangoOpsConfig}

-- A name of a bucket, which cannot leave its place in a path.
abbrev pub IsBucket : String → Type 0
IsBucket s = (matches_bucket (codes s) ≡ true) × (occurs (codes "..") (codes s) ≡ false)

-- A lower-case host of dotted labels.
pub record IsHost (lower : String → String) (host : String) : Type 0 where
  pub written : String
  pub lowered : host ≡ lower written
  pub short : length (codes written) ≤ 253
  pub dotted : any (eqb b'.') (codes written) ≡ true
  pub labels : all matches_host_label (split b'.' (codes written)) ≡ true

-- A storage address without credentials, query and fragment.
pub record IsEndpoint (urlsplit : String → SplitUrl) (endpoint : String) : Type 0 where
  pub written : String
  pub stripped : endpoint ≡ rstrip_char b'/' written
  pub scheme : ((urlsplit written).scheme == "http" || (urlsplit written).scheme == "https") ≡ true
  pub hostname : given (urlsplit written).hostname ≡ true
  pub no_username : given (urlsplit written).username ≡ false
  pub no_password : given (urlsplit written).password ≡ false
  pub no_query : ((urlsplit written).query == "") ≡ true
  pub no_fragment : ((urlsplit written).fragment == "") ≡ true

-- Five fields of cron characters.
pub record IsSchedule (schedule : String) : Type 0 where
  pub written : String
  pub joined : schedule ≡ join_words (words written)
  pub fields : length (words written) ≡ 5
  pub characters : matches_cron (codes written) ≡ true

pub record IsAccepted (is_word : ℕ → Bool) (lower : String → String) (urlsplit : String → SplitUrl)
    (c : DjangoOpsConfig) : Type 0 where
  pub project_name : matches_project (codes c.project_name) ≡ true
  pub django_module : matches_module is_word (codes c.django_module) ≡ true
  pub hostname : IsHost lower c.hostname
  pub acme_email : matches_email_parts (split b'@' (codes c.acme_email)) ≡ true
  pub endpoint_url : IsEndpoint urlsplit c.endpoint_url
  pub region : (s : String) → c.region ≡ some s → length (codes s) ≤ 63
  pub static_bucket : IsBucket c.static_bucket
  pub media_bucket : IsBucket c.media_bucket
  pub schedule : IsSchedule c.schedule
  pub bucket : IsBucket c.bucket
  pub prefix :
      (matches_prefix (codes c.prefix) ≡ true) × (occurs (codes "..") (codes c.prefix) ≡ false)

pub validate_project_name-ok :
    (s r : String) → validate_project_name s ≡ ok r → matches_project (codes r) ≡ true
unfolding validate_project_name
validate_project_name-ok s r h =
    let (passed, same) = check_ok (not (matches_project (codes s))) _ h in
    subst (λ x. matches_project (codes x) ≡ true) (ok_inj same) (ground arith)

pub validate_django_module-ok :
    (is_word : ℕ → Bool) (s r : String)
    → validate_django_module is_word s ≡ ok r
    → matches_module is_word (codes r) ≡ true
unfolding validate_django_module
validate_django_module-ok is_word s r h =
    let (passed, same) = check_ok (not (matches_module is_word (codes s))) _ h in
    subst (λ x. matches_module is_word (codes x) ≡ true) (ok_inj same) (ground arith)

pub validate_email-ok :
    (s r : String) → validate_email s ≡ ok r → matches_email_parts (split b'@' (codes r)) ≡ true
unfolding validate_email
validate_email-ok s r h =
    let (passed, same) =
      check_ok (ltb 254 (length (codes s)) || not (matches_email_parts (split b'@' (codes s))))
        bad_email h in
    subst (λ x. matches_email_parts (split b'@' (codes x)) ≡ true) (ok_inj same) (ground arith)

pub validate_bucket-ok : (s r : String) → validate_bucket s ≡ ok r → IsBucket r
unfolding validate_bucket
validate_bucket-ok s r h =
    let (passed, same) =
      check_ok
        (not (matches_bucket (codes s))
          || occurs (codes "..") (codes s)
          || occurs (codes ".-") (codes s)
          || occurs (codes "-.") (codes s))
        bad_bucket h in
    subst IsBucket (ok_inj same) (ground arith, ground arith)

pub validate_backup_prefix-ok :
    (s r : String)
    → validate_backup_prefix s ≡ ok r
    → (matches_prefix (codes r) ≡ true) × (occurs (codes "..") (codes r) ≡ false)
unfolding validate_backup_prefix
validate_backup_prefix-ok s r h =
    let (passed, same) =
      check_ok
        (ltb 128 (length (codes s))
          || ends_with_char b'/' (codes s)
          || occurs (codes "..") (codes s)
          || not (matches_prefix (codes s)))
        bad_prefix h in
    subst (λ x. (matches_prefix (codes x) ≡ true) × (occurs (codes "..") (codes x) ≡ false))
      (ok_inj same) (ground arith, ground arith)

pub validate_region-ok :
    (o r : Option String) (s : String)
    → validate_region o ≡ ok r
    → r ≡ some s
    → length (codes s) ≤ 63
unfolding validate_region
validate_region-ok none r s h e = cc
validate_region-ok (some v) r s h e =
    let (passed, same) =
      check_ok
        (v == ""
          || ltb 63 (length (codes v))
          || not (all (λ c. is_alnum c || eqb c b'-') (codes v)))
        bad_region h in
    ground arith

pub validate_hostname-ok :
    (lower : String → String) (s r : String) → validate_hostname lower s ≡ ok r → IsHost lower r
unfolding validate_hostname
validate_hostname-ok lower s r h =
    let (passed, same) =
      check_ok
        (ltb 253 (length (codes (rstrip_char b'.' s)))
          || not (any (eqb b'.') (codes (rstrip_char b'.' s)))
          || not (all matches_host_label (split b'.' (codes (rstrip_char b'.' s)))))
        bad_hostname h in
    record {
      written = rstrip_char b'.' s;
      lowered = sym (ok_inj same);
      short = ground arith;
      dotted = ground arith;
      labels = ground arith;
    }

pub validate_storage_endpoint-ok :
    (urlsplit : String → SplitUrl) (s r : String)
    → validate_storage_endpoint urlsplit s ≡ ok r
    → IsEndpoint urlsplit r
unfolding validate_storage_endpoint
validate_storage_endpoint-ok urlsplit s r h =
    let (passed, rest) =
      check_ok
        (not ((urlsplit s).scheme == "http" || (urlsplit s).scheme == "https")
          || not (given (urlsplit s).hostname)
          || given (urlsplit s).username
          || given (urlsplit s).password
          || not ((urlsplit s).query == "")
          || not ((urlsplit s).fragment == ""))
        bad_endpoint h in
    let (bare, same) =
      check_ok (not ((urlsplit s).path == "" || (urlsplit s).path == "/")) bad_endpoint rest in
    record {
      written = s;
      stripped = sym (ok_inj same);
      scheme = ground arith;
      hostname = ground arith;
      no_username = ground arith;
      no_password = ground arith;
      no_query = ground arith;
      no_fragment = ground arith;
    }

pub validate_backup_schedule-ok : (s r : String) → validate_backup_schedule s ≡ ok r → IsSchedule r
unfolding validate_backup_schedule
validate_backup_schedule-ok s r h =
    let (passed, same) =
      check_ok
        (not (eqb (length (words s)) 5)
          || not (matches_cron (codes s))
          || not (all (λ w. leb (length (codes w)) 32) (words s)))
        bad_schedule h in
    record {
      written = s;
      joined = sym (ok_inj same);
      fields = ground arith;
      characters = ground arith;
    }
