-- ===== src/Deploy/Targets.antt =====
-- cli/djangoops/deploy.py: the target of a deployment and its validation, the plan's paths, and the names
-- that stay out of the archive. Whether a local file exists is an argument.
use Prim.Native.String.{◌++◌}
use django_ops.Common.{
  ℕ, Bool, true, false, not, ◌&&◌, ◌||◌, Option, none, some, List, [], ◌∷◌, String, ◌==◌, length,
  take, drop, all, any, member, ltb, leb, eqb, if◌then◌else◌, Result, ok, ◌>>◌, raise_if,
}
use django_ops.Common.Text.{
  Text, codes, is_alpha, is_alnum, is_digit, one_of, eq_text, occurs, starts_with, path_parts,
}

abbrev last_is_alnum : Text → Bool
last_is_alnum [] = false
last_is_alnum (c ∷ []) = is_alnum c
last_is_alnum (c ∷ d ∷ s) = last_is_alnum (d ∷ s)

-- `_HOST_RE`: `^[A-Za-z0-9](?:[A-Za-z0-9.-]{0,251}[A-Za-z0-9])?$`
unfoldable pub matches_host : Text → Bool
matches_host [] = false
matches_host (c ∷ s) =
    is_alnum c
    && leb (length s) 252
    && all (λ d. is_alnum d || one_of (codes ".-") d) s
    && last_is_alnum (c ∷ s)

-- `_USER_RE`: `^[A-Za-z_][A-Za-z0-9_.-]{0,31}$`
unfoldable pub matches_user : Text → Bool
matches_user [] = false
matches_user (c ∷ s) =
    (is_alpha c || eqb c b'_')
    && leb (length s) 31
    && all (λ d. is_alnum d || one_of (codes "_.-") d) s

-- `_RELEASE_RE`: `^r[0-9]{8}T[0-9]{6}Z-[0-9]+$`
unfoldable pub matches_release : Text → Bool
matches_release s =
    eq_text (take 1 s) (codes "r")
    && all is_digit (take 8 (drop 1 s))
    && eq_text (take 1 (drop 9 s)) (codes "T")
    && all is_digit (take 6 (drop 10 s))
    && eq_text (take 2 (drop 16 s)) (codes "Z-")
    && ltb 18 (length s)
    && all is_digit (drop 18 s)

-- The `ValueError`s of this file.
pub data TargetError : Type 0 where
  bad_host bad_user bad_port control_characters relative_base dotted_base root_base no_identity :
      TargetError

-- `_validate_remote_base`
unfoldable pub validate_remote_base : String → Result TargetError (Unit {0})
validate_remote_base value = do
  raise_if (value == "" || any (λ c. ltb c 32 || eqb c 127) (codes value)) control_characters
  raise_if (not (starts_with (codes "/") (codes value))) relative_base
  raise_if (any (λ p. eq_text p (codes ".") || eq_text p (codes "..")) (path_parts (codes value)))
      dotted_base
  raise_if (value == "/") root_base
  ok tt

pub record DeploymentTarget : Type 0 where
  pub host : String
  pub user : String
  pub port : ℕ
  pub remote_base : String
  pub identity_file : Option String

unfoldable pub is_missing : (String → Bool) → Option String → Bool
is_missing is_file none = false
is_missing is_file (some path) = not (is_file path)

-- `DeploymentTarget.create`; the port is not negative.
unfoldable pub create : (String → Bool) → DeploymentTarget → Result TargetError DeploymentTarget
create is_file t = do
  raise_if
      (not (matches_host (codes t.host))
        || occurs (codes "..") (codes t.host)
        || starts_with (codes "-") (codes t.host))
      bad_host
  raise_if (not (matches_user (codes t.user)) || starts_with (codes "-") (codes t.user)) bad_user
  raise_if (not (leb 1 t.port && leb t.port 65535)) bad_port
  validate_remote_base t.remote_base
  raise_if (is_missing is_file t.identity_file) no_identity
  ok t

pub record DeploymentPlan : Type 0 where
  pub project_name : String
  pub target : DeploymentTarget
  pub release_id : String
  pub compose_file : String

unfoldable pub release_dir : DeploymentPlan → String
release_dir p = p.target.remote_base ++ "/releases/" ++ p.release_id

unfoldable pub current_path : DeploymentPlan → String
current_path p = p.target.remote_base ++ "/current"

unfoldable pub shared_env_path : DeploymentPlan → String
shared_env_path p = p.target.remote_base ++ "/shared/.env"

unfoldable pub previous_path : DeploymentPlan → String
previous_path p = p.target.remote_base ++ "/.previous-" ++ p.release_id

-- The destination among the arguments of `_ssh_argv`.
unfoldable pub destination : DeploymentTarget → String
destination t = t.user ++ "@" ++ t.host

unfoldable pub identity_arguments : Option String → List String → List String
identity_arguments none rest = rest
identity_arguments (some path) rest = "-i" ∷ path ∷ rest

-- `_ssh_argv`; `str` prints a number.
unfoldable pub ssh_argv : (ℕ → String) → DeploymentTarget → String → List String
ssh_argv str t command =
    "ssh"
    ∷ "-o"
    ∷ "BatchMode=yes"
    ∷ "-p"
    ∷ str t.port
    ∷ identity_arguments t.identity_file (destination t ∷ command ∷ [])

abbrev pub excluded_names : List String
excluded_names = ".env" ∷ ".secrets" ∷ "id_ed25519" ∷ "id_rsa" ∷ []

abbrev pub excluded_suffixes : List String
excluded_suffixes = ".key" ∷ ".pem" ∷ ".p12" ∷ ".pfx" ∷ []

-- `_is_secret_or_local_only`; `suffix` is the lower-case suffix of a path.
unfoldable pub is_secret_or_local_only : (String → String) → String → Bool
is_secret_or_local_only suffix name =
    if member name excluded_names
    then true
    else if starts_with (codes ".env.") (codes name) && not (name == ".env.example")
    then true
    else member (suffix name) excluded_suffixes
