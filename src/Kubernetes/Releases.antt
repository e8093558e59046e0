-- ===== src/Kubernetes/Releases.antt =====
-- controlplane/kubernetes.py: `start_release` up to the commit of its transaction and after the backend
-- answered, and `cancel_release`. The database may change between the two, so each takes its own table.
use django_ops.Common.{
  ℕ, ◌+◌, Bool, true, false, not, ◌&&◌, ◌||◌, Option, none, some, List, [], ◌∷◌, String, ◌==◌, eqb,
  member, if◌then◌else◌, Result, ok, ◌>>=◌, ◌>>◌, raise_if,
}
use django_ops.Common.Dict.{Dict, lookup}
use django_ops.Common.Redact.{truncate}
use django_ops.Kubernetes.State.{
  Status, validating, succeeded, failed, cancelled, rolled_back, rollback_blocked, is_active,
  is_terminal, is_failed, is_succeeded, recoverable_errors, KubernetesTarget, KubernetesRelease,
  Releases, ReleaseRequest, ReleaseResult, KubernetesError, bad_compatibility,
}
use django_ops.Kubernetes.Validation.{validate_image}

-- What tells one release of a target from another.
pub record ReleaseKey : Type 0 where
  pub target_id : ℕ
  pub image : String
  pub chart_version : String
  pub values_digest : String

unfoldable pub is_release : ReleaseKey → KubernetesRelease → Bool
is_release key r =
    eqb r.target_id key.target_id
    && r.image == key.image
    && r.chart_version == key.chart_version
    && r.values_digest == key.values_digest

-- `Q(status__in=_ACTIVE) | Q(status="failed", error_code__in=_RECOVERABLE_ERRORS)`
unfoldable pub is_open : KubernetesRelease → Bool
is_open r = is_active r.status || (is_failed r.status && member r.error_code recoverable_errors)

-- `filter(...).first()`
unfoldable pub first_row :
    (KubernetesRelease → Bool) → List KubernetesRelease → Option KubernetesRelease
first_row p [] = none
first_row p (r ∷ rs) = if p r then some r else first_row p rs

-- `filter(...).update(...)`
unfoldable pub update_rows :
    (KubernetesRelease → Bool)
    → (KubernetesRelease → KubernetesRelease)
    → List KubernetesRelease
    → List KubernetesRelease
update_rows p f [] = []
update_rows p f (r ∷ rs) = (if p r then f r else r) ∷ update_rows p f rs

abbrev pub has_pk : ℕ → KubernetesRelease → Bool
has_pk pk r = eqb r.pk pk

abbrev pub has_active_pk : ℕ → KubernetesRelease → Bool
has_active_pk pk r = eqb r.pk pk && is_active r.status

abbrev pub set_rows : Releases → List KubernetesRelease → Releases
set_rows t rows = record t { rows = rows }

abbrev pub reset : KubernetesRelease → KubernetesRelease
reset r = record r { status = validating; error_code = "" }

unfoldable pub previous_revision_of : Option KubernetesRelease → Option ℕ
previous_revision_of none = none
previous_revision_of (some r) = r.helm_revision

unfoldable pub text_of : (KubernetesRelease → String) → Option KubernetesRelease → String
text_of field none = ""
text_of field (some r) = field r

-- The row of `KubernetesRelease.objects.create`.
unfoldable pub new_release :
    ℕ → ReleaseKey → ℕ → String → String → Option KubernetesRelease → KubernetesRelease
new_release pk key project operation_id compatibility previous = record {
  pk = pk;
  project_id = project;
  target_id = key.target_id;
  status = validating;
  operation_id = operation_id;
  image = key.image;
  chart_version = key.chart_version;
  values_digest = key.values_digest;
  helm_revision = none;
  previous_helm_revision = previous_revision_of previous;
  previous_image = text_of (λ r. r.image) previous;
  previous_values_digest = text_of (λ r. r.values_digest) previous;
  migration_compatibility = compatibility;
  rollback_status = "";
  error_code = "";
}

-- The table after the transaction, the release, and `dispatch`.
pub record Opened : Type 0 where
  pub table : Releases
  pub release : KubernetesRelease
  pub dispatch : Bool

-- The `transaction.atomic()` block of `start_release`; `project` is the target's.
unfoldable pub open_release : Releases → ReleaseKey → ℕ → String → String → Opened
open_release t key project operation_id compatibility =
    elim (first_row (λ r. is_release key r && is_open r) t.rows) [
      | some r ↦
          if is_active r.status
          then record { table = t; release = r; dispatch = false }
          else record {
            table = set_rows t (update_rows (has_pk r.pk) reset t.rows);
            release = reset r;
            dispatch = true;
          }
      | none ↦
          let created =
            new_release t.next_pk key project operation_id compatibility
              (first_row (λ r. eqb r.target_id key.target_id && is_succeeded r.status) t.rows) in
          record {
            table = record { rows = created ∷ t.rows; next_pk = t.next_pk + 1 };
            release = created;
            dispatch = true;
          }
    ]

-- `values_digest`; `sha256` is the hexadecimal digest of the encoded text.
unfoldable pub digest_of {ℓ} :
    {J : Type ℓ} → (Dict J → String) → (String → String) → Dict J → String
digest_of dumps sha256 values = sha256 (dumps values)

-- `str(clean_values.get("migrationCompatibility", "unknown"))`
unfoldable pub compatibility_of {ℓ} : {J : Type ℓ} → (J → String) → Dict J → String
compatibility_of str values = elim (lookup "migrationCompatibility" values) [
  | none ↦ "unknown"
  | some v ↦ str v
]

-- `previous_helm_revision or 0`
unfoldable pub revision_or_zero : Option ℕ → ℕ
revision_or_zero none = 0
revision_or_zero (some n) = n

unfoldable pub release_request :
    KubernetesTarget → KubernetesRelease → String → String → String → ReleaseRequest
release_request target release image values_json compatibility = record {
  operation_id = release.operation_id;
  namespace = target.namespace;
  release_name = target.release_name;
  image = image;
  values_json = values_json;
  credential_ref = target.credential_ref;
  rollback_policy = if compatibility == "safe" then "allow" else "block-after-migration";
  mode = "release";
  previous_revision = revision_or_zero release.previous_helm_revision;
  migration_timeout_seconds = 300;
  rollout_timeout_seconds = 300;
}

-- What `start_release` has done when it asks the backend: `none` where it returns without asking.
pub record Begun : Type 0 where
  pub opened : Opened
  pub request : Option ReleaseRequest

module _ {ℓ} {J : Type ℓ} (sanitize : Dict J → Result KubernetesError (Dict J)) where
  module _ (dumps : Dict J → String) (sha256 : String → String) (str : J → String) where
    -- `start_release` up to the call of the backend; `sanitize` is the module's `sanitize_values`, which
    -- controlplane/kubernetes_observability.py replaces.
    unfoldable pub begin_release :
        Releases
        → KubernetesTarget
        → String
        → Dict J
        → String
        → String
        → Result KubernetesError Begun
    begin_release t target image values chart_version operation_id = sanitize values >>= λ clean.
        validate_image image >>= λ image.
        let compatibility = compatibility_of str clean in
        raise_if (not (compatibility == "safe" || compatibility == "unknown")) bad_compatibility
        >> (let opened =
              open_release t
                (record {
                  target_id = target.pk;
                  image = image;
                  chart_version = chart_version;
                  values_digest = digest_of dumps sha256 clean;
                })
                target.project_id operation_id compatibility in
            ok (record {
              opened = opened;
              request =
                  if opened.dispatch
                  then some
                      (release_request target opened.release image (dumps clean) compatibility)
                  else none;
            }))

-- What the backend's `start` did: it returned, raised `RuntimeError`, or let an error of the gateway
-- escape (`agent_missing` or `gateway_refused`), which `start_release` does not catch.
pub data StartAnswer : Type 0 where
  escaped : KubernetesError → StartAnswer
  answered : ReleaseResult → StartAnswer
  unavailable : StartAnswer

-- `result.status if result.status in _TERMINAL else "failed"`
unfoldable pub map_status : String → Status
map_status s =
    if s == "succeeded"
    then succeeded
    else if s == "cancelled"
    then cancelled
    else if s == "rolled_back"
    then rolled_back
    else if s == "rollback_blocked"
    then rollback_blocked
    else failed

-- `a or b`, for revisions
unfoldable pub revision_or : Option ℕ → Option ℕ → Option ℕ
revision_or none other = other
revision_or (some n) other = if eqb n 0 then other else some n

-- What the row becomes; where an error escapes, nothing is written.
unfoldable pub apply_answer :
    KubernetesRelease → StartAnswer → KubernetesRelease → KubernetesRelease
apply_answer release (escaped e) r = r
apply_answer release unavailable r = record r { status = failed; error_code = "AGENT_UNAVAILABLE" }
apply_answer release (answered result) r = record r {
  status = map_status result.status;
  helm_revision = result.helm_revision;
  previous_helm_revision = revision_or result.previous_revision release.previous_helm_revision;
  rollback_status = truncate 32 result.rollback_status;
  error_code = truncate 48 result.error_code;
}

-- `start_release` after the backend's answer; `release` is the row as it was when the backend was asked.
unfoldable pub finish_release : Releases → KubernetesRelease → StartAnswer → Releases
finish_release t release answer =
    set_rows t (update_rows (has_active_pk release.pk) (apply_answer release answer) t.rows)

unfoldable pub apply_cancel : Bool → KubernetesRelease → KubernetesRelease
apply_cancel true r = record r { status = cancelled; error_code = "" }
apply_cancel false r = record r { status = failed; error_code = "CANCEL_UNAVAILABLE" }

-- `cancel_release`: `seen` is the row after the refresh, `t` the table when the backend has answered.
unfoldable pub cancel_release : Releases → KubernetesRelease → Bool → Releases
cancel_release t seen accepted =
    if is_terminal seen.status
    then t
    else set_rows t (update_rows (has_active_pk seen.pk) (apply_cancel accepted) t.rows)
