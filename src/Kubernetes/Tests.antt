-- ===== src/Kubernetes/Tests.antt =====
-- Releases and targets on concrete tables, and the theorems applied to them.
use django_ops.Common.{
  ◌≡◌, refl, true, false, none, some, List, [], ◌∷◌, String, arith, Result, ok, err,
}
use django_ops.Common.Dict.{Dict, lookup}
use django_ops.Common.Text.{eq_text, occurs, starts_with}
use django_ops.Common.Redact.{truncate, skip_spaces, is_space}
use django_ops.Kubernetes.State.{
  Status, succeeded, failed, validating, is_active, is_terminal, KubernetesTarget,
  KubernetesRelease, Releases, ReleaseResult, ReleaseRequest, TargetValidation, KubernetesError,
  backend_unavailable, identity_duplicate, validation_failed, mutable_image,
}
use django_ops.Kubernetes.Validation.{
  rstrip_where, strip, matches_dns_label, matches_credential_ref, matches_digest_image,
  validate_name, ParsedUrl, validate_api_server, validate_credential_ref, validate_image,
  sanitize_values, is_valid,
}
use django_ops.Kubernetes.Releases.{
  ReleaseKey, is_release, is_open, first_row, update_rows, has_pk, new_release,
  previous_revision_of, text_of, open_release, digest_of, compatibility_of, revision_or_zero,
  release_request, Begun, begin_release, answered, unavailable, map_status, revision_or,
  apply_answer, finish_release, apply_cancel, cancel_release,
}
use django_ops.Kubernetes.Events.{Event, opens, finishes, cancels, step, run, count_open, IsValid}
use django_ops.Kubernetes.Uniqueness.{releases-IsValid}
use django_ops.Kubernetes.Finality.{closed_final}
use django_ops.Kubernetes.Starting.{begin_release_twice}
use django_ops.Kubernetes.Requests.{Sends, begin_release-request}
use django_ops.Kubernetes.Targets.{
  Targets, Registration, same_identity, optional_name, identity_of, is_taken, fields_of, target_row,
  checked_row, create_row, ValidateAnswer, validated, unreachable, without_pk, mark_validated,
  settle_target, register_target,
}
use django_ops.Kubernetes.Registering.{added}
use django_ops.Kubernetes.Outcomes.{register_target-undone, register_target-stuck}

program : Unit {0}
unfolding eq_text occurs starts_with truncate skip_spaces is_space lookup is_active is_terminal
    rstrip_where strip matches_dns_label matches_credential_ref matches_digest_image validate_name
    validate_api_server validate_credential_ref validate_image sanitize_values is_valid is_release
    is_open first_row update_rows new_release previous_revision_of text_of open_release digest_of
    compatibility_of revision_or_zero release_request begin_release map_status revision_or
    apply_answer finish_release apply_cancel cancel_release step run count_open same_identity
    optional_name identity_of is_taken fields_of target_row checked_row create_row without_pk
    mark_validated settle_target register_target
program = tt

abbrev image : String
image = "app@sha256:0123456789abcdef0123456789abcdef0123456789abcdef0123456789abcdef"

abbrev key : ReleaseKey
key = record { target_id = 1; image = image; chart_version = "0.1.0"; values_digest = "d" }

abbrev done : KubernetesRelease
done = record {
  pk = 1;
  project_id = 4;
  target_id = 1;
  status = succeeded;
  operation_id = "k8s-1";
  image = image;
  chart_version = "0.1.0";
  values_digest = "d";
  helm_revision = some 3;
  previous_helm_revision = none;
  previous_image = "";
  previous_values_digest = "";
  migration_compatibility = "safe";
  rollback_status = "";
  error_code = "";
}

abbrev releases : Releases
releases = record { rows = done ∷ []; next_pk = 2 }

abbrev lost : ReleaseResult
lost = record {
  status = "vanished";
  helm_revision = none;
  previous_revision = some 0;
  rollback_status = "none";
  error_code = "RECOVERY_REQUIRED";
}

table-IsValid : IsValid releases
unfolding program
table-IsValid = record { distinct = (omega arith, tt); single = λ k. ground arith }

abbrev started : KubernetesRelease
started = new_release 2 key 4 "k8s-2" "safe" (some done)

abbrev history : List Event
history =
    opens key 4 "k8s-2" "safe"
    ∷ cancels started false
    ∷ opens key 4 "k8s-3" "safe"
    ∷ finishes started (answered lost)
    ∷ opens key 4 "k8s-4" "safe"
    ∷ finishes started unavailable
    ∷ []

statuses : List KubernetesRelease → List (Status × String)
statuses [] = []
statuses (r ∷ rs) = (r.status, r.error_code) ∷ statuses rs

after_history :
    statuses (run releases history).rows ≡ (failed, "AGENT_UNAVAILABLE") ∷ (succeeded, "") ∷ []
unfolding program statuses
after_history = refl

releases-IsValid_example : IsValid (run releases history)
releases-IsValid_example = releases-IsValid history releases table-IsValid

closed_final_example : first_row (has_pk 1) (run releases history).rows ≡ some done
unfolding program
closed_final_example = closed_final history releases done table-IsValid refl refl

abbrev target : KubernetesTarget
target = record {
  pk = 1;
  project_id = 4;
  agent_id = "vps-1";
  name = "main";
  api_server = "https://k8s.example";
  namespace = "shop";
  release_name = "shop-web";
  credential_ref = "vault:shop";
  ingress_class = "";
  tls_secret_name = "";
  validated = true;
}

abbrev values : Dict String
values = ("migrationCompatibility", "safe") ∷ []

abbrev same : String → String
same s = s

abbrev dumps : Dict String → String
dumps d = "{}"

abbrev hash : String → String
hash s = "e"

abbrev clean : Dict String → Result KubernetesError (Dict String)
clean = sanitize_values dumps same

mutable_tag :
    begin_release clean dumps hash same releases target "app:latest" values "0.1.0" "k8s-2"
    ≡ err mutable_image
unfolding program
mutable_tag = refl

abbrev created : KubernetesRelease
created = record {
  pk = 2;
  project_id = 4;
  target_id = 1;
  status = validating;
  operation_id = "k8s-2";
  image = image;
  chart_version = "0.1.0";
  values_digest = "e";
  helm_revision = none;
  previous_helm_revision = some 3;
  previous_image = image;
  previous_values_digest = "d";
  migration_compatibility = "safe";
  rollback_status = "";
  error_code = "";
}

abbrev request : ReleaseRequest
request = record {
  operation_id = "k8s-2";
  namespace = "shop";
  release_name = "shop-web";
  image = image;
  values_json = "{}";
  credential_ref = "vault:shop";
  rollback_policy = "allow";
  mode = "release";
  previous_revision = 3;
  migration_timeout_seconds = 300;
  rollout_timeout_seconds = 300;
}

abbrev begun_release : Begun
begun_release = record {
  opened = record {
    table = record { rows = created ∷ done ∷ []; next_pk = 3 };
    release = created;
    dispatch = true;
  };
  request = some request;
}

begin_release_twice_example :
    begin_release clean dumps hash same begun_release.opened.table target image values "0.1.0"
      "k8s-3"
    ≡ ok (record {
      opened = record { table = begun_release.opened.table; release = created; dispatch = false };
      request = none;
    })
unfolding program
begin_release_twice_example =
    begin_release_twice clean dumps hash same releases target image values "0.1.0" "k8s-2" "k8s-3"
      begun_release table-IsValid refl

begin_release-request_example : Sends clean dumps same values begun_release.opened request
unfolding program
begin_release-request_example =
    begin_release-request clean dumps hash same releases target image values "0.1.0" "k8s-2"
      begun_release request refl refl

abbrev parsed : String → ParsedUrl
parsed url = record {
  scheme = "https";
  hostname = some "k8s.example";
  username = none;
  password = none;
}

abbrev registration : Registration
registration = record {
  project_id = 4;
  agent = record { agent_id = "vps-1"; project_id = 4 };
  name = " second ";
  api_server = "https://k8s.example/";
  namespace = "shop";
  release_name = "shop-api";
  credential_ref = "vault:shop";
  ingress_class = "";
  tls_secret_name = "shop-tls";
}

abbrev targets : Targets
targets = record { rows = target ∷ []; next_pk = 2 }

abbrev row : KubernetesTarget
row = record {
  pk = 2;
  project_id = 4;
  agent_id = "vps-1";
  name = "second";
  api_server = "https://k8s.example";
  namespace = "shop";
  release_name = "shop-api";
  credential_ref = "vault:shop";
  ingress_class = "";
  tls_secret_name = "shop-tls";
  validated = false;
}

abbrev no_helm : TargetValidation
no_helm = record {
  reachable = true;
  namespace_access = true;
  helm_available = false;
  permissions = [];
}

register_target-undone_example :
    (register_target parsed targets registration (validated no_helm)).0.rows ≡ targets.rows
unfolding program
register_target-undone_example =
    register_target-undone parsed targets registration no_helm validation_failed (omega arith, tt)
      refl

register_target-stuck_example :
    (register_target parsed targets registration unreachable
      ≡ (added targets row, err backend_unavailable))
    × ((answer : ValidateAnswer)
        → register_target parsed (added targets row) registration answer
          ≡ (added targets row, err identity_duplicate))
unfolding program
register_target-stuck_example = register_target-stuck parsed targets registration row refl refl
