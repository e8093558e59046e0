-- ===== src/Deploy/Tests.antt =====
-- Deployments on concrete targets and hosts, and the theorems applied to them.
use django_ops.Common.{◌≡◌, refl, ◌⊎◌, Bool, true, false, none, [], ◌∷◌, ok, err}
use django_ops.Common.Text.{codes, eq_text, occurs, starts_with, path_parts, split, split_go}
use django_ops.Deploy.Targets.{
  dotted_base, root_base, DeploymentTarget, DeploymentPlan, matches_host, matches_user,
  matches_release, validate_remote_base, is_missing, create, destination,
}
use django_ops.Deploy.Commands.{
  Command, upload, capture, start, preflight, migrate, activate, restore, remove_pending,
  remove_previous, remove_release,
}
use django_ops.Deploy.Flow.{
  Log, migration_failed, cleanup, restore_or_stop, rollback, undo_activation, attempt, deploy,
}
use django_ops.Deploy.Stages.{
  stages, logged, Passes, Fails, deploy_outcomes, EndsWith, failed_cleans_up,
}
use django_ops.Deploy.Destination.{destination_no_option}

program : Unit {0}
unfolding eq_text occurs starts_with path_parts split split_go matches_host matches_user
    matches_release validate_remote_base is_missing create destination cleanup restore_or_stop
    rollback undo_activation attempt deploy logged
program = tt

abbrev target : DeploymentTarget
target = record {
  host = "vps.example.com";
  user = "deploy";
  port = 22;
  remote_base = "/srv/djangoops";
  identity_file = none;
}

abbrev plan : DeploymentPlan
plan = record {
  project_name = "shop";
  target = target;
  release_id = "r20260101T000000Z-42";
  compose_file = "compose.yaml";
}

-- a host on which one command fails
fails_at : Command → Log → Command → Bool
fails_at migrate log migrate = false
fails_at activate log activate = false
fails_at _ log c = true

failed_migration : deploy (fails_at migrate) plan ≡ (
  remove_release ∷ remove_previous ∷ restore ∷ migrate ∷ preflight ∷ start ∷ capture ∷ upload ∷ [],
  err migration_failed,
)
unfolding program fails_at
failed_migration = refl

failed_activation :
    (deploy (fails_at activate) plan).0
    ≡ remove_release ∷ remove_previous ∷ remove_pending ∷ restore ∷ activate ∷ migrate ∷ preflight
      ∷ start ∷ capture ∷ upload ∷ []
unfolding program fails_at
failed_activation = refl

parent_segment : validate_remote_base "/srv/../etc" ≡ err dotted_base
unfolding program
parent_segment = refl

root : validate_remote_base "/" ≡ err root_base
unfolding program
root = refl

-- The parts of a path have no dot segments, and a text other than "/" may denote the root.
dot_segment : validate_remote_base "/srv/./app" ≡ ok tt
unfolding program
dot_segment = refl

root_with_dot : validate_remote_base "/." ≡ ok tt
unfolding program
root_with_dot = refl

deploy_outcomes_example :
    (Passes (fails_at migrate) plan stages []
      × (deploy (fails_at migrate) plan ≡ (remove_previous ∷ logged stages [], ok plan.release_id)))
    ⊎ Fails (fails_at migrate) plan stages [] (deploy (fails_at migrate) plan)
unfolding program
deploy_outcomes_example = deploy_outcomes (fails_at migrate) plan refl

failed_cleans_up_example : EndsWith remove_release (deploy (fails_at migrate) plan).0
unfolding program fails_at
failed_cleans_up_example = failed_cleans_up (fails_at migrate) plan migration_failed refl refl

destination_no_option_example : starts_with (codes "-") (codes (destination target)) ≡ false
unfolding program
destination_no_option_example = destination_no_option (λ path. true) target target refl
