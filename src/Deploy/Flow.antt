-- ===== src/Deploy/Flow.antt =====
-- cli/djangoops/deploy.py: `deploy_project` from the plan on. The log holds the commands that were run,
-- the last one first; whether a command succeeds, which decides if `_run_ssh` raises, is a function of the
-- log before it and the command.
use django_ops.Common.{Bool, List, [], ◌∷◌, String, if◌then◌else◌, Result, ok, err}
use django_ops.Common.Text.{codes}
use django_ops.Deploy.Targets.{DeploymentPlan, matches_release}
use django_ops.Deploy.Commands.{
  Command, upload, capture, start, preflight, migrate, activate, restore, remove_pending,
  remove_previous, remove_release,
}

abbrev pub Log : Type 0
Log = List Command

-- The `DeployError`s, by their messages.
pub data DeployError : Type 0 where
  upload_failed capture_failed startup_failed preflight_failed : DeployError
  migration_failed activation_failed : DeployError

-- `_cleanup_release`, `_cleanup_previous_pointer` and `_cleanup_pending_pointer`; they swallow a failure.
unfoldable pub cleanup : DeploymentPlan → Command → Log → Log
cleanup p c log = if matches_release (codes p.release_id) then c ∷ log else log

-- `_restore_or_stop_failed_release`, which swallows a failure
unfoldable pub restore_or_stop : Log → Log
restore_or_stop log = restore ∷ log

-- `_rollback_failed_staged_release`
unfoldable pub rollback : DeploymentPlan → Log → Log
rollback p log = cleanup p remove_release (cleanup p remove_previous (restore_or_stop log))

-- The `except` clause of the activation.
unfoldable pub undo_activation : DeploymentPlan → Log → Log
undo_activation p log =
    cleanup p remove_release
      (cleanup p remove_previous (cleanup p remove_pending (restore_or_stop log)))

module _ (succeeds : Log → Command → Bool) (p : DeploymentPlan) where
  -- `try: <command> except DeployError: <recovery>; raise`, and what follows it
  unfoldable pub attempt :
      Command
      → (Log → Log)
      → DeployError
      → (Log → Log × Result DeployError String)
      → Log
      → Log × Result DeployError String
  attempt c recovery e next log =
      if succeeds log c then next (c ∷ log) else (recovery (c ∷ log), err e)

  unfoldable pub deploy : Log × Result DeployError String
  deploy =
      attempt upload (cleanup p remove_release) upload_failed
        (attempt capture (cleanup p remove_release) capture_failed (
          attempt start (rollback p) startup_failed (
            attempt preflight (rollback p) preflight_failed (
              attempt migrate (rollback p) migration_failed (
                attempt activate (undo_activation p) activation_failed
                  (λ log. (cleanup p remove_previous log, ok p.release_id)))))))
        []
