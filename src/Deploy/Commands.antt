-- ===== src/Deploy/Commands.antt =====
-- cli/djangoops/deploy.py: the commands that a deployment runs on the remote host. `quote` is
-- `shlex.quote`.
use Prim.Native.String.{◌++◌}
use django_ops.Common.{String}
use django_ops.Deploy.Targets.{
  DeploymentPlan, release_dir, current_path, shared_env_path, previous_path,
}

-- One for each function that calls `_run_ssh`; the last three are the cleanups.
pub data Command : Type 0 where
  upload capture start preflight migrate activate restore : Command
  remove_pending remove_previous remove_release : Command

unfoldable pub pending_path : DeploymentPlan → String
pending_path p = p.target.remote_base ++ "/.current-" ++ p.release_id

unfoldable pub restore_path : DeploymentPlan → String
restore_path p = p.target.remote_base ++ "/.restore-" ++ p.release_id

module _ (quote : String → String) where
  -- `_compose_prefix`
  unfoldable pub compose_prefix : DeploymentPlan → String
  compose_prefix p = "docker compose -p " ++ quote p.project_name ++ " -f " ++ quote p.compose_file

  -- The text that the command's function passes to `_run_ssh`.
  unfoldable pub render : DeploymentPlan → Command → String
  render p upload =
      "umask 077; mkdir -p "
      ++ quote (release_dir p)
      ++ " && tar -xzf - -C "
      ++ quote (release_dir p)
  render p capture =
      "set -eu; if test -L "
      ++ quote (current_path p)
      ++ " || test -d "
      ++ quote (current_path p)
      ++ "; then previous_target=$(readlink -f -- "
      ++ quote (current_path p)
      ++ "); test -n \"$previous_target\"; ln -sfn -- \"$previous_target\" "
      ++ quote (previous_path p)
      ++ "; else rm -f -- "
      ++ quote (previous_path p)
      ++ "; fi"
  render p start =
      "set -eu; test -f "
      ++ quote (shared_env_path p)
      ++ "; ln -sfn "
      ++ quote (shared_env_path p)
      ++ " "
      ++ quote (release_dir p)
      ++ "/.env; cd "
      ++ quote (release_dir p)
      ++ "; "
      ++ compose_prefix p
      ++ " up -d --build"
  render p preflight =
      "set -eu; cd "
      ++ quote (release_dir p)
      ++ "; "
      ++ compose_prefix p
      ++ " exec -T web python manage.py migrate --plan --noinput"
  render p migrate =
      "set -eu; cd "
      ++ quote (release_dir p)
      ++ "; "
      ++ compose_prefix p
      ++ " exec -T web python manage.py migrate --noinput"
  render p activate =
      "set -eu; mkdir -p "
      ++ quote p.target.remote_base
      ++ "/releases "
      ++ quote p.target.remote_base
      ++ "/shared; ln -sfn "
      ++ quote (release_dir p)
      ++ " "
      ++ quote (pending_path p)
      ++ "; mv -Tf "
      ++ quote (pending_path p)
      ++ " "
      ++ quote (current_path p)
  render p restore =
      "set -eu; if test -L "
      ++ quote (previous_path p)
      ++ "; then previous_target=$(readlink -- "
      ++ quote (previous_path p)
      ++ "); test -n \"$previous_target\"; ln -sfn -- \"$previous_target\" "
      ++ quote (restore_path p)
      ++ "; mv -Tf "
      ++ quote (restore_path p)
      ++ " "
      ++ quote (current_path p)
      ++ "; cd \"$previous_target\"; "
      ++ compose_prefix p
      ++ " up -d --build; else if test -L "
      ++ quote (current_path p)
      ++ "; then current_target=$(readlink -- "
      ++ quote (current_path p)
      ++ "); if test \"$current_target\" = "
      ++ quote (release_dir p)
      ++ "; then rm -f -- "
      ++ quote (current_path p)
      ++ "; fi; fi; cd "
      ++ quote (release_dir p)
      ++ "; "
      ++ compose_prefix p
      ++ " down; fi"
  render p remove_pending = "rm -f -- " ++ quote (pending_path p)
  render p remove_previous = "rm -f -- " ++ quote (previous_path p) ++ " " ++ quote (restore_path p)
  render p remove_release = "rm -rf -- " ++ quote (release_dir p)
