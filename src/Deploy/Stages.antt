-- ===== src/Deploy/Stages.antt =====
-- A deployment as a list of stages that stops at the first failure, and what it leaves behind.
use django_ops.Common.{
  Bool, true, false, ◌≡◌, refl, sym, ap, subst, ◌⊎◌, inl, inr, List, [], ◌∷◌, String, if◌then◌else◌,
  Bool-cases, Result, ok, err,
}
use mathlib.Core.List.{◌++◌}
use django_ops.Common.Text.{codes}
use django_ops.Deploy.Targets.{DeploymentPlan, matches_release}
use django_ops.Deploy.Commands.{
  Command, upload, capture, start, preflight, migrate, activate, restore, remove_pending,
  remove_previous, remove_release,
}
use django_ops.Deploy.Flow.{
  Log, DeployError, upload_failed, capture_failed, startup_failed, preflight_failed,
  migration_failed, activation_failed, cleanup, restore_or_stop, rollback, undo_activation, attempt,
  deploy,
}

abbrev pub stages : List Command
stages = upload ∷ capture ∷ start ∷ preflight ∷ migrate ∷ activate ∷ []

-- The error of a stage that fails.
unfoldable pub error_of : Command → DeployError
error_of upload = upload_failed
error_of capture = capture_failed
error_of start = startup_failed
error_of preflight = preflight_failed
error_of migrate = migration_failed
error_of _ = activation_failed

-- What the code runs after a stage that fails.
unfoldable recovery_of : DeploymentPlan → Command → Log → Log
recovery_of p upload log = cleanup p remove_release log
recovery_of p capture log = cleanup p remove_release log
recovery_of p start log = rollback p log
recovery_of p preflight log = rollback p log
recovery_of p migrate log = rollback p log
recovery_of p _ log = undo_activation p log

-- The commands that undo a stage that failed, first to last: before the release is started, its directory is
-- removed; from then on the previous release is restored first, and its copied pointer removed; once the release
-- was to be activated, its pending pointer is removed as well.
unfoldable pub undo : Command → List Command
undo upload = remove_release ∷ []
undo capture = remove_release ∷ []
undo start = restore ∷ remove_previous ∷ remove_release ∷ []
undo preflight = restore ∷ remove_previous ∷ remove_release ∷ []
undo migrate = restore ∷ remove_previous ∷ remove_release ∷ []
undo _ = restore ∷ remove_pending ∷ remove_previous ∷ remove_release ∷ []

-- the log after the commands
unfoldable pub logged : List Command → Log → Log
logged [] log = log
logged (c ∷ cs) log = logged cs (c ∷ log)

module _ (succeeds : Log → Command → Bool) (p : DeploymentPlan) where
  -- The stages in their order, up to the first that fails.
  unfoldable run_stages : List Command → Log → Log × Result DeployError String
  run_stages [] log = (cleanup p remove_previous log, ok p.release_id)
  run_stages (c ∷ cs) log =
      if succeeds log c
      then run_stages cs (c ∷ log)
      else (recovery_of p c (c ∷ log), err (error_of c))

  recovery_of-eq-undo :
      (c : Command) (log : Log)
      → matches_release (codes p.release_id) ≡ true
      → recovery_of p c log ≡ logged (undo c) log
  unfolding recovery_of undo logged rollback undo_activation restore_or_stop cleanup
  recovery_of-eq-undo upload log h = rw h refl
  recovery_of-eq-undo capture log h = rw h refl
  recovery_of-eq-undo start log h = rw h refl
  recovery_of-eq-undo preflight log h = rw h refl
  recovery_of-eq-undo migrate log h = rw h refl
  recovery_of-eq-undo activate log h = rw h refl
  recovery_of-eq-undo restore log h = rw h refl
  recovery_of-eq-undo remove_pending log h = rw h refl
  recovery_of-eq-undo remove_previous log h = rw h refl
  recovery_of-eq-undo remove_release log h = rw h refl

  deploy-eq-run_stages : deploy succeeds p ≡ run_stages stages []
  unfolding deploy attempt run_stages recovery_of error_of
  deploy-eq-run_stages = refl

  -- Each command succeeds after those before it.
  unfoldable pub Passes : List Command → Log → Type 0
  Passes [] log = Unit
  Passes (c ∷ cs) log = (succeeds log c ≡ true) × Passes cs (c ∷ log)

  -- The first failure among the commands, and what the run left and raised.
  pub record Fails (cs : List Command) (log : Log) (r : Log × Result DeployError String)
      : Type 0 where
    pub before : List Command
    pub failing : Command
    pub after : List Command
    pub split : cs ≡ before ++ failing ∷ after
    pub passed : Passes before log
    pub refused : succeeds (logged before log) failing ≡ false
    pub result : r ≡ (logged (undo failing) (failing ∷ logged before log), err (error_of failing))

  run_stages_outcomes :
      (cs : List Command) (log : Log)
      → matches_release (codes p.release_id) ≡ true
      → (Passes cs log × (run_stages cs log ≡ (remove_previous ∷ logged cs log, ok p.release_id)))
        ⊎ Fails cs log (run_stages cs log)
  unfolding run_stages Passes logged cleanup
  run_stages_outcomes [] log valid = inl (tt, rw valid refl)
  run_stages_outcomes (c ∷ cs) log valid = elim (Bool-cases (succeeds log c)) [
    | inr e ↦ inr (record {
      before = [];
      failing = c;
      after = cs;
      split = refl;
      passed = tt;
      refused = e;
      result = rw (e, recovery_of-eq-undo c (c ∷ log) valid) refl;
    })
    | inl e ↦ elim (run_stages_outcomes cs (c ∷ log) valid) [
      | inl (passed, same) ↦ inl ((e, passed), rw e same)
      | inr f ↦ inr (record {
        before = c ∷ f.before;
        failing = f.failing;
        after = f.after;
        split = ap (λ xs. c ∷ xs) f.split;
        passed = (e, f.passed);
        refused = f.refused;
        result = rw e f.result;
      })
    ]
  ]

-- A deployment with a well-formed release id either runs all six stages in order, each of which succeeds, then
-- removes the copy of the previous pointer and returns the release id; or it stops at the first stage that
-- fails, runs exactly the commands that undo this stage, in their order, and raises this stage's error. From the
-- start of the release on these first restore the previous release; always they end with the removal of the
-- release's directory.
pub deploy_outcomes :
    (succeeds : Log → Command → Bool) (p : DeploymentPlan)
    → matches_release (codes p.release_id) ≡ true
    → (Passes succeeds p stages []
        × (deploy succeeds p ≡ (remove_previous ∷ logged stages [], ok p.release_id)))
      ⊎ Fails succeeds p stages [] (deploy succeeds p)
deploy_outcomes succeeds p valid =
    subst
      (λ (r : Log × Result DeployError String).
        (Passes succeeds p stages [] × (r ≡ (remove_previous ∷ logged stages [], ok p.release_id)))
        ⊎ Fails succeeds p stages [] r)
      (sym (deploy-eq-run_stages succeeds p)) (run_stages_outcomes succeeds p stages [] valid)

-- The last command that was run.
unfoldable pub EndsWith : Command → Log → Type 0
EndsWith c [] = ⊥
EndsWith c (d ∷ log) = d ≡ c

undo-EndsWith : (c : Command) (log : Log) → EndsWith remove_release (logged (undo c) log)
unfolding undo logged EndsWith
undo-EndsWith upload log = refl
undo-EndsWith capture log = refl
undo-EndsWith start log = refl
undo-EndsWith preflight log = refl
undo-EndsWith migrate log = refl
undo-EndsWith activate log = refl
undo-EndsWith restore log = refl
undo-EndsWith remove_pending log = refl
undo-EndsWith remove_previous log = refl
undo-EndsWith remove_release log = refl

-- A deployment with a well-formed release id that raises ends with the removal of the release's
-- directory, whichever stage failed.
pub failed_cleans_up :
    (succeeds : Log → Command → Bool) (p : DeploymentPlan) (e : DeployError)
    → matches_release (codes p.release_id) ≡ true
    → (deploy succeeds p).1 ≡ err e
    → EndsWith remove_release (deploy succeeds p).0
failed_cleans_up succeeds p e valid h = elim (deploy_outcomes succeeds p valid) [
  | inl (passed, same) ↦ cc (rw same at h)
  | inr f ↦
      subst (λ (r : Log × Result DeployError String). EndsWith remove_release r.0) (sym f.result)
        (undo-EndsWith f.failing (f.failing ∷ logged f.before []))
]
