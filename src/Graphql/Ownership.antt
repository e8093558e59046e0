-- ===== src/Graphql/Ownership.antt =====
-- The owners of all rows of the database, and writes to one table.
use django_ops.Common.{ℕ, ◌≤◌, ◌<◌, ◌≡◌, ◌≢◌, refl, subst, ap, true, false, arith}
use django_ops.Diagnostics.State.{Table}
use django_ops.Kubernetes.State.{Releases}
use django_ops.Kubernetes.Targets.{Targets}
use django_ops.Graphql.Site.{Site, sees}
use django_ops.Graphql.Tables.{imp-All, both-All}
use django_ops.Graphql.Operations.{Owned, with_owner, of_project}
use django_ops.Graphql.TargetRows.{OwnedTargets, targets_of}
use django_ops.Graphql.ReleaseRows.{OwnedReleases, releases_of}
use django_ops.Graphql.Steps.{rows_of}

-- In each table the keys are below the next one and rows that have one key have one owner, and a release
-- belongs to the owner of its target.
pub record IsOwned (s : Site) : Type 0 where
  pub operation_owner : ℕ → ℕ
  pub operations : Owned operation_owner s.operations
  pub target_owner : ℕ → ℕ
  pub targets : OwnedTargets target_owner s.targets
  pub release_owner : ℕ → ℕ
  pub releases : OwnedReleases release_owner target_owner s.targets.next_pk s.releases

module _ (s : Site) (user other : ℕ) (o : IsOwned s) (hidden : sees s user other ≡ false) where
  -- The database is as well owned, and has the same rows of the other project and the same projects.
  abbrev pub Isolated : Site → Type 0
  Isolated s' = IsOwned s' × (rows_of other s' ≡ rows_of other s) × (s'.projects ≡ s.projects)

  -- A project that the user sees is not the other one.
  pub seen-other : (pk : ℕ) → sees s user pk ≡ true → pk ≢ other
  seen-other pk h e = cc (subst (λ k. sees s user k ≡ true) e h)

  pub with_operations :
      (owner : ℕ → ℕ) (t : Table)
      → Owned owner t
      → of_project other t.rows ≡ of_project other s.operations.rows
      → Isolated (record s { operations = t })
  unfolding rows_of
  with_operations owner t own same = (
    record {
      operation_owner = owner;
      operations = own;
      target_owner = o.target_owner;
      targets = o.targets;
      release_owner = o.release_owner;
      releases = o.releases;
    },
    ap (λ rows. record (rows_of other s) { operations = rows }) same,
    refl,
  )

  pub with_targets :
      (project : ℕ) (t : Targets)
      → OwnedTargets (with_owner o.target_owner s.targets.next_pk project) t
      → s.targets.next_pk ≤ t.next_pk
      → targets_of other t.rows ≡ targets_of other s.targets.rows
      → Isolated (record s { targets = t })
  unfolding rows_of
  with_targets project t own le same = (
    record {
      operation_owner = o.operation_owner;
      operations = o.operations;
      target_owner = with_owner o.target_owner s.targets.next_pk project;
      targets = own;
      release_owner = o.release_owner;
      releases = record {
        rows = o.releases.rows;
        below = o.releases.below;
        by_target =
            imp-All
              (λ r. (o.target_owner r.target_id ≡ r.project_id) × (r.target_id < s.targets.next_pk))
              (λ r. with_owner o.target_owner s.targets.next_pk project r.target_id ≡ r.project_id)
              s.releases.rows (λ r h. ground (arith, h.0, h.1))
              (both-All (λ r. o.target_owner r.target_id ≡ r.project_id)
                (λ r. r.target_id < s.targets.next_pk) s.releases.rows o.releases.by_target
                o.releases.known);
        known =
            imp-All (λ r. r.target_id < s.targets.next_pk) (λ r. r.target_id < t.next_pk)
              s.releases.rows (λ r h. omega (arith, h, le)) o.releases.known;
      };
    },
    ap (λ rows. record (rows_of other s) { targets = rows }) same,
    refl,
  )

  pub with_releases :
      (owner : ℕ → ℕ) (t : Releases)
      → OwnedReleases owner o.target_owner s.targets.next_pk t
      → releases_of other t.rows ≡ releases_of other s.releases.rows
      → Isolated (record s { releases = t })
  unfolding rows_of
  with_releases owner t own same = (
    record {
      operation_owner = o.operation_owner;
      operations = o.operations;
      target_owner = o.target_owner;
      targets = o.targets;
      release_owner = owner;
      releases = own;
    },
    ap (λ rows. record (rows_of other s) { releases = rows }) same,
    refl,
  )
