-- ===== src/Graphql/TargetRows.antt =====
-- The targets of other projects, where a target of one is registered.
use django_ops.Common.{
  ℕ, ◌+◌, ◌≤◌, ◌<◌, ◌≡◌, ◌≢◌, refl, sym, subst, ◌∙◌, ap, inl, inr, true, not, List, arith, String,
  eqb, eqb_iff, keep, All, Bool-cases, ok,
}
use django_ops.Kubernetes.State.{KubernetesTarget}
use django_ops.Kubernetes.Validation.{ParsedUrl, is_valid}
use django_ops.Kubernetes.Targets.{
  Targets, Registration, target_row, checked_row, ValidateAnswer, validated, unreachable, escaped,
  without_pk, mark_validated, settle_target, register_target,
}
use django_ops.Kubernetes.Registering.{
  FreshKey, added, checked_row-Checked, register_target_cases, without-fresh,
}
use django_ops.Graphql.Tables.{imp-All, both-All, mark-fresh}
use django_ops.Graphql.Operations.{with_owner}

-- The keys of the table are below the next one, and each has one owner.
pub record OwnedTargets (owner : ℕ → ℕ) (t : Targets) : Type 0 where
  pub rows : All (λ r. owner r.pk ≡ r.project_id) t.rows
  pub below : All (λ r. r.pk < t.next_pk) t.rows

abbrev pub targets_of : ℕ → List KubernetesTarget → List KubernetesTarget
targets_of other = keep (λ r. eqb r.project_id other)

abbrev pub skipped : Targets → Targets
skipped t = record t { next_pk = t.next_pk + 1 }

checked_row-fields :
    (urlparse : String → ParsedUrl) (t : Targets) (a : Registration) (r : KubernetesTarget)
    → checked_row urlparse t a ≡ ok r
    → (r.pk ≡ t.next_pk) × (r.project_id ≡ a.project_id)
unfolding target_row
checked_row-fields urlparse t a r h =
    let c = checked_row-Checked urlparse t a r h in
    (ap (λ (x : KubernetesTarget). x.pk) c.row, ap (λ (x : KubernetesTarget). x.project_id) c.row)

-- The tables that a registration may leave: the one it found, with one more row of the project, or with one
-- key used up.
module _ {κ} (P : Targets → Type κ) (t : Targets) (fresh : FreshKey t) (project : ℕ) where
  settle_target-table :
      (r : KubernetesTarget) (answer : ValidateAnswer)
      → r.pk ≡ t.next_pk
      → r.project_id ≡ project
      → ((x : KubernetesTarget) → x.pk ≡ t.next_pk → x.project_id ≡ project → P (added t x))
      → P (skipped t)
      → P (settle_target (added t r) r answer).0
  unfolding settle_target mark_validated without_pk
  settle_target-table r unreachable e p new gone = new r e p
  settle_target-table r (escaped x) e p new gone = new r e p
  settle_target-table r (validated v) e p new gone = elim (Bool-cases (is_valid v)) [
    | inl valid ↦
        let marked : mark_validated r.pk t.rows ≡ t.rows =
          mark-fresh r.pk t.rows (subst (λ k. All (λ x. x.pk < k) t.rows) (sym e) fresh) in
        rw (valid, marked, (eqb_iff r.pk r.pk).1 refl) (new (record r { validated = true }) e p)
    | inr bad ↦
        let same : keep (λ x. not (eqb x.pk r.pk)) t.rows ≡ t.rows =
          without-fresh r.pk t.rows (subst (λ k. All (λ x. x.pk < k) t.rows) (sym e) fresh) in
        rw (bad, same, (eqb_iff r.pk r.pk).1 refl) gone
  ]

  register_target-table :
      (urlparse : String → ParsedUrl) (a : Registration) (answer : ValidateAnswer)
      → a.project_id ≡ project
      → P t
      → ((x : KubernetesTarget) → x.pk ≡ t.next_pk → x.project_id ≡ project → P (added t x))
      → P (skipped t)
      → P (register_target urlparse t a answer).0
  register_target-table urlparse a answer own same new gone =
      register_target_cases urlparse t a answer (λ x. P x.0) (λ e. same)
        (λ r h free.
          let fields = checked_row-fields urlparse t a r h in
          settle_target-table r answer fields.0 (fields.1 ∙ own) new gone)

-- A registration for a project leaves the targets of the others.
pub register_target-others :
    (urlparse : String → ParsedUrl) (t : Targets) (a : Registration) (answer : ValidateAnswer)
    (other : ℕ)
    → FreshKey t
    → a.project_id ≢ other
    → targets_of other (register_target urlparse t a answer).0.rows ≡ targets_of other t.rows
register_target-others urlparse t a answer other fresh ne =
    register_target-table (λ (x : Targets). targets_of other x.rows ≡ targets_of other t.rows) t
      fresh a.project_id urlparse a answer refl refl (λ x _ own. ground (arith, ne, own)) refl

added-Owned :
    (owner : ℕ → ℕ) (t : Targets) (project : ℕ) (r : KubernetesTarget)
    → r.pk ≡ t.next_pk
    → r.project_id ≡ project
    → OwnedTargets (with_owner owner t.next_pk project) (skipped t)
    → OwnedTargets (with_owner owner t.next_pk project) (added t r)
added-Owned owner t project r e own o = record {
  rows = (ground (arith, e, own), o.rows);
  below = (omega (arith, e), o.below);
}

skipped-Owned :
    (owner : ℕ → ℕ) (t : Targets) (project : ℕ)
    → OwnedTargets owner t
    → OwnedTargets (with_owner owner t.next_pk project) (skipped t)
skipped-Owned owner t project o = record {
  rows =
      imp-All (λ r. (owner r.pk ≡ r.project_id) × (r.pk < t.next_pk))
        (λ r. with_owner owner t.next_pk project r.pk ≡ r.project_id) t.rows
        (λ r h. ground (arith, h.0, h.1))
        (both-All (λ r. owner r.pk ≡ r.project_id) (λ r. r.pk < t.next_pk) t.rows o.rows o.below);
  below =
      imp-All (λ r. r.pk < t.next_pk) (λ r. r.pk < t.next_pk + 1) t.rows (λ r h. omega (arith, h))
        o.below;
}

-- The owners of the keys after a registration, and the next key does not fall.
pub register_target-Owned :
    (urlparse : String → ParsedUrl) (owner : ℕ → ℕ) (t : Targets) (a : Registration)
    (answer : ValidateAnswer)
    → OwnedTargets owner t
    → OwnedTargets (with_owner owner t.next_pk a.project_id) (register_target urlparse t a answer).0
      × (t.next_pk ≤ (register_target urlparse t a answer).0.next_pk)
register_target-Owned urlparse owner t a answer o =
    let owned = skipped-Owned owner t a.project_id o in
    register_target-table
      (λ (x : Targets).
        OwnedTargets (with_owner owner t.next_pk a.project_id) x × (t.next_pk ≤ x.next_pk))
      t o.below a.project_id urlparse a answer refl
      (record { rows = owned.rows; below = o.below }, omega arith)
      (λ x e own. (added-Owned owner t a.project_id x e own owned, omega arith))
      (owned, omega arith)
