-- ===== src/Graphql/ReleaseRows.antt =====
-- The releases of other projects, where a release of one is started or cancelled.
use django_ops.Common.{
  ℕ, ◌+◌, ◌<◌, ◌≡◌, ◌≢◌, refl, sym, subst, ◌∙◌, ap, Bool, true, false, ◌&&◌, some, List, arith,
  String, eqb, eqb_iff, keep, All, &&-eq-true,
}
use django_ops.Kubernetes.State.{KubernetesRelease, Releases, is_active, is_terminal}
use django_ops.Kubernetes.Releases.{
  ReleaseKey, is_release, is_open, first_row, update_rows, has_pk, has_active_pk, set_rows, reset,
  new_release, Opened, open_release, StartAnswer, apply_answer, finish_release, apply_cancel,
  cancel_release,
}
use django_ops.Kubernetes.Releases
use django_ops.Kubernetes.Rows.{All-first_row, first_row-passes}
use django_ops.Kubernetes.Uniqueness.{found, with_created, open_release_cases}
use django_ops.Graphql.Tables.{imp-All, both-All, keep-update_rows, All-update_rows}
use django_ops.Graphql.Operations.{with_owner}

-- The keys of the table are below the next one and each has one owner; each release belongs to the owner of
-- its target, which is one of the targets that exist.
pub record OwnedReleases (owner target_owner : ℕ → ℕ) (targets : ℕ) (t : Releases) : Type 0 where
  pub rows : All (λ r. owner r.pk ≡ r.project_id) t.rows
  pub below : All (λ r. r.pk < t.next_pk) t.rows
  pub by_target : All (λ r. target_owner r.target_id ≡ r.project_id) t.rows
  pub known : All (λ r. r.target_id < targets) t.rows

abbrev pub releases_of : ℕ → List KubernetesRelease → List KubernetesRelease
releases_of other = keep (λ r. eqb r.project_id other)

-- The update leaves the key, the project and the target of a row.
pub record KeepsOwner (f : KubernetesRelease → KubernetesRelease) : Type 0 where
  pub pk : (r : KubernetesRelease) → (f r).pk ≡ r.pk
  pub project_id : (r : KubernetesRelease) → (f r).project_id ≡ r.project_id
  pub target_id : (r : KubernetesRelease) → (f r).target_id ≡ r.target_id

module _ (owner target_owner : ℕ → ℕ) (targets : ℕ) where
  abbrev pub Kept : Releases → Type 0
  Kept = OwnedReleases owner target_owner targets

  -- An update of rows that have one key leaves the rows of other owners.
  pub update-others :
      (t : Releases) (p : KubernetesRelease → Bool) (f : KubernetesRelease → KubernetesRelease)
      (pk other : ℕ)
      → KeepsOwner f
      → ((r : KubernetesRelease) → p r ≡ true → r.pk ≡ pk)
      → owner pk ≢ other
      → Kept t
      → releases_of other (update_rows p f t.rows) ≡ releases_of other t.rows
  update-others t p f pk other keeps key ne o = keep-update_rows p f other t.rows keeps.project_id (
      imp-All (λ r. owner r.pk ≡ r.project_id) (λ r. p r ≡ true → r.project_id ≢ other) t.rows
        (λ r own h same. ne (ap owner (sym (key r h)) ∙ own ∙ same)) o.rows)

  pub update-Owned :
      (t : Releases) (p : KubernetesRelease → Bool) (f : KubernetesRelease → KubernetesRelease)
      → KeepsOwner f
      → Kept t
      → Kept (set_rows t (update_rows p f t.rows))
  update-Owned t p f keeps o = record {
    rows =
        All-update_rows p f (λ r. owner r.pk ≡ r.project_id) t.rows
          (λ r h. ap owner (keeps.pk r) ∙ h ∙ sym (keeps.project_id r)) o.rows;
    below =
        All-update_rows p f (λ r. r.pk < t.next_pk) t.rows
          (λ r h. subst (λ k. k < t.next_pk) (sym (keeps.pk r)) h) o.below;
    by_target =
        All-update_rows p f (λ r. target_owner r.target_id ≡ r.project_id) t.rows
          (λ r h. ap target_owner (keeps.target_id r) ∙ h ∙ sym (keeps.project_id r)) o.by_target;
    known =
        All-update_rows p f (λ r. r.target_id < targets) t.rows
          (λ r h. subst (λ k. k < targets) (sym (keeps.target_id r)) h) o.known;
  }

reset-KeepsOwner : KeepsOwner reset
reset-KeepsOwner = record { pk = λ r. refl; project_id = λ r. refl; target_id = λ r. refl }

apply_answer-KeepsOwner :
    (release : KubernetesRelease) (answer : StartAnswer) → KeepsOwner (apply_answer release answer)
unfolding apply_answer
apply_answer-KeepsOwner release (Releases.answered result) = record {
  pk = λ r. refl;
  project_id = λ r. refl;
  target_id = λ r. refl;
}
apply_answer-KeepsOwner release (Releases.escaped e) = record {
  pk = λ r. refl;
  project_id = λ r. refl;
  target_id = λ r. refl;
}
apply_answer-KeepsOwner release Releases.unavailable = record {
  pk = λ r. refl;
  project_id = λ r. refl;
  target_id = λ r. refl;
}

apply_cancel-KeepsOwner : (accepted : Bool) → KeepsOwner (apply_cancel accepted)
unfolding apply_cancel
apply_cancel-KeepsOwner true = record {
  pk = λ r. refl;
  project_id = λ r. refl;
  target_id = λ r. refl;
}
apply_cancel-KeepsOwner false = record {
  pk = λ r. refl;
  project_id = λ r. refl;
  target_id = λ r. refl;
}

has_pk-key : (pk : ℕ) (r : KubernetesRelease) → has_pk pk r ≡ true → r.pk ≡ pk
has_pk-key pk r h = (eqb_iff r.pk pk).0 h

has_active_pk-key : (pk : ℕ) (r : KubernetesRelease) → has_active_pk pk r ≡ true → r.pk ≡ pk
has_active_pk-key pk r h = has_pk-key pk r (&&-eq-true (eqb r.pk pk) (is_active r.status) h).0

-- The transaction that opens a release, for a target of the project.
module _ (owner target_owner : ℕ → ℕ) (targets : ℕ) (t : Releases) (key : ReleaseKey) (project : ℕ)
    (op c : String) (o : OwnedReleases owner target_owner targets t)
    (own : target_owner key.target_id ≡ project) (known : key.target_id < targets) where
  abbrev pub owner' : ℕ → ℕ
  owner' = with_owner owner t.next_pk project

  abbrev pub OpenedFor : ℕ → Opened → Type 0
  OpenedFor other x =
      OwnedReleases owner' target_owner targets x.table
      × (releases_of other x.table.rows ≡ releases_of other t.rows)
      × (owner' x.release.pk ≡ project)

  same-Owned : OwnedReleases owner' target_owner targets t
  same-Owned = record {
    rows =
        imp-All (λ r. (owner r.pk ≡ r.project_id) × (r.pk < t.next_pk))
          (λ r. owner' r.pk ≡ r.project_id) t.rows (λ r h. ground (arith, h.0, h.1))
          (both-All (λ r. owner r.pk ≡ r.project_id) (λ r. r.pk < t.next_pk) t.rows o.rows o.below);
    below = o.below;
    by_target = o.by_target;
    known = o.known;
  }

  created-Owned : OwnedReleases owner' target_owner targets (with_created t key project op c)
  unfolding new_release
  created-Owned = record {
    rows = (ground arith, same-Owned.rows);
    below = (
      omega arith,
      imp-All (λ r. r.pk < t.next_pk) (λ r. r.pk < t.next_pk + 1) t.rows (λ r h. omega (arith, h))
          o.below,
    );
    by_target = (own, o.by_target);
    known = (known, o.known);
  }

  -- An open row of the release is the project's.
  found-project :
      (e : KubernetesRelease) → found t key project op c ≡ some e → owner' e.pk ≡ project
  unfolding is_release
  found-project e h =
      let passes = first_row-passes (λ r. is_release key r && is_open r) t.rows h in
      let target : e.target_id ≡ key.target_id =
        (eqb_iff e.target_id key.target_id).0 (ground (arith, passes)) in
      All-first_row (λ r. owner' r.pk ≡ r.project_id) (λ r. is_release key r && is_open r) t.rows
        same-Owned.rows h
      ∙ sym (
          All-first_row (λ r. target_owner r.target_id ≡ r.project_id)
            (λ r. is_release key r && is_open r) t.rows o.by_target h)
      ∙ ap target_owner target
      ∙ own

  pub open_release-OpenedFor :
      (other : ℕ) → project ≢ other → OpenedFor other (open_release t key project op c)
  unfolding new_release
  open_release-OpenedFor other ne =
      open_release_cases t key project op c (OpenedFor other)
        (λ e h a. (same-Owned, refl, found-project e h))
        (λ e h a. (
          update-Owned owner' target_owner targets t (has_pk e.pk) reset reset-KeepsOwner
              same-Owned,
          update-others owner' target_owner targets t (has_pk e.pk) reset e.pk other
              reset-KeepsOwner (has_pk-key e.pk) (λ q. ne (sym (found-project e h) ∙ q)) same-Owned,
          found-project e h,
        ))
        (λ h. (created-Owned, ground (arith, ne), ground arith))

-- After the backend's answer, or a cancel: an update of the row with one key.
pub finish_release-others :
    (owner target_owner : ℕ → ℕ) (targets : ℕ) (t : Releases) (release : KubernetesRelease)
    (answer : StartAnswer) (other : ℕ)
    → owner release.pk ≢ other
    → OwnedReleases owner target_owner targets t
    → OwnedReleases owner target_owner targets (finish_release t release answer)
      × (releases_of other (finish_release t release answer).rows ≡ releases_of other t.rows)
unfolding finish_release
finish_release-others owner target_owner targets t release answer other ne o =
    let f = apply_answer release answer in
    let keeps = apply_answer-KeepsOwner release answer in
    (
      update-Owned owner target_owner targets t (has_active_pk release.pk) f keeps o,
      update-others owner target_owner targets t (has_active_pk release.pk) f release.pk other keeps
          (has_active_pk-key release.pk) ne o,
    )

pub cancel_release-others :
    (owner target_owner : ℕ → ℕ) (targets : ℕ) (t : Releases) (seen : KubernetesRelease)
    (accepted : Bool) (other : ℕ)
    → is_terminal seen.status ≡ false
    → owner seen.pk ≢ other
    → OwnedReleases owner target_owner targets t
    → OwnedReleases owner target_owner targets (cancel_release t seen accepted)
      × (releases_of other (cancel_release t seen accepted).rows ≡ releases_of other t.rows)
unfolding cancel_release
cancel_release-others owner target_owner targets t seen accepted other active ne o =
    let f = apply_cancel accepted in
    let keeps = apply_cancel-KeepsOwner accepted in
    rw (active, cancel_release)
      (
        update-Owned owner target_owner targets t (has_active_pk seen.pk) f keeps o,
        update-others owner target_owner targets t (has_active_pk seen.pk) f seen.pk other keeps
            (has_active_pk-key seen.pk) ne o,
      )
