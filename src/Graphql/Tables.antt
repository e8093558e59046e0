-- ===== src/Graphql/Tables.antt =====
-- Writes to rows of one project leave the rows of the others: the writes of controlplane/services.py and
-- controlplane/kubernetes.py, table by table.
use django_ops.Common.{
  ℕ, zero, suc, ◌<◌, ◌≡◌, ◌≢◌, refl, ap, inl, inr, Bool, true, ◌&&◌, List, [], ◌∷◌, arith, eqb,
  eqb_iff, keep, drop, All, if◌then◌else◌, Bool-cases,
}
use django_ops.Diagnostics.State.{Status, Operation, update_where, has_pk, delete_pks, pks}
use django_ops.Diagnostics.Service.{in_history}
use django_ops.Kubernetes.State.{KubernetesTarget, KubernetesRelease}
use django_ops.Kubernetes.Targets.{mark_validated}
use django_ops.Kubernetes.Releases.{update_rows}

-- What holds of all rows and implies something else of each.
pub imp-All {ℓ κ} :
    {A : Type ℓ} (P Q : A → Type κ) (xs : List A) → ((x : A) → P x → Q x) → All P xs → All Q xs
imp-All P Q [] h a = tt
imp-All P Q (x ∷ xs) h a = (h x a.0, imp-All P Q xs h a.1)

pub both-All {ℓ κ} :
    {A : Type ℓ} (P Q : A → Type κ) (xs : List A) → All P xs → All Q xs → All (λ x. P x × Q x) xs
both-All P Q [] a b = tt
both-All P Q (x ∷ xs) a b = ((a.0, b.0), both-All P Q xs a.1 b.1)

-- `filter(pk=...).update(...)` of operations
module _ (other pk : ℕ) (guard : Status → Bool) (f : Operation → Operation) where
  pub keep-update_where :
      (rows : List Operation)
      → ((r : Operation) → (f r).project_id ≡ r.project_id)
      → All (λ r. r.pk ≡ pk → r.project_id ≢ other) rows
      → keep (λ r. eqb r.project_id other) (update_where pk guard f rows)
        ≡ keep (λ r. eqb r.project_id other) rows
  unfolding update_where
  keep-update_where [] same off = refl
  keep-update_where (r ∷ rs) same off =
      ground (arith, same r, off.0, keep-update_where rs same off.1)

  pub All-update_where {κ} :
      (P : Operation → Type κ) (rows : List Operation)
      → ((r : Operation) → P r → P (f r))
      → All P rows
      → All P (update_where pk guard f rows)
  unfolding update_where
  All-update_where P [] h a = tt
  All-update_where P (r ∷ rs) h a = elim (Bool-cases (eqb r.pk pk && guard r.status)) [
    | inl e ↦ rw e (h r a.0, All-update_where P rs h a.1)
    | inr e ↦ rw e (a.0, All-update_where P rs h a.1)
  ]

-- `filter(pk__in=...).delete()`
pub keep-delete_pks :
    (other : ℕ) (ids : List ℕ) (rows : List Operation)
    → All (λ r. has_pk r.pk ids ≡ true → r.project_id ≢ other) rows
    → keep (λ r. eqb r.project_id other) (delete_pks ids rows)
      ≡ keep (λ r. eqb r.project_id other) rows
unfolding delete_pks
keep-delete_pks other ids [] off = refl
keep-delete_pks other ids (r ∷ rs) off = ground (arith, off.0, keep-delete_pks other ids rs off.1)

pub All-delete_pks {κ} :
    (P : Operation → Type κ) (ids : List ℕ) (rows : List Operation)
    → All P rows
    → All P (delete_pks ids rows)
unfolding delete_pks
All-delete_pks P ids [] a = tt
All-delete_pks P ids (r ∷ rs) a = elim (Bool-cases (has_pk r.pk ids)) [
  | inl e ↦ rw e (All-delete_pks P ids rs a.1)
  | inr e ↦ rw e (a.0, All-delete_pks P ids rs a.1)
]

-- Keys that are deleted to trim a project are owned by it.
pub has_pk-drop : (pk n : ℕ) (ids : List ℕ) → has_pk pk (drop n ids) ≡ true → has_pk pk ids ≡ true
unfolding has_pk
has_pk-drop pk zero ids h = h
has_pk-drop pk (suc n) [] h = h
has_pk-drop pk (suc n) (q ∷ qs) h = ground (arith, has_pk-drop pk n qs h)

pub has_pk-history :
    (owner : ℕ → ℕ) (project pk : ℕ) (rows : List Operation)
    → All (λ r. owner r.pk ≡ r.project_id) rows
    → has_pk pk (pks (keep (in_history project) rows)) ≡ true
    → owner pk ≡ project
unfolding has_pk in_history
has_pk-history owner project pk [] a h = cc
has_pk-history owner project pk (r ∷ rs) a h = elim (Bool-cases (in_history project r)) [
  | inl e ↦
      let asked : (if eqb r.pk pk then true else has_pk pk (pks (keep (in_history project) rs)))
          ≡ true =
        rw (e, has_pk) at h in
      elim (Bool-cases (eqb r.pk pk)) [
        | inl same ↦ ground (arith, a.0, e, same, ap owner ((eqb_iff r.pk pk).0 same))
        | inr differ ↦ has_pk-history owner project pk rs a.1 (rw differ at asked)
      ]
  | inr e ↦ has_pk-history owner project pk rs a.1 (rw e at h)
]

-- rows of targets
pub mark-fresh :
    (pk : ℕ) (rows : List KubernetesTarget)
    → All (λ r. r.pk < pk) rows
    → mark_validated pk rows ≡ rows
unfolding mark_validated
mark-fresh pk [] a = refl
mark-fresh pk (r ∷ rs) a = ground (arith, a.0, mark-fresh pk rs a.1)

-- rows of releases
module _ (p : KubernetesRelease → Bool) (f : KubernetesRelease → KubernetesRelease) where
  pub keep-update_rows :
      (other : ℕ) (rows : List KubernetesRelease)
      → ((r : KubernetesRelease) → (f r).project_id ≡ r.project_id)
      → All (λ r. p r ≡ true → r.project_id ≢ other) rows
      → keep (λ r. eqb r.project_id other) (update_rows p f rows)
        ≡ keep (λ r. eqb r.project_id other) rows
  unfolding update_rows
  keep-update_rows other [] same off = refl
  keep-update_rows other (r ∷ rs) same off =
      ground (arith, same r, off.0, keep-update_rows other rs same off.1)

  pub All-update_rows {κ} :
      (P : KubernetesRelease → Type κ) (rows : List KubernetesRelease)
      → ((r : KubernetesRelease) → P r → P (f r))
      → All P rows
      → All P (update_rows p f rows)
  unfolding update_rows
  All-update_rows P [] h a = tt
  All-update_rows P (r ∷ rs) h a = elim (Bool-cases (p r)) [
    | inl e ↦ rw e (h r a.0, All-update_rows P rs h a.1)
    | inr e ↦ rw e (a.0, All-update_rows P rs h a.1)
  ]
