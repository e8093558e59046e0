-- ===== src/Kubernetes/Rows.antt =====
-- The queries and updates of the table of releases: what they find and what they leave alone.
use mathlib.Core.Option
use django_ops.Common.{
  ℕ, ◌≤◌, ◌<◌, ◌≡◌, refl, sym, ap, subst, inl, inr, Bool, true, some, List, [], ◌∷◌, arith,
  if◌then◌else◌, Bool-cases, All,
}
use django_ops.Kubernetes.State.{KubernetesRelease}
use django_ops.Kubernetes.Releases.{ReleaseKey, is_release, is_open, first_row, update_rows, has_pk}
use django_ops.Kubernetes.Events.{Below, count_open}

-- The updates leave what identifies a row and its release.
pub record KeepsKey (f : KubernetesRelease → KubernetesRelease) : Type 0 where
  pub pk : (r : KubernetesRelease) → (f r).pk ≡ r.pk
  pub release : (key : ReleaseKey) (r : KubernetesRelease) → is_release key (f r) ≡ is_release key r

pub Below-update :
    (p : KubernetesRelease → Bool) {f : KubernetesRelease → KubernetesRelease} (keeps : KeepsKey f)
    (n : ℕ) (rows : List KubernetesRelease)
    → Below n rows
    → Below n (update_rows p f rows)
unfolding update_rows
Below-update p keeps n [] b = tt
Below-update p {f} keeps n (r ∷ rs) b = elim (Bool-cases (p r)) [
  | inl e ↦ rw e (
    subst (λ k. k < n) (sym (keeps.pk r)) b.0,
    subst (λ k. Below k (update_rows p f rs)) (sym (keeps.pk r)) (Below-update p keeps r.pk rs b.1),
  )
  | inr e ↦ rw e (b.0, Below-update p keeps r.pk rs b.1)
]

-- An update of open rows opens none.
pub count-update-le :
    (p : KubernetesRelease → Bool) {f : KubernetesRelease → KubernetesRelease} (keeps : KeepsKey f)
    (key : ReleaseKey) (rows : List KubernetesRelease)
    → All (λ r. p r ≡ true → is_open r ≡ true) rows
    → count_open key (update_rows p f rows) ≤ count_open key rows
unfolding update_rows count_open
count-update-le p keeps key [] a = omega arith
count-update-le p keeps key (r ∷ rs) a =
    ground (arith, a.0, keeps.release key r, count-update-le p keeps key rs a.1)

pub first_row-Below :
    (p : KubernetesRelease → Bool) (n : ℕ) (rows : List KubernetesRelease) {e : KubernetesRelease}
    → first_row p rows ≡ some e
    → Below n rows
    → e.pk < n
unfolding first_row
first_row-Below p n [] h b = cc
first_row-Below p n (r ∷ rs) {e} h b = elim (Bool-cases (p r)) [
  | inl t ↦ let same : r ≡ e = ground arith in subst (λ (x : KubernetesRelease). x.pk < n) same b.0
  | inr t ↦ omega (arith, first_row-Below p r.pk rs {e = e} (rw t at h) b.1, b.0)
]

pub first_row-passes :
    (p : KubernetesRelease → Bool) (rows : List KubernetesRelease) {e : KubernetesRelease}
    → first_row p rows ≡ some e
    → p e ≡ true
unfolding first_row
first_row-passes p [] h = cc
first_row-passes p (r ∷ rs) {e} h = elim (Bool-cases (p r)) [
  | inl t ↦ subst (λ x. p x ≡ true) (ground arith) t
  | inr t ↦ first_row-passes p rs (rw t at h)
]

pub All-first_row {κ} :
    (P : KubernetesRelease → Type κ) (p : KubernetesRelease → Bool) (rows : List KubernetesRelease)
    {e : KubernetesRelease}
    → All P rows
    → first_row p rows ≡ some e
    → P e
unfolding first_row
All-first_row P p [] a h = cc
All-first_row P p (r ∷ rs) {e} a h = elim (Bool-cases (p r)) [
  | inl t ↦ subst P (ground arith) a.0
  | inr t ↦ All-first_row P p rs a.1 (rw t at h)
]

All-Below : (n : ℕ) (rows : List KubernetesRelease) → Below n rows → All (λ r. r.pk < n) rows
All-Below n [] b = tt
All-Below n (r ∷ rs) b = (b.0, weaken rs (All-Below r.pk rs b.1))
  where
    weaken : (xs : List KubernetesRelease) → All (λ x. x.pk < r.pk) xs → All (λ x. x.pk < n) xs
    weaken [] a = tt
    weaken (x ∷ xs) a = (omega (arith, a.0, b.0), weaken xs a.1)

-- A row that a query found is the only one with its key.
pub first_row_unique :
    (p : KubernetesRelease → Bool) (n : ℕ) (rows : List KubernetesRelease) {e : KubernetesRelease}
    → first_row p rows ≡ some e
    → Below n rows
    → All (λ r. has_pk e.pk r ≡ true → r ≡ e) rows
unfolding first_row
first_row_unique p n [] h b = tt
first_row_unique p n (r ∷ rs) {e} h b = elim (Bool-cases (p r)) [
  | inl t ↦ ((λ same. ground arith), below rs (All-Below r.pk rs b.1) (ground arith))
  | inr t ↦ (
    (λ same. ground (arith, first_row-Below p r.pk rs {e = e} (rw t at h) b.1)),
    first_row_unique p r.pk rs (rw t at h) b.1,
  )
]
  where
    below :
        (xs : List KubernetesRelease)
        → All (λ x. x.pk < r.pk) xs
        → r ≡ e
        → All (λ x. has_pk e.pk x ≡ true → x ≡ e) xs
    below [] a same = tt
    below (x ∷ xs) a same = ((λ k. ground (arith, a.0, ap (λ y. y.pk) same)), below xs a.1 same)

pub first_row-update :
    (k : ℕ) (p : KubernetesRelease → Bool) {f : KubernetesRelease → KubernetesRelease}
    (keeps : KeepsKey f) (rows : List KubernetesRelease)
    → first_row (has_pk k) (update_rows p f rows)
      ≡ Option.map (λ r. if p r then f r else r) (first_row (has_pk k) rows)
unfolding first_row update_rows
first_row-update k p keeps [] = refl
first_row-update k p keeps (r ∷ rs) = ground (arith, keeps.pk r, first_row-update k p keeps rs)
