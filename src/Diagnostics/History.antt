-- ===== src/Diagnostics/History.antt =====
-- `_trim_history` against a one-pass specification: the newest rows of a project's history stay.
use django_ops.Common.{
  ℕ, zero, suc, ◌≤◌, ◌≡◌, refl, Bool, false, List, [], ◌∷◌, arith, if◌then◌else◌, drop, keep,
  Bool-cases, inl, inr, length,
}
use django_ops.Diagnostics.State.{Operation, Table, has_pk, delete_pks, pks}
use django_ops.Diagnostics.Service.{in_history, trim_rows, trim_history, max_history_per_project}

-- The first `n` rows of the history, and every row that is not of it.
unfoldable pub keep_newest : ℕ → (Operation → Bool) → List Operation → List Operation
keep_newest n history [] = []
keep_newest zero history (r ∷ rs) =
    let rest = keep_newest zero history rs in if history r then rest else r ∷ rest
keep_newest (suc n) history (r ∷ rs) =
    let later = keep_newest n history rs in
    let same = keep_newest (suc n) history rs in r ∷ (if history r then later else same)

-- No key stands twice.
abbrev pub DistinctKeys : List Operation → Type 0
DistinctKeys [] = Unit
DistinctKeys (r ∷ rs) = (has_pk r.pk (pks rs) ≡ false) × DistinctKeys rs

module _ (history : Operation → Bool) where
  has_pk-keep :
      (k : ℕ) (rs : List Operation)
      → has_pk k (pks rs) ≡ false
      → has_pk k (pks (keep history rs)) ≡ false
  unfolding has_pk
  has_pk-keep k [] h = refl
  has_pk-keep k (r ∷ rs) h = ground (arith, has_pk-keep k rs)

  has_pk-drop : (k n : ℕ) (ids : List ℕ) → has_pk k ids ≡ false → has_pk k (drop n ids) ≡ false
  unfolding has_pk
  has_pk-drop k zero ids h = h
  has_pk-drop k (suc n) [] h = h
  has_pk-drop k (suc n) (i ∷ ids) h = has_pk-drop k n ids (ground arith)

  -- a key that no row has
  delete_pks-cons :
      (k : ℕ) (ids : List ℕ) (rs : List Operation)
      → has_pk k (pks rs) ≡ false
      → delete_pks (k ∷ ids) rs ≡ delete_pks ids rs
  unfolding has_pk delete_pks
  delete_pks-cons k ids [] h = refl
  delete_pks-cons k ids (r ∷ rs) h = ground (arith, delete_pks-cons k ids rs)

  delete_stale :
      (n : ℕ) (rs : List Operation)
      → DistinctKeys rs
      → delete_pks (drop n (pks (keep history rs))) rs ≡ keep_newest n history rs
  unfolding delete_pks keep_newest has_pk
  delete_stale zero [] d = refl
  delete_stale (suc n) [] d = refl
  delete_stale zero (r ∷ rs) d = elim (Bool-cases (history r)) [
    | inl old ↦
        ground
          (arith, delete_stale zero rs d.1, delete_pks-cons r.pk (pks (keep history rs)) rs d.0)
    | inr other ↦ ground (arith, delete_stale zero rs d.1, has_pk-keep r.pk rs d.0)
  ]
  delete_stale (suc n) (r ∷ rs) d = elim (Bool-cases (history r)) [
    | inl old ↦ ground (
      arith,
      delete_stale n rs d.1,
      has_pk-drop r.pk n (pks (keep history rs)),
      has_pk-keep r.pk rs d.0,
    )
    | inr other ↦ ground (
      arith,
      delete_stale (suc n) rs d.1,
      has_pk-drop r.pk (suc n) (pks (keep history rs)),
      has_pk-keep r.pk rs d.0,
    )
  ]

  length-keep_newest :
      (n : ℕ) (rs : List Operation) → length (keep history (keep_newest n history rs)) ≤ n
  unfolding keep_newest
  length-keep_newest zero [] = omega arith
  length-keep_newest (suc n) [] = omega arith
  length-keep_newest zero (r ∷ rs) = ground (arith, length-keep_newest zero rs)
  length-keep_newest (suc n) (r ∷ rs) =
      ground (arith, length-keep_newest n rs, length-keep_newest (suc n) rs)

-- Where no key stands twice, `_trim_history` keeps exactly the 200 newest rows of the project that are
-- neither pending nor running, and every other row, in their order; so at most 200 such rows are left.
pub trim_history-eq-keep_newest :
    (t : Table) (project : ℕ)
    → DistinctKeys t.rows
    → ((trim_history t project).rows
        ≡ keep_newest max_history_per_project (in_history project) t.rows)
      × (length (keep (in_history project) (trim_history t project).rows) ≤ max_history_per_project)
unfolding trim_history trim_rows
trim_history-eq-keep_newest t project d =
    let e = delete_stale (in_history project) max_history_per_project t.rows d in
    (e, rw e (length-keep_newest (in_history project) max_history_per_project t.rows))
