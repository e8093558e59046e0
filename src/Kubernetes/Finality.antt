-- ===== src/Kubernetes/Finality.antt =====
-- Rows of releases that are over, through every interleaving of events.
use django_ops.Common.{
  ℕ, ◌≡◌, inl, inr, Bool, true, false, some, List, [], ◌∷◌, String, arith, Bool-cases,
}
use django_ops.Kubernetes.State.{KubernetesRelease, Releases, is_terminal}
use django_ops.Kubernetes.Releases.{
  ReleaseKey, is_open, first_row, update_rows, has_pk, has_active_pk, set_rows, Opened,
  open_release, finish_release, cancel_release,
}
use django_ops.Kubernetes.Events.{Event, opens, finishes, cancels, step, run, IsValid}
use django_ops.Kubernetes.Rows.{
  KeepsKey, All-first_row, first_row-Below, first_row_unique, first_row-update,
}
use django_ops.Kubernetes.Uniqueness.{
  open_release_cases, found, found-open, created-pk, reset-KeepsKey, apply_answer-KeepsKey,
  apply_cancel-KeepsKey, step-IsValid,
}

module _ (r : KubernetesRelease) (over : is_open r ≡ false) where
  abbrev Kept : Releases → Type 0
  Kept t = first_row (has_pk r.pk) t.rows ≡ some r

  update-Kept :
      (t : Releases) (p : KubernetesRelease → Bool) {f : KubernetesRelease → KubernetesRelease}
      → KeepsKey f
      → p r ≡ false
      → Kept t
      → Kept (set_rows t (update_rows p f t.rows))
  update-Kept t p keeps off k = ground (arith, k, first_row-update r.pk p keeps t.rows)

  not_active : (pk : ℕ) → has_active_pk pk r ≡ false
  unfolding is_open
  not_active pk = ground arith

  -- The open row that a query found has another key.
  other_pk :
      (t : Releases) (key : ReleaseKey) (p : ℕ) (op c : String) (e : KubernetesRelease)
      → found t key p op c ≡ some e
      → IsValid t
      → Kept t
      → has_pk e.pk r ≡ false
  other_pk t key p op c e h v k = elim (Bool-cases (has_pk e.pk r)) [
    | inl same ↦
        let equal : r ≡ e =
          All-first_row (λ x. has_pk e.pk x ≡ true → x ≡ e) (has_pk r.pk) t.rows
            (first_row_unique _ t.next_pk t.rows h v.distinct) k same in
        let open_too = found-open t key p op c e h in cc
    | inr differ ↦ differ
  ]

  open_release-Kept :
      (t : Releases) (key : ReleaseKey) (p : ℕ) (op c : String)
      → IsValid t
      → Kept t
      → Kept (open_release t key p op c).table
  unfolding first_row
  open_release-Kept t key p op c v k =
      open_release_cases t key p op c (λ (o : Opened). Kept o.table) (λ e h a. k)
        (λ e h a. update-Kept t (has_pk e.pk) reset-KeepsKey (other_pk t key p op c e h v k) k)
        (λ e. ground (
          arith,
          k,
          created-pk t key p op c,
          first_row-Below (has_pk r.pk) t.next_pk t.rows k v.distinct,
        ))

  step-Kept : (t : Releases) (e : Event) → IsValid t → Kept t → Kept (step t e)
  unfolding step finish_release cancel_release
  step-Kept t (opens key p op c) v k = open_release-Kept t key p op c v k
  step-Kept t (finishes release a) v k =
      update-Kept t (has_active_pk release.pk) (apply_answer-KeepsKey release a)
        (not_active release.pk) k
  step-Kept t (cancels seen accepted) v k = elim (Bool-cases (is_terminal seen.status)) [
    | inl e ↦ rw e k
    | inr e ↦ rw e (
        update-Kept t (has_active_pk seen.pk) (apply_cancel-KeepsKey accepted) (not_active seen.pk)
          k)
  ]

-- In a valid table, a release that is neither active nor failed with a recoverable error is afterwards
-- the same row, whatever starts, answers and cancellations follow and in whatever order.
pub closed_final :
    (es : List Event) (t : Releases) (r : KubernetesRelease)
    → IsValid t
    → is_open r ≡ false
    → first_row (has_pk r.pk) t.rows ≡ some r
    → first_row (has_pk r.pk) (run t es).rows ≡ some r
unfolding run
closed_final [] t r v over k = k
closed_final (e ∷ es) t r v over k =
    closed_final es (step t e) r (step-IsValid t e v) over (step-Kept r over t e v k)
