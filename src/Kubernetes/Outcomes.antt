-- ===== src/Kubernetes/Outcomes.antt =====
-- The table of targets after a registration, on every outcome.
use django_ops.Common.{
  ◌<◌, ◌≡◌, refl, sym, ap, subst, inl, inr, true, false, String, arith, Bool-cases, Result, ok, err,
  All, any, eqb,
}
use django_ops.Kubernetes.State.{
  KubernetesTarget, TargetValidation, KubernetesError, backend_unavailable, identity_duplicate,
}
use django_ops.Kubernetes.Validation.{ParsedUrl, is_valid}
use django_ops.Kubernetes.Targets.{
  Targets, Registration, same_identity, target_row, checked_row, ValidateAnswer, validated,
  unreachable, without_pk, settle_target, register_target,
}
use django_ops.Kubernetes.Registering.{
  FreshKey, added, checked_row-Checked, create_row-ok, again, register_target_cases, without-fresh,
}

abbrev Answer : Type 0
Answer = Targets × Result KubernetesError KubernetesTarget

checked_row-pk :
    (urlparse : String → ParsedUrl) (t : Targets) (a : Registration) (r : KubernetesTarget)
    → checked_row urlparse t a ≡ ok r
    → r.pk ≡ t.next_pk
unfolding target_row
checked_row-pk urlparse t a r h =
    ap (λ (x : KubernetesTarget). x.pk) (checked_row-Checked urlparse t a r h).row

settle-undone :
    (t : Targets) (r : KubernetesTarget) (v : TargetValidation)
    → FreshKey t
    → r.pk ≡ t.next_pk
    → is_valid v ≡ false
    → (settle_target (added t r) r (validated v)).0.rows ≡ t.rows
unfolding settle_target without_pk
settle-undone t r v fresh new e =
    let own : eqb r.pk r.pk ≡ true = ground arith in
    rw (e, own)
      (without-fresh r.pk t.rows
        (subst (λ k. All (λ (x : KubernetesTarget). x.pk < k) t.rows) (sym new) fresh))

-- Where the keys of the rows are below the next one, a registration that raises although the backend
-- returned from its validation leaves the rows as they were.
pub register_target-undone :
    (urlparse : String → ParsedUrl) (t : Targets) (a : Registration) (v : TargetValidation)
    (e : KubernetesError)
    → FreshKey t
    → (register_target urlparse t a (validated v)).1 ≡ err e
    → (register_target urlparse t a (validated v)).0.rows ≡ t.rows
unfolding settle_target
register_target-undone urlparse t a v e fresh =
    register_target_cases urlparse t a (validated v)
      (λ (x : Answer). x.1 ≡ err e → x.0.rows ≡ t.rows) (λ x h. refl)
      (λ r h free. elim (Bool-cases (is_valid v)) [
        | inl k ↦ rw k (λ bad. cc)
        | inr k ↦ λ bad. settle-undone t r v fresh (checked_row-pk urlparse t a r h) k
      ])

-- Where the checks of a registration pass with a row whose identity is free, but the backend raises
-- `RuntimeError`, the call raises it and leaves the row in the table; every registration with the same
-- arguments is from then on refused as a duplicate and changes nothing.
pub register_target-stuck :
    (urlparse : String → ParsedUrl) (t : Targets) (a : Registration) (r : KubernetesTarget)
    → checked_row urlparse t a ≡ ok r
    → any (same_identity r) t.rows ≡ false
    → (register_target urlparse t a unreachable ≡ (added t r, err backend_unavailable))
      × ((answer : ValidateAnswer)
          → register_target urlparse (added t r) a answer ≡ (added t r, err identity_duplicate))
unfolding settle_target register_target
register_target-stuck urlparse t a r h free =
    (rw (h, create_row-ok t r free, register_target) refl, λ answer. again urlparse t a r answer h)
