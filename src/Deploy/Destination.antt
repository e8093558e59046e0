-- ===== src/Deploy/Destination.antt =====
-- What ssh takes the destination of a validated target for.
use Prim.Native.Char.{code}
use Prim.Native.String.{◌++◌}
use Prim.Native.String.append
use django_ops.Common.{
  ◌≡◌, sym, subst, inl, inr, Bool, true, false, not, ◌&&◌, ◌||◌, String, arith, eqb, leb,
  Bool-cases, Result-cases, ok,
}
use django_ops.Common.Text.{codes, starts_with, occurs}
use django_ops.Deploy.Targets.{
  matches_host, matches_user, DeploymentTarget, create, destination, is_missing,
  validate_remote_base,
}

user_no_dash :
    (user rest : String)
    → matches_user (codes user) ≡ true
    → starts_with (codes "-") (codes (user ++ rest)) ≡ false
unfolding matches_user starts_with
user_no_dash String.[] rest h = cc
user_no_dash (String.◌∷◌ c s) rest h =
    let first : (eqb b'-' (code c) && true) ≡ false = ground arith in
    subst (λ (x : String). starts_with (codes "-") (codes x) ≡ false) (sym (append.cons c s rest))
      first

-- What an accepted target has passed, as far as the user goes.
create-eq-ok :
    (is_file : String → Bool) (t t' : DeploymentTarget)
    → create is_file t ≡ ok t'
    → (matches_user (codes t.user) ≡ true) × (t' ≡ t)
unfolding create
create-eq-ok is_file t t' h =
    elim (Bool-cases (
      not (matches_host (codes t.host))
      || occurs (codes "..") (codes t.host)
      || starts_with (codes "-") (codes t.host))) [
        | inl e ↦ cc (rw e at h)
        | inr e ↦
            elim (Bool-cases
              (not (matches_user (codes t.user)) || starts_with (codes "-") (codes t.user))) [
                | inl u ↦ cc (rw (e, u) at h)
                | inr u ↦ elim (Bool-cases (not (leb 1 t.port && leb t.port 65535))) [
                  | inl q ↦ cc (rw (e, u, q) at h)
                  | inr q ↦ elim (Result-cases (validate_remote_base t.remote_base)) [
                    | inr (x, b) ↦ cc (rw (e, u, q, b) at h)
                    | inl (x, b) ↦ elim (Bool-cases (is_missing is_file t.identity_file)) [
                      | inl i ↦ cc (rw (e, u, q, b, i) at h)
                      | inr i ↦ (ground (arith, u), cc (rw (e, u, q, b, i) at h))
                    ]
                  ]
                ]
              ]
      ]

-- Where the target is accepted, ssh cannot read its destination argument as an option: the argument
-- does not start with a dash.
pub destination_no_option :
    (is_file : String → Bool) (t t' : DeploymentTarget)
    → create is_file t ≡ ok t'
    → starts_with (codes "-") (codes (destination t')) ≡ false
unfolding destination
destination_no_option is_file t t' h =
    let (passed, same) = create-eq-ok is_file t t' h in
    subst (λ (x : DeploymentTarget). starts_with (codes "-") (codes (destination x)) ≡ false)
      (sym same) (user_no_dash t.user ("@" ++ t.host) passed)
