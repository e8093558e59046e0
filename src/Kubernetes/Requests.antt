-- ===== src/Kubernetes/Requests.antt =====
-- What the request to the agent says that a start of a release sends.
use django_ops.Common.{
  ℕ, ◌≡◌, refl, sym, subst, inl, inr, Bool, true, ◌&&◌, List, [], ◌∷◌, any, eqb, eq_refl, some,
  String, ◌==◌, arith, Bool-cases, Result, ok, eq_iff,
}
use django_ops.Common.Dict.{Dict}
use django_ops.Common.Text.{codes}
use django_ops.Kubernetes.State.{
  KubernetesTarget, KubernetesRelease, Releases, ReleaseRequest, KubernetesError, is_active,
}
use django_ops.Kubernetes.Validation.{matches_digest_image}
use django_ops.Kubernetes.Releases.{
  ReleaseKey, is_release, is_open, first_row, update_rows, has_pk, reset, new_release, Opened,
  open_release, Begun, begin_release, compatibility_of, release_request,
}
use django_ops.Kubernetes.Uniqueness.{open_release_cases}
use django_ops.Kubernetes.Starting.{key_of, begun, begin_release-Started}

-- An active row with the operation id.
abbrev pub is_active_for : String → KubernetesRelease → Bool
is_active_for op r = r.operation_id == op && is_active r.status

-- The row that a query finds is active once it is reset.
reset-active :
    (p : KubernetesRelease → Bool) (rows : List KubernetesRelease) (e : KubernetesRelease)
    → first_row p rows ≡ some e
    → any (is_active_for e.operation_id) (update_rows (has_pk e.pk) reset rows) ≡ true
unfolding first_row update_rows is_active
reset-active p [] e h = cc
reset-active p (r ∷ rs) e h = elim (Bool-cases (p r)) [
  | inl k ↦
      let same : r ≡ e = ground arith in
      subst
        (λ (x : KubernetesRelease).
          any (is_active_for x.operation_id) (update_rows (has_pk x.pk) reset (r ∷ rs)) ≡ true)
        same
        (let own : eqb r.pk r.pk ≡ true = ground arith in rw (own, eq_refl r.operation_id) refl)
  | inr k ↦ let rest = reset-active p rs e (rw k at h) in ground arith
]

dispatched-active :
    (t : Releases) (key : ReleaseKey) (p : ℕ) (op c : String)
    → (open_release t key p op c).dispatch ≡ true
    → any
        (is_active_for (open_release t key p op c).release.operation_id)
        (open_release t key p op c).table.rows
      ≡ true
unfolding is_active new_release
dispatched-active t key p op c =
    open_release_cases t key p op c
      (λ (o : Opened).
        o.dispatch ≡ true → any (is_active_for o.release.operation_id) o.table.rows ≡ true)
      (λ e h a d. cc) (λ e h a d. reset-active (λ r. is_release key r && is_open r) t.rows e h)
      (λ e d. rw (eq_refl op) refl)

some-injective : {p q : ReleaseRequest} → some p ≡ some q → p ≡ q
some-injective h = cc

allow-safe :
    (target : KubernetesTarget) (r : KubernetesRelease) (image values c : String)
    → (release_request target r image values c).rollback_policy ≡ "allow"
    → c ≡ "safe"
unfolding release_request
allow-safe target r image values c h = elim (Bool-cases (c == "safe")) [
  | inl e ↦ ground (arith, eq_iff c "safe")
  | inr e ↦ ground (arith, eq_iff "block-after-migration" "allow", h, e)
]

-- What a request says of the release that it is sent for.
pub record Sends {ℓ} {J : Type ℓ} (sanitize : Dict J → Result KubernetesError (Dict J))
    (dumps : Dict J → String) (str : J → String) (values : Dict J) (o : Opened) (q : ReleaseRequest)
    : Type ℓ where
  pub clean : Dict J
  pub sanitized : sanitize values ≡ ok clean
  pub values_json : q.values_json ≡ dumps clean
  pub immutable : matches_digest_image (codes q.image) ≡ true
  pub operation_id : q.operation_id ≡ o.release.operation_id
  pub active : any (is_active_for q.operation_id) o.table.rows ≡ true
  pub allowed : q.rollback_policy ≡ "allow" → compatibility_of str clean ≡ "safe"

module _ {ℓ} {J : Type ℓ} (sanitize : Dict J → Result KubernetesError (Dict J)) where
  module _ (dumps : Dict J → String) (sha256 : String → String) (str : J → String) where
    begun-Sends :
        (target : KubernetesTarget) (image : String) (values clean : Dict J) (o : Opened)
        (q : ReleaseRequest)
        → sanitize values ≡ ok clean
        → matches_digest_image (codes image) ≡ true
        → (o.dispatch ≡ true → any (is_active_for o.release.operation_id) o.table.rows ≡ true)
        → (begun sanitize dumps sha256 str o target image clean).request ≡ some q
        → Sends sanitize dumps str values o q
    unfolding release_request
    begun-Sends target image values clean o q s i active r = elim (Bool-cases o.dispatch) [
      | inr d ↦ cc (rw d at r)
      | inl d ↦
          let sent : some
                (release_request target o.release image (dumps clean) (compatibility_of str clean))
              ≡ some q =
            rw d at r in
          subst (Sends sanitize dumps str values o) (some-injective sent) (record {
            clean = clean;
            sanitized = s;
            values_json = refl;
            immutable = i;
            operation_id = refl;
            active = active d;
            allowed = allow-safe target o.release image (dumps clean) (compatibility_of str clean);
          })
    ]

-- Where a start asks the backend, the request that it is handed carries an image with a digest, the encoding of
-- the sanitized values and the operation id of the release, and a row of the table with this operation id is
-- active; an automatic rollback is allowed only where the sanitized values say that the migration is safe. (The
-- backend that controlplane/kubernetes_observability.py installs adds the correlation id to the values.)
pub begin_release-request {ℓ} :
    {J : Type ℓ} (sanitize : Dict J → Result KubernetesError (Dict J)) (dumps : Dict J → String)
    (sha256 : String → String) (str : J → String) (t : Releases) (target : KubernetesTarget)
    (image : String) (values : Dict J) (chart op : String) (b : Begun) (q : ReleaseRequest)
    → begin_release sanitize dumps sha256 str t target image values chart op ≡ ok b
    → b.request ≡ some q
    → Sends sanitize dumps str values b.opened q
begin_release-request sanitize dumps sha256 str t target image values chart op b q h asked =
    let s = begin_release-Started sanitize dumps sha256 str t target image values chart op b h in
    let c = compatibility_of str s.clean in
    let key = key_of sanitize dumps sha256 str target image chart s.clean in
    subst (λ (x : Begun). x.request ≡ some q → Sends sanitize dumps str values x.opened q)
      (sym s.result)
      (begun-Sends sanitize dumps sha256 str target image values s.clean
        (open_release t key target.project_id op c) q s.sanitized s.immutable
        (dispatched-active t key target.project_id op c))
      asked
