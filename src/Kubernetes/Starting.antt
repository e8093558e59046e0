-- ===== src/Kubernetes/Starting.antt =====
-- What a start of a release has checked and done when it asks the backend.
use django_ops.Common.{
  ℕ, ◌≡◌, refl, sym, ap, ◌∙◌, subst, inl, inr, Bool, true, false, ◌&&◌, ◌||◌, Option, none, some,
  List, [], ◌∷◌, String, ◌==◌, arith, if◌then◌else◌, Bool-cases, Result-cases, Result, ok, eqb,
  eq_refl,
}
use django_ops.Common.Dict.{Dict}
use django_ops.Common.Text.{codes}
use django_ops.Kubernetes.State.{
  KubernetesTarget, KubernetesRelease, Releases, KubernetesError, is_active, is_succeeded,
}
use django_ops.Kubernetes.Validation.{validate_image, matches_digest_image}
use django_ops.Kubernetes.Releases.{
  ReleaseKey, is_release, is_open, first_row, update_rows, has_pk, reset, new_release, Opened,
  open_release, Begun, begin_release, digest_of, set_rows, compatibility_of, release_request,
}
use django_ops.Kubernetes.Events.{Below, IsValid}
use django_ops.Kubernetes.Rows.{first_row-Below, first_row-passes}
use django_ops.Kubernetes.Uniqueness.{open_release_cases, found, created, with_created}

module _ {ℓ} {J : Type ℓ} (sanitize : Dict J → Result KubernetesError (Dict J)) where
  module _ (dumps : Dict J → String) (sha256 : String → String) (str : J → String) where
    abbrev pub key_of : KubernetesTarget → String → String → Dict J → ReleaseKey
    key_of target image chart_version clean = record {
      target_id = target.pk;
      image = image;
      chart_version = chart_version;
      values_digest = digest_of dumps sha256 clean;
    }

    abbrev pub begun : Opened → KubernetesTarget → String → Dict J → Begun
    begun opened target image clean = record {
      opened = opened;
      request =
          if opened.dispatch
          then some (
              release_request target opened.release image (dumps clean)
                (compatibility_of str clean))
          else none;
    }

    -- What holds where `begin_release` has not raised.
    pub record Started (t : Releases) (target : KubernetesTarget) (image : String) (values : Dict J)
        (chart op : String) (b : Begun) : Type ℓ where
      pub clean : Dict J
      pub sanitized : sanitize values ≡ ok clean
      pub immutable : matches_digest_image (codes image) ≡ true
      pub compatible :
          (compatibility_of str clean == "safe" || compatibility_of str clean == "unknown") ≡ true
      pub result :
          b
          ≡ begun
              (open_release t
                (key_of target image chart clean)
                target.project_id
                op
                (compatibility_of str clean))
              target
              image
              clean

    pub begin_release-Started :
        (t : Releases) (target : KubernetesTarget) (image : String) (values : Dict J)
        (chart op : String) (b : Begun)
        → begin_release sanitize dumps sha256 str t target image values chart op ≡ ok b
        → Started t target image values chart op b
    unfolding begin_release validate_image
    begin_release-Started t target image values chart op b h =
        elim (Result-cases (sanitize values)) [
          | inr (e, s) ↦ cc (rw s at h)
          | inl (clean, s) ↦ elim (Bool-cases (matches_digest_image (codes image))) [
            | inr i ↦ cc (rw (s, i) at h)
            | inl i ↦
                elim (Bool-cases (
                  compatibility_of str clean == "safe"
                  || compatibility_of str clean == "unknown")) [
                    | inr c ↦ cc (rw (s, i, c) at h)
                    | inl c ↦ record {
                      clean = clean;
                      sanitized = s;
                      immutable = i;
                      compatible = c;
                      result = cc (rw (s, i, c) at h);
                    }
                  ]
          ]
        ]

    begin_release-eq-ok :
        (t : Releases) (target : KubernetesTarget) (image : String) (values clean : Dict J)
        (chart op : String)
        → sanitize values ≡ ok clean
        → matches_digest_image (codes image) ≡ true
        → (compatibility_of str clean == "safe" || compatibility_of str clean == "unknown") ≡ true
        → begin_release sanitize dumps sha256 str t target image values chart op
          ≡ ok (
              begun
                (open_release t
                  (key_of target image chart clean)
                  target.project_id
                  op
                  (compatibility_of str clean))
                target
                image
                clean)
    unfolding begin_release validate_image
    begin_release-eq-ok t target image values clean chart op s i c = rw (s, i, c) refl

open_release-running :
    (t : Releases) (key : ReleaseKey) (p : ℕ) (op c : String) (e : KubernetesRelease)
    → found t key p op c ≡ some e
    → is_active e.status ≡ true
    → open_release t key p op c ≡ record { table = t; release = e; dispatch = false }
unfolding open_release
open_release-running t key p op c e h a = rw (h, a, open_release) refl

-- An update of one row that a query found is what the query finds next.
first_row-reset :
    (p : KubernetesRelease → Bool) (n : ℕ) (rows : List KubernetesRelease) {e : KubernetesRelease}
    → first_row p rows ≡ some e
    → p (reset e) ≡ true
    → Below n rows
    → first_row p (update_rows (has_pk e.pk) reset rows) ≡ some (reset e)
unfolding first_row update_rows
first_row-reset p n [] h q b = cc
first_row-reset p n (r ∷ rs) {e} h q b = elim (Bool-cases (p r)) [
  | inl t ↦
      let same : r ≡ e = ground arith in
      let own : eqb r.pk r.pk ≡ true = ground arith in
      let passes : p (reset r) ≡ true =
        subst (λ (x : KubernetesRelease). p (reset x) ≡ true) (sym same) q in
      subst
        (λ (x : KubernetesRelease).
          first_row p (update_rows (has_pk x.pk) reset (r ∷ rs)) ≡ some (reset x))
        same (rw (own, passes) refl)
  | inr t ↦ ground (
    arith,
    t,
    first_row-Below p r.pk rs {e = e} (rw t at h) b.1,
    first_row-reset p r.pk rs {e = e} (rw t at h) q b.1,
  )
]

is_release-created :
    (key : ReleaseKey) (pk p : ℕ) (op c : String) (previous : Option KubernetesRelease)
    → (is_release key (new_release pk key p op c previous)
        && is_open (new_release pk key p op c previous))
      ≡ true
unfolding is_release is_open new_release is_active
is_release-created key pk p op c previous =
    ground (arith, eq_refl key.image, eq_refl key.chart_version, eq_refl key.values_digest)

is_release-reset :
    (key : ReleaseKey) (r : KubernetesRelease)
    → (is_release key r && is_open r) ≡ true
    → (is_release key (reset r) && is_open (reset r)) ≡ true
unfolding is_release is_open is_active
is_release-reset key r h = ground arith

created-found :
    (t : Releases) (key : ReleaseKey) (p : ℕ) (op c : String)
    → first_row (λ r. is_release key r && is_open r) (created t key p op c ∷ t.rows)
      ≡ some (created t key p op c)
unfolding first_row
created-found t key p op c =
    rw
      (is_release-created key t.next_pk p op c
        (first_row (λ r. eqb r.target_id key.target_id && is_succeeded r.status) t.rows))
      refl

created-active :
    (t : Releases) (key : ReleaseKey) (p : ℕ) (op c : String)
    → is_active (created t key p op c).status ≡ true
unfolding new_release is_active
created-active t key p op c = refl

-- The block that opens a release, run again on the table it left.
open_release_again :
    (t : Releases) (key : ReleaseKey) (p : ℕ) (op c op' c' : String)
    → IsValid t
    → open_release (open_release t key p op c).table key p op' c' ≡ record {
      table = (open_release t key p op c).table;
      release = (open_release t key p op c).release;
      dispatch = false;
    }
unfolding is_active
open_release_again t key p op c op' c' v =
    open_release_cases t key p op c
      (λ (o : Opened).
        open_release o.table key p op' c'
        ≡ record { table = o.table; release = o.release; dispatch = false })
      (λ e h a. open_release-running t key p op' c' e h a)
      (λ e h a.
        open_release-running (set_rows t (update_rows (has_pk e.pk) reset t.rows)) key p op' c'
          (reset e)
          (first_row-reset (λ r. is_release key r && is_open r) t.next_pk t.rows h
            (is_release-reset key e
              (first_row-passes (λ r. is_release key r && is_open r) t.rows h))
            v.distinct)
          refl)
      (λ e.
        open_release-running (with_created t key p op c) key p op' c' (created t key p op c)
          (created-found t key p op c) (created-active t key p op c))

-- From a valid table, a start that was accepted is followed, whatever operation id the second one draws,
-- by a start with the same target, image, values and chart version that is accepted too, returns the
-- same release, leaves the table as it is and asks the backend nothing.
pub begin_release_twice {ℓ} :
    {J : Type ℓ} (sanitize : Dict J → Result KubernetesError (Dict J)) (dumps : Dict J → String)
    (sha256 : String → String) (str : J → String) (t : Releases) (target : KubernetesTarget)
    (image : String) (values : Dict J) (chart op op' : String) (b : Begun)
    → IsValid t
    → begin_release sanitize dumps sha256 str t target image values chart op ≡ ok b
    → begin_release sanitize dumps sha256 str b.opened.table target image values chart op'
      ≡ ok (record {
        opened = record { table = b.opened.table; release = b.opened.release; dispatch = false };
        request = none;
      })
begin_release_twice sanitize dumps sha256 str t target image values chart op op' b v h =
    let key = key_of sanitize dumps sha256 str target image chart in
    let s = begin_release-Started sanitize dumps sha256 str t target image values chart op b h in
    let again =
      begin_release-eq-ok sanitize dumps sha256 str b.opened.table target image values s.clean chart
        op' s.sanitized s.immutable s.compatible in
    again
    ∙ ap (λ (o : Opened). ok (begun sanitize dumps sha256 str o target image s.clean))
        (subst
          (λ (x : Begun).
            open_release x.opened.table (key s.clean) target.project_id op'
              (compatibility_of str s.clean)
            ≡ record { table = x.opened.table; release = x.opened.release; dispatch = false })
          (sym s.result)
          (open_release_again t (key s.clean) target.project_id op (compatibility_of str s.clean)
            op' (compatibility_of str s.clean) v))
