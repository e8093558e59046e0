-- ===== src/Graphql/ReleaseIsolation.antt =====
-- What the mutations of controlplane/graphql/schema.py on releases leave alone: everything of the projects
-- that do not have the user as a member.
use django_ops.Common.{
  ℕ, ◌<◌, ◌≡◌, ◌≢◌, refl, sym, subst, ◌∙◌, inl, inr, Bool, false, Option, none, some, String,
  Bool-cases, Option-cases, ok, Result-cases,
}
use django_ops.Common.Dict.{Dict}
use django_ops.Kubernetes.State.{KubernetesTarget, KubernetesRelease, is_terminal}
use django_ops.Kubernetes.Releases
use django_ops.Kubernetes.Releases.{
  Begun, begin_release, compatibility_of, finish_release, cancel_release,
}
use django_ops.Graphql.Site.{Site, Environment, sees, get_target, get_release}
use django_ops.Graphql.ReleaseValues.{Json}
use django_ops.Graphql.InstalledValues.{installed_release_values}
use django_ops.Graphql.ReleaseMutations.{Service, start_release, cancel_kubernetes_release}
use django_ops.Graphql.Operations.{with_owner}
use django_ops.Graphql.ReleaseRows.{
  OwnedReleases, releases_of, open_release-OpenedFor, finish_release-others, cancel_release-others,
}
use django_ops.Kubernetes.Starting.{key_of, begin_release-Started}
use django_ops.Graphql.Lookups.{get_target-sees, get_release-sees, get_target-All, get_release-All}
use django_ops.Graphql.Ownership.{IsOwned, Isolated, seen-other, with_releases}

module _ (env : Environment) (s : Site) (user other : ℕ) (o : IsOwned s)
    (hidden : sees s user other ≡ false) where
  abbrev Ok : Site → Type 0
  Ok = Isolated s user other o hidden

  abbrev owner_with : ℕ → ℕ → ℕ
  owner_with project = with_owner o.release_owner s.releases.next_pk project

  -- A release was opened for the project, and no release of the other one changed.
  abbrev OpenedSince : Begun → ℕ → Type 0
  OpenedSince b project =
      OwnedReleases (owner_with project) o.target_owner s.targets.next_pk b.opened.table
      × (releases_of other b.opened.table.rows ≡ releases_of other s.releases.rows)
      × (owner_with project b.opened.release.pk ≡ project)

  unchanged : Ok s
  unchanged = (o, refl, refl)

  pub cancel_kubernetes_release-Isolated :
      (id : String) (answer : Option Bool) → Ok (cancel_kubernetes_release env s user id answer).0
  unfolding cancel_kubernetes_release
  cancel_kubernetes_release-Isolated id none = elim (Result-cases (get_release env s user id)) [
    | inr (e, q) ↦ rw (q, cancel_kubernetes_release) unchanged
    | inl (r, q) ↦ elim (Bool-cases (is_terminal r.status)) [
      | inl done ↦ rw (q, done, cancel_kubernetes_release) unchanged
      | inr active ↦ rw (q, active, cancel_kubernetes_release) unchanged
    ]
  ]
  cancel_kubernetes_release-Isolated id (some accepted) =
      elim (Result-cases (get_release env s user id)) [
        | inr (e, q) ↦ rw (q, cancel_kubernetes_release) unchanged
        | inl (r, q) ↦ elim (Bool-cases (is_terminal r.status)) [
          | inl done ↦ rw (q, done, cancel_kubernetes_release) unchanged
          | inr active ↦
              let project : o.release_owner r.pk ≢ other = λ e.
                seen-other s user other o hidden r.project_id (get_release-sees env s user id r q) (
                  sym (
                    get_release-All (λ (x : KubernetesRelease). o.release_owner x.pk ≡ x.project_id)
                      env s user id r o.releases.rows q)
                  ∙ e) in
              let kept =
                cancel_release-others o.release_owner o.target_owner s.targets.next_pk s.releases r
                  accepted other active project o.releases in
              rw (q, active, cancel_kubernetes_release)
                (with_releases s user other o hidden o.release_owner
                  (cancel_release s.releases r accepted) kept.0 kept.1)
        ]
      ]

  module _ {ℓ} {J : Type ℓ} (json : Json J) (k : Service J) where
    begun-OpenedFor :
        (target : KubernetesTarget) (image : String) (values : Dict J) (b : Begun)
        → o.target_owner target.pk ≡ target.project_id
        → target.pk < s.targets.next_pk
        → target.project_id ≢ other
        → begin_release k.sanitize k.dumps k.sha256 k.str s.releases target image values "0.1.0"
            k.operation_id
          ≡ ok b
        → OpenedSince b target.project_id
    begun-OpenedFor target image values b own known ne h =
        let st =
          begin_release-Started k.sanitize k.dumps k.sha256 k.str s.releases target image values
            "0.1.0" k.operation_id b h in
        let key = key_of k.sanitize k.dumps k.sha256 k.str target image "0.1.0" st.clean in
        subst (λ (x : Begun). OpenedSince x target.project_id) (sym st.result)
          (open_release-OpenedFor o.release_owner o.target_owner s.targets.next_pk s.releases key
            target.project_id k.operation_id (compatibility_of k.str st.clean) o.releases own known
            other ne)

    pub start_release-Isolated :
        (id image : String) (raw : Dict J) (answer : Releases.StartAnswer)
        → Ok (start_release json k env s user id image raw answer).0
    unfolding start_release
    start_release-Isolated id image raw answer = elim (Result-cases (get_target env s user id)) [
      | inr (e, q) ↦ rw (q, start_release) unchanged
      | inl (target, q) ↦ elim (Result-cases (installed_release_values json k.urlsplit raw)) [
        | inr (e, v) ↦ rw (q, v, start_release) unchanged
        | inl (values, v) ↦
            elim (Result-cases (
              begin_release k.sanitize k.dumps k.sha256 k.str s.releases target image values "0.1.0"
                k.operation_id)) [
                  | inr (e, h) ↦ rw (q, v, h, start_release) unchanged
                  | inl (b, h) ↦
                      let own =
                        get_target-All
                          (λ (x : KubernetesTarget). o.target_owner x.pk ≡ x.project_id) env s user
                          id target o.targets.rows q in
                      let known =
                        get_target-All (λ (x : KubernetesTarget). x.pk < s.targets.next_pk) env s
                          user id target o.targets.below q in
                      let ne =
                        seen-other s user other o hidden target.project_id
                          (get_target-sees env s user id target q) in
                      let opened = begun-OpenedFor target image values b own known ne h in
                      elim (Option-cases b.request) [
                        | inl none_asked ↦
                            rw (q, v, h, none_asked, start_release)
                              (with_releases s user other o hidden (owner_with target.project_id)
                                b.opened.table opened.0 opened.1)
                        | inr (request, asked) ↦
                            let kept =
                              finish_release-others (owner_with target.project_id) o.target_owner
                                s.targets.next_pk b.opened.table b.opened.release answer other
                                (λ e. ne (sym opened.2 ∙ e)) opened.0 in
                            rw (q, v, h, asked, start_release)
                              (with_releases s user other o hidden (owner_with target.project_id)
                                (finish_release b.opened.table b.opened.release answer) kept.0
                                (kept.1 ∙ opened.1))
                      ]
                ]
      ]
    ]
