-- ===== src/Graphql/ReleaseMutations.antt =====
-- The resolvers that start and cancel Kubernetes releases in controlplane/graphql/schema.py.
use django_ops.Common.{ℕ, Bool, Option, none, some, String, Result, ok, err, if◌then◌else◌}
use django_ops.Common.Dict.{Dict}
use django_ops.Kubernetes.State.{KubernetesRelease, Releases, KubernetesError, is_terminal}
use django_ops.Kubernetes.Releases
use django_ops.Kubernetes.Releases.{
  StartAnswer, begin_release, finish_release, cancel_release, first_row, has_pk,
}
use django_ops.Graphql.Site.{
  Site, Environment, ResolverError, target_does_not_exist, release_does_not_exist, runtime_error,
  get_target, get_release,
}
use django_ops.Config.Validators.{SplitUrl}
use django_ops.Graphql.ReleaseValues.{Json}
use django_ops.Graphql.InstalledValues.{installed_release_values}
use django_ops.Graphql.Mutations.{literal, Payload, done, refused, Outcome, catch_service}

-- The `except` clauses of `_start_kubernetes_release`, for the lookup.
unfoldable pub catch_target {ℓ} : {A : Type ℓ} → ResolverError → Result ResolverError (Payload A)
catch_target target_does_not_exist = ok (refused "NOT_FOUND" (literal "target not found"))
catch_target e = err e

-- The `except` clause of `_cancel_kubernetes_release`.
unfoldable pub catch_release {ℓ} : {A : Type ℓ} → ResolverError → Result ResolverError (Payload A)
catch_release release_does_not_exist = ok (refused "NOT_FOUND" (literal "release not found"))
catch_release e = err e

unfoldable pub caught_release {ℓ} :
    {A : Type ℓ} → Result ResolverError (Payload A) → Result ResolverError (Payload A)
caught_release (err e) = catch_release e
caught_release (ok p) = ok p

-- The row after `refresh_from_db`.
unfoldable pub refreshed_release : Releases → ℕ → Result ResolverError (Payload KubernetesRelease)
refreshed_release t pk = elim (first_row (has_pk pk) t.rows) [
  | none ↦ err release_does_not_exist
  | some r ↦ ok (done r)
]

-- What the resolver returns or raises after the answer of the backend.
unfoldable pub caught_answer :
    StartAnswer
    → Result ResolverError (Payload KubernetesRelease)
    → Result ResolverError (Payload KubernetesRelease)
caught_answer (Releases.escaped e) r = catch_service "RELEASE_FAILED" e
caught_answer _ r = r

-- What `start_release` is given besides its arguments: `sanitize_values`, the JSON encoding, SHA-256, `str`,
-- `urlsplit` and the operation id that it draws.
pub record Service {ℓ} (J : Type ℓ) : Type ℓ where
  pub sanitize : Dict J → Result KubernetesError (Dict J)
  pub dumps : Dict J → String
  pub sha256 : String → String
  pub str : J → String
  pub urlsplit : String → SplitUrl
  pub operation_id : String

module _ {ℓ} {J : Type ℓ} (json : Json J) (k : Service J) where
  -- `_start_kubernetes_release`
  unfoldable pub start_release :
      Environment → Site → ℕ → String → String → Dict J → StartAnswer → Outcome KubernetesRelease
  start_release env s user target_id image raw answer = elim (get_target env s user target_id) [
    | err e ↦ (s, catch_target e)
    | ok target ↦ elim (installed_release_values json k.urlsplit raw) [
      | err e ↦ (s, catch_service "RELEASE_FAILED" e)
      | ok values ↦
          elim (begin_release k.sanitize k.dumps k.sha256 k.str s.releases target image values
            "0.1.0" k.operation_id) [
              | err e ↦ (s, catch_service "RELEASE_FAILED" e)
              | ok b ↦ elim b.request [
                | none ↦ (record s { releases = b.opened.table }, ok (done b.opened.release))
                | some request ↦
                    let t = finish_release b.opened.table b.opened.release answer in
                    (
                      record s { releases = t },
                      caught_answer answer (refreshed_release t b.opened.release.pk),
                    )
              ]
            ]
    ]
  ]

-- `_cancel_kubernetes_release`; `none` is a `RuntimeError` of the backend, which is not caught.
unfoldable pub cancel_kubernetes_release :
    Environment → Site → ℕ → String → Option Bool → Outcome KubernetesRelease
cancel_kubernetes_release env s user release_id answer = elim (get_release env s user release_id) [
  | err e ↦ (s, catch_release e)
  | ok r ↦ if is_terminal r.status then (s, ok (done r)) else elim answer [
    | none ↦ (s, err runtime_error)
    | some accepted ↦
        let t = cancel_release s.releases r accepted in
        (record s { releases = t }, caught_release (refreshed_release t r.pk))
  ]
]
