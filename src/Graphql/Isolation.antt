-- ===== src/Graphql/Isolation.antt =====
-- What a mutation of controlplane/graphql/schema.py leaves alone: everything of the projects that do not have
-- the user as a member.
use django_ops.Common.{ℕ, ◌≡◌, refl, sym, subst, ◌∙◌, false, List, [], ◌∷◌, String, All}
use django_ops.Kubernetes.Validation.{ParsedUrl}
use django_ops.Graphql.Site.{Project, Site, Environment, sees, sees_among}
use django_ops.Graphql.ReleaseValues.{Json}
use django_ops.Graphql.Steps.{
  Mutation, start_diagnostic, cancel_diagnostic, register_kubernetes_target,
  start_kubernetes_release, cancels_release, step, rows_of,
}
use django_ops.Graphql.Ownership.{IsOwned, Isolated}
use django_ops.Graphql.DiagnosticIsolation.{start-Isolated, cancel-Isolated, register-Isolated}
use django_ops.Graphql.ReleaseIsolation.{start_release-Isolated, cancel_kubernetes_release-Isolated}

-- A request: the user and the mutation.
pub record Request {ℓ} (J : Type ℓ) : Type ℓ where
  pub user : ℕ
  pub mutation : Mutation J

unfoldable pub run {ℓ} :
    {J : Type ℓ} → Json J → Environment → (String → ParsedUrl) → Site → List (Request J) → Site
run json env urlparse s [] = s
run json env urlparse s (r ∷ rs) =
    run json env urlparse (step json env urlparse r.user s r.mutation) rs

module _ {ℓ} {J : Type ℓ} (json : Json J) (env : Environment) (urlparse : String → ParsedUrl)
    (other : ℕ) where
  step-Isolated :
      (s : Site) (user : ℕ) (m : Mutation J) (o : IsOwned s) (hidden : sees s user other ≡ false)
      → Isolated s user other o hidden (step json env urlparse user s m)
  unfolding step
  step-Isolated s user (start_diagnostic p a diagnostic connected answer) o hidden =
      start-Isolated env s user other o hidden p a diagnostic connected answer
  step-Isolated s user (cancel_diagnostic id answer) o hidden =
      cancel-Isolated env s user other o hidden id answer
  step-Isolated s user (register_kubernetes_target p a args answer) o hidden =
      register-Isolated env s user other o hidden urlparse p a args answer
  step-Isolated s user (start_kubernetes_release k id image raw answer) o hidden =
      start_release-Isolated env s user other o hidden json k id image raw answer
  step-Isolated s user (cancels_release id answer) o hidden =
      cancel_kubernetes_release-Isolated env s user other o hidden id answer

  -- From a database whose rows are owned, whatever mutations users make who are not members of a project, in
  -- any order and with any answers of the backends, the operations, targets and releases of the project are
  -- afterwards the same, and the rows are still owned.
  pub run-Isolated :
      (s : Site) (rs : List (Request J))
      → IsOwned s
      → All (λ r. sees s r.user other ≡ false) rs
      → IsOwned (run json env urlparse s rs)
        × (rows_of other (run json env urlparse s rs) ≡ rows_of other s)
  unfolding run
  run-Isolated s [] o h = (o, refl)
  run-Isolated s (r ∷ rs) o h =
      let next = step json env urlparse r.user s r.mutation in
      let one = step-Isolated s r.user r.mutation o h.0 in
      let rest = run-Isolated next rs one.0 (
        subst (λ (ps : List Project). All (λ q. sees_among ps q.user other ≡ false) rs) (sym one.2)
          h.1) in
      (rest.0, rest.1 ∙ one.1)
