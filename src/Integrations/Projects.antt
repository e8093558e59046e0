-- ===== src/Integrations/Projects.antt =====
-- controlplane/ecosystem.py: the integrations of a project that the user is a member of.
use django_ops.Common.{
  ℕ, ◌*◌, ◌≤◌, ◌≡◌, refl, ◌&&◌, List, [], ◌∷◌, String, eqb, length, All, arith, Result, ok, err,
  ◌>>=◌,
}
use django_ops.Common.Text.{codes}
use django_ops.Config.Validators.{SplitUrl}
use django_ops.Graphql.Site.{Project, ResolverError, project_does_not_exist, get_where, is_member}
use django_ops.Integrations.Contract.{IntegrationError, IntegrationConfig, Value}
use django_ops.Integrations.Parser.{parse_integrations}
use django_ops.Integrations.Evaluation.{default_budget_ms, IntegrationResult, evaluate_integration}
use django_ops.Integrations.Parsing.{IsAllowed, parse_integrations-IsAllowed}
use django_ops.Integrations.Ready.{project_context, IsEvaluated, evaluate_integration-IsEvaluated}

pub data EcosystemError : Type 0 where
  lookup_failed : ResolverError → EcosystemError
  integration_failed : IntegrationError → EcosystemError

-- The evaluations, each of which takes so many nanoseconds.
unfoldable pub evaluate_each :
    String
    → (IntegrationConfig → ℕ)
    → List IntegrationConfig
    → Result IntegrationError (List IntegrationResult)
evaluate_each slug elapsed_ns [] = ok []
evaluate_each slug elapsed_ns (c ∷ cs) =
    evaluate_integration c (project_context slug) default_budget_ms (elapsed_ns c) >>= λ r.
    evaluate_each slug elapsed_ns cs >>= λ rs. ok (r ∷ rs)

abbrev lifted {ℓ} : {A : Type ℓ} → Result IntegrationError A → Result EcosystemError A
lifted (err e) = err (integration_failed e)
lifted (ok a) = ok a

-- `evaluate_project_integrations`
unfoldable pub evaluate_project_integrations :
    List Project
    → ℕ
    → ℕ
    → List IntegrationConfig
    → (IntegrationConfig → ℕ)
    → Result EcosystemError (List IntegrationResult)
evaluate_project_integrations projects user pk integrations elapsed_ns =
    elim (get_where project_does_not_exist (λ p. is_member user p && eqb p.pk pk) projects) [
      | err e ↦ err (lookup_failed e)
      | ok p ↦ lifted (evaluate_each p.slug elapsed_ns integrations)
    ]

-- Each integration has its result, in order.
abbrev pub Evaluated : String → List IntegrationConfig → List IntegrationResult → Type 0
Evaluated slug [] [] = Unit
Evaluated slug (c ∷ cs) [] = ⊥
Evaluated slug [] (r ∷ rs) = ⊥
Evaluated slug (c ∷ cs) (r ∷ rs) = IsEvaluated c slug r × Evaluated slug cs rs

module _ (urlsplit : String → SplitUrl) (slug : String) (fits : length (codes slug) ≤ 64) where
  evaluate_each-Evaluated :
      (elapsed_ns : IntegrationConfig → ℕ) (cs : List IntegrationConfig)
      → ((c : IntegrationConfig) → elapsed_ns c ≤ default_budget_ms * 1000000)
      → All (IsAllowed urlsplit) cs
      → (rs : List IntegrationResult) × (evaluate_each slug elapsed_ns cs ≡ ok rs)
        × Evaluated slug cs rs
  unfolding evaluate_each
  evaluate_each-Evaluated elapsed_ns [] fast a = ([], refl, tt)
  evaluate_each-Evaluated elapsed_ns (c ∷ cs) fast a =
      let (r, one, found) =
        evaluate_integration-IsEvaluated urlsplit c slug default_budget_ms (elapsed_ns c) a.0
          (omega (arith, fits)) (omega arith) (omega arith) (fast c) in
      let (rs, rest, others) = evaluate_each-Evaluated elapsed_ns cs fast a.1 in
      (r ∷ rs, rw (one, rest) refl, (found, others))

-- The integrations that the parser accepted are all evaluated for a project that the user is a member of, where
-- its slug has the length that the database allows and no evaluation takes longer than the default budget:
-- each is ready and names the project, or is disabled.
pub parsed-Evaluated :
    (urlsplit : String → SplitUrl) (value : Value) (cs : List IntegrationConfig)
    (projects : List Project) (user pk : ℕ) (p : Project) (elapsed_ns : IntegrationConfig → ℕ)
    → parse_integrations urlsplit value ≡ ok cs
    → get_where project_does_not_exist (λ q. is_member user q && eqb q.pk pk) projects ≡ ok p
    → length (codes p.slug) ≤ 64
    → ((c : IntegrationConfig) → elapsed_ns c ≤ default_budget_ms * 1000000)
    → (rs : List IntegrationResult) × (evaluate_project_integrations projects user pk cs elapsed_ns
        ≡ ok rs)
      × Evaluated p.slug cs rs
unfolding evaluate_project_integrations
parsed-Evaluated urlsplit value cs projects user pk p elapsed_ns parsed found fits fast =
    let (_, _, allowed) = parse_integrations-IsAllowed urlsplit value cs parsed in
    let (rs, done, each) =
      evaluate_each-Evaluated urlsplit p.slug fits elapsed_ns cs fast allowed in
    (rs, rw (found, evaluate_project_integrations, done) refl, each)
