-- ===== src/Graphql/Site.antt =====
-- The database as controlplane/graphql/schema.py reads it, and its lookups of rows that a user may see.
use django_ops.Common.{
  ℕ, Bool, ◌&&◌, Option, none, some, List, [], ◌∷◌, String, ◌==◌, eqb, any, if◌then◌else◌, Result,
  ok, err,
}
use django_ops.Diagnostics.State.{Operation, Table}
use django_ops.Kubernetes.State.{KubernetesTarget, KubernetesRelease, Releases}
use django_ops.Kubernetes.Targets.{Targets, Agent}

-- `Project`; users are their keys.
pub record Project : Type 0 where
  pub pk : ℕ
  pub slug : String
  pub members : List ℕ

-- `AgentRegistration`
pub record AgentRegistration : Type 0 where
  pub pk : ℕ
  pub agent : Agent

pub record Site : Type 0 where
  pub projects : List Project
  pub agents : List AgentRegistration
  pub operations : Table
  pub targets : Targets
  pub releases : Releases

-- What `int(text)` gives: `ValueError`, or a number.
pub data Number : Type 0 where
  no_number negative : Number
  number : ℕ → Number

-- `int`, the conversion of a UUID field (`none` where it raises Django's `ValidationError`), and the
-- `public_id` of the rows of each table.
pub record Environment : Type 0 where
  pub int : String → Number
  pub to_uuid : String → Option String
  pub operation_uuid : ℕ → String
  pub target_uuid : ℕ → String
  pub release_uuid : ℕ → String

-- What a resolver raises.
pub data ResolverError : Type 0 where
  project_does_not_exist agent_does_not_exist operation_does_not_exist : ResolverError
  target_does_not_exist release_does_not_exist : ResolverError
  value_error type_error validation_error integrity_error runtime_error lookup_error : ResolverError

-- `filter(...).get(...)`, where at most one row passes
unfoldable pub get_where {ℓ} :
    {A : Type ℓ} → ResolverError → (A → Bool) → List A → Result ResolverError A
get_where e p [] = err e
get_where e p (r ∷ rs) = if p r then ok r else get_where e p rs

-- `members=user`
abbrev pub is_member : ℕ → Project → Bool
is_member user p = any (eqb user) p.members

-- `project__members=user`, for the key of a project
unfoldable pub sees_among : List Project → ℕ → ℕ → Bool
sees_among projects user project = any (λ p. eqb p.pk project && is_member user p) projects

abbrev pub sees : Site → ℕ → ℕ → Bool
sees s user project = sees_among s.projects user project

-- `_project`
unfoldable pub get_project : Environment → Site → ℕ → String → Result ResolverError Project
get_project env s user id = elim (env.int id) [
  | no_number ↦ err value_error
  | negative ↦ err project_does_not_exist
  | number pk ↦ get_where project_does_not_exist (λ p. is_member user p && eqb p.pk pk) s.projects
]

-- `project.agents.get(pk=int(agent_id))`
unfoldable pub get_agent :
    Environment → Site → Project → String → Result ResolverError AgentRegistration
get_agent env s project id = elim (env.int id) [
  | no_number ↦ err value_error
  | negative ↦ err agent_does_not_exist
  | number pk ↦
      get_where agent_does_not_exist (λ a. eqb a.agent.project_id project.pk && eqb a.pk pk)
        s.agents
]

-- `filter(project__members=user).get(public_id=id)`
unfoldable pub get_public {ℓ} :
    {A : Type ℓ}
    → Environment
    → ResolverError
    → (A → Bool)
    → (A → String)
    → List A
    → String
    → Result ResolverError A
get_public env e visible uuid_of rows id = elim (env.to_uuid id) [
  | none ↦ err validation_error
  | some uuid ↦ get_where e (λ r. visible r && uuid_of r == uuid) rows
]

-- `_operation`
unfoldable pub get_operation : Environment → Site → ℕ → String → Result ResolverError Operation
get_operation env s user id =
    get_public env operation_does_not_exist (λ r. sees s user r.project_id)
      (λ r. env.operation_uuid r.pk) s.operations.rows id

-- `_target`
unfoldable pub get_target : Environment → Site → ℕ → String → Result ResolverError KubernetesTarget
get_target env s user id =
    get_public env target_does_not_exist (λ r. sees s user r.project_id) (λ r. env.target_uuid r.pk)
      s.targets.rows id

-- `_release`
unfoldable pub get_release :
    Environment → Site → ℕ → String → Result ResolverError KubernetesRelease
get_release env s user id =
    get_public env release_does_not_exist (λ r. sees s user r.project_id)
      (λ r. env.release_uuid r.pk) s.releases.rows id
