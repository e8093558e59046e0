-- ===== src/Graphql/Queries.antt =====
-- The resolvers of `Query` in controlplane/graphql/schema.py.
use django_ops.Common.{
  ℕ, max, min, List, [], ◌∷◌, String, eqb, keep, take, map, Result, ok, err, ◌>>=◌,
}
use django_ops.Diagnostics.State.{Operation}
use django_ops.Kubernetes.State.{KubernetesTarget, KubernetesRelease}
use django_ops.Graphql.Site.{
  Project, AgentRegistration, Site, Environment, ResolverError, type_error, is_member, get_project,
  get_operation,
}

-- The argument `first: Int`: left out, an explicit null, or a number.
pub data First : Type 0 where
  absent null below_zero : First
  count : ℕ → First

-- `max(1, min(first, 50))`; `min` raises on null.
unfoldable pub page_size : First → Result ResolverError ℕ
page_size absent = ok (max 1 (min 20 50))
page_size null = err type_error
page_size below_zero = ok 1
page_size (count n) = ok (max 1 (min n 50))

-- `_projects`
unfoldable pub projects : Site → ℕ → List Project
projects s user = keep (is_member user) s.projects

-- `_agents`
unfoldable pub agents :
    Environment → Site → ℕ → String → Result ResolverError (List AgentRegistration)
agents env s user id =
    get_project env s user id >>= λ p. ok (keep (λ a. eqb a.agent.project_id p.pk) s.agents)

-- `_operations`
unfoldable pub operations :
    Environment → Site → ℕ → String → First → Result ResolverError (List Operation)
operations env s user id first = get_project env s user id >>= λ p.
    page_size first >>= λ n. ok (take n (keep (λ r. eqb r.project_id p.pk) s.operations.rows))

-- `_targets`; the order by name is left out
unfoldable pub targets :
    Environment → Site → ℕ → String → Result ResolverError (List KubernetesTarget)
targets env s user id =
    get_project env s user id >>= λ p. ok (keep (λ r. eqb r.project_id p.pk) s.targets.rows)

-- `_releases`
unfoldable pub releases :
    Environment → Site → ℕ → String → First → Result ResolverError (List KubernetesRelease)
releases env s user id first = get_project env s user id >>= λ p.
    page_size first >>= λ n. ok (take n (keep (λ r. eqb r.project_id p.pk) s.releases.rows))

-- The fields of `Query`, with their arguments.
pub data Query : Type 0 where
  all_projects : Query
  agents_of targets_of : String → Query
  operations_of releases_of : String → First → Query
  operation_with : String → Query

pub data Row : Type 0 where
  project_row : Project → Row
  agent_row : AgentRegistration → Row
  operation_row : Operation → Row
  target_row : KubernetesTarget → Row
  release_row : KubernetesRelease → Row

-- The key of the project that a row belongs to.
unfoldable pub project_of : Row → ℕ
project_of (project_row p) = p.pk
project_of (agent_row a) = a.agent.project_id
project_of (operation_row r) = r.project_id
project_of (target_row r) = r.project_id
project_of (release_row r) = r.project_id

abbrev as_rows {ℓ} :
    {A : Type ℓ} → (A → Row) → Result ResolverError (List A) → Result ResolverError (List Row)
as_rows f r = r >>= λ xs. ok (map f xs)

-- The rows that a field of `Query` resolves to.
unfoldable pub resolve_query : Environment → Site → ℕ → Query → Result ResolverError (List Row)
resolve_query env s user all_projects = ok (map project_row (projects s user))
resolve_query env s user (agents_of id) = as_rows agent_row (agents env s user id)
resolve_query env s user (targets_of id) = as_rows target_row (targets env s user id)
resolve_query env s user (operations_of id first) =
    as_rows operation_row (operations env s user id first)
resolve_query env s user (releases_of id first) = as_rows release_row (releases env s user id first)
resolve_query env s user (operation_with id) =
    get_operation env s user id >>= λ r. ok (operation_row r ∷ [])
