-- ===== src/Observability/Summary.antt =====
-- The summaries of controlplane/observability.py: `summary_for_project` and `prometheus_extra`, on the database
-- of the GraphQL interface.
use django_ops.Common.{
  ℕ, ◌+◌, Bool, ◌&&◌, not, Option, List, [], ◌∷◌, ◌++◌, String, ◌==◌, eqb, length, keep, take,
  member, if◌then◌else◌, Result, ok, ◌>>=◌,
}
use django_ops.Diagnostics.Backend.{agent_state}
use django_ops.Diagnostics.State.{Operation, is_active as is_running}
use django_ops.Gateway.State.{Gateway}
use django_ops.Graphql.Site.{
  Project, AgentRegistration, Site, ResolverError, project_does_not_exist, get_where, is_member,
}
use django_ops.Kubernetes.State.{KubernetesRelease, is_active as is_underway}
use django_ops.Observability.Diagnostics
use django_ops.Observability.Releases
use django_ops.Telemetry.State.{Telemetry}

-- What the queries about agents find: for an agent and the number of the query, the state of the runtime; the
-- capabilities in the agent's row; the time.
pub record Runtime : Type 0 where
  pub found : String → ℕ → Option Gateway
  pub stored : String → List String
  pub now : ℕ

-- `service.agent_state(agent)["connected"]`
unfoldable pub is_up : Runtime → AgentRegistration → Bool
is_up runtime a =
    let id = a.agent.agent_id in
    (agent_state (runtime.found id 0) (runtime.found id 1) (runtime.found id 2) (runtime.found id 3)
      id (runtime.stored id) runtime.now).is_online

-- `sum(1 for x in xs if p(x))`
unfoldable pub count_if {ℓ} : {A : Type ℓ} → (A → Bool) → List A → ℕ
count_if p [] = 0
count_if p (x ∷ xs) = let rest = count_if p xs in if p x then rest + 1 else rest

abbrev pub failed_statuses : List String
failed_statuses =
    "failed" ∷ "offline" ∷ "overloaded" ∷ "disconnected" ∷ "timeout" ∷ "rollback_blocked" ∷ []

pub record ObservabilitySummary : Type 0 where
  pub total_agents : ℕ
  pub connected_agents : ℕ
  pub recent_operations : ℕ
  pub recent_releases : ℕ
  pub recent_failures : ℕ
  pub otlp_configured : Bool
  pub telemetry_status : String

-- `project.agents.all()`, and the newest fifty operations and releases
abbrev pub agents_in : Site → ℕ → List AgentRegistration
agents_in s pk = keep (λ a. eqb a.agent.project_id pk) s.agents

abbrev pub newest_operations : Site → ℕ → List Operation
newest_operations s pk = take 50 (keep (λ r. eqb r.project_id pk) s.operations.rows)

abbrev pub newest_releases : Site → ℕ → List KubernetesRelease
newest_releases s pk = take 50 (keep (λ r. eqb r.project_id pk) s.releases.rows)

unfoldable pub failed_operation : Operation → Bool
failed_operation r = member (Diagnostics.status_text r.status) failed_statuses

unfoldable pub failed_release : KubernetesRelease → Bool
failed_release r = member (Releases.status_text r.status) failed_statuses

-- The summary of a project that was found.
abbrev pub summary_of : Runtime → Telemetry → Site → ℕ → ObservabilitySummary
summary_of runtime t s pk = record {
  total_agents = length (agents_in s pk);
  connected_agents = count_if (is_up runtime) (agents_in s pk);
  recent_operations = length (newest_operations s pk);
  recent_releases = length (newest_releases s pk);
  recent_failures =
      count_if failed_operation (newest_operations s pk)
      + count_if failed_release (newest_releases s pk);
  otlp_configured = not (t.endpoint == "");
  telemetry_status = if t.endpoint == "" then "disabled" else "configured";
}

-- `summary_for_project`
unfoldable pub summary_for_project :
    Runtime → Telemetry → Site → ℕ → ℕ → Result ResolverError ObservabilitySummary
summary_for_project runtime t s user pk =
    get_where project_does_not_exist (λ p. is_member user p && eqb p.pk pk) s.projects
    >>= λ project. ok (summary_of runtime t s project.pk)

-- The agents of each project, one project after the other.
unfoldable pub agents_by_project : Site → List Project → List AgentRegistration
agents_by_project s [] = []
agents_by_project s (p ∷ ps) = agents_in s p.pk ++ agents_by_project s ps

pub record PrometheusExtra : Type 0 where
  pub agents_registered : ℕ
  pub agents_connected : ℕ
  pub diagnostics_inflight : ℕ
  pub kubernetes_releases_inflight : ℕ

-- `prometheus_extra`
unfoldable pub prometheus_extra : Runtime → Site → PrometheusExtra
prometheus_extra runtime s = record {
  agents_registered = length (agents_by_project s s.projects);
  agents_connected = count_if (is_up runtime) (agents_by_project s s.projects);
  diagnostics_inflight = count_if (λ r. is_running r.status) s.operations.rows;
  kubernetes_releases_inflight = count_if (λ r. is_underway r.status) s.releases.rows;
}
