-- ===== src/Graphql/DiagnosticIsolation.antt =====
-- What the mutations of controlplane/graphql/schema.py on diagnostics and targets leave alone: everything of
-- the projects that do not have the user as a member.
use django_ops.Common.{
  ℕ, ◌≡◌, ◌≢◌, refl, sym, subst, ◌∙◌, ap, inl, inr, Bool, true, false, String, Result, ok, err,
  Result-cases,
}
use django_ops.Diagnostics.State.{Operation}
use django_ops.Diagnostics.Service
use django_ops.Kubernetes.Validation.{ParsedUrl}
use django_ops.Kubernetes.Targets.{ValidateAnswer, register_target}
use django_ops.Graphql.Site.{
  Project, AgentRegistration, Site, Environment, ResolverError, sees, get_project, get_agent,
  get_operation,
}
use django_ops.Graphql.Mutations.{
  start, cancel, register, get_member_agent, registration_of, TargetArguments,
}
use django_ops.Graphql.Operations.{with_owner, start-Owned, start-others}
use django_ops.Graphql.Cancelling.{cancel-Owned, cancel-others}
use django_ops.Graphql.TargetRows.{register_target-others, register_target-Owned}
use django_ops.Graphql.Lookups.{
  get_project-sees, get_operation-sees, get_agent-project, get_operation-All,
}
use django_ops.Graphql.Ownership.{IsOwned, Isolated, seen-other, with_operations, with_targets}

abbrev pair_or :
    Project × AgentRegistration
    → Result ResolverError (Project × AgentRegistration)
    → Project × AgentRegistration
pair_or d (err e) = d
pair_or d (ok x) = x

module _ (env : Environment) (s : Site) (user other : ℕ) (o : IsOwned s)
    (hidden : sees s user other ≡ false) where
  abbrev Ok : Site → Type 0
  Ok = Isolated s user other o hidden

  unchanged : Ok s
  unchanged = (o, refl, refl)

  -- The agent that a start or a registration finds belongs to a project that the user sees.
  member_agent-sees :
      (pid aid : String) (p : Project) (a : AgentRegistration)
      → get_member_agent env s user pid aid ≡ ok (p, a)
      → (sees s user p.pk ≡ true) × (a.agent.project_id ≡ p.pk)
  unfolding get_member_agent
  member_agent-sees pid aid p a h = elim (Result-cases (get_project env s user pid)) [
    | inr (e, q) ↦ absurd (cc (rw (q, get_member_agent) at h))
    | inl (p', q) ↦ elim (Result-cases (get_agent env s p' aid)) [
      | inr (e, q') ↦ absurd (cc (rw (q, q', get_member_agent) at h))
      | inl (a', q') ↦
          let same : (p', a') ≡ (p, a) =
            ap (pair_or (p', a')) (rw (q, q', get_member_agent) at h) in
          subst
            (λ (x : Project × AgentRegistration).
              (sees s user x.0.pk ≡ true) × (x.1.agent.project_id ≡ x.0.pk))
            same (get_project-sees env s user pid p' q, get_agent-project env s p' aid a' q')
    ]
  ]

  pub start-Isolated :
      (pid aid diagnostic : String) (connected : String → Bool) (answer : Service.StartAnswer)
      → Ok (start env s user pid aid diagnostic connected answer).0
  unfolding start
  start-Isolated pid aid diagnostic connected answer =
      elim (Result-cases (get_member_agent env s user pid aid)) [
        | inr (e, q) ↦ rw (q, start) unchanged
        | inl ((p, a), q) ↦
            let seen = member_agent-sees pid aid p a q in
            let project : a.agent.project_id ≢ other =
              λ e. seen-other s user other o hidden p.pk seen.0 (sym seen.1 ∙ e) in
            elim (Result-cases (
              Service.start s.operations a.agent.project_id diagnostic (connected a.agent.agent_id)
                answer)) [
                  | inr (e, q') ↦ rw (q, q', start) unchanged
                  | inl ((t, row), q') ↦
                      rw (q, q', start)
                        (with_operations s user other o hidden
                          (with_owner o.operation_owner s.operations.next_pk a.agent.project_id) t
                          (start-Owned o.operation_owner s.operations a.agent.project_id
                            o.operations diagnostic (connected a.agent.agent_id) answer t row q')
                          (start-others o.operation_owner s.operations a.agent.project_id
                            o.operations diagnostic (connected a.agent.agent_id) answer t row other
                            project q'))
                ]
      ]

  pub cancel-Isolated :
      (id : String) (answer : Service.CancelAnswer) → Ok (cancel env s user id answer).0
  unfolding cancel
  cancel-Isolated id answer = elim (Result-cases (get_operation env s user id)) [
    | inr (e, q) ↦ rw (q, cancel) unchanged
    | inl (r, q) ↦
        let project : o.operation_owner r.pk ≢ other = λ e.
          seen-other s user other o hidden r.project_id (get_operation-sees env s user id r q) (
            sym (
              get_operation-All (λ (x : Operation). o.operation_owner x.pk ≡ x.project_id) env s
                user id r o.operations.rows q)
            ∙ e) in
        rw (q, cancel)
          (with_operations s user other o hidden o.operation_owner
            (Service.cancel s.operations s.operations r.pk answer)
            (cancel-Owned o.operation_owner s.operations r.pk answer o.operations)
            (cancel-others o.operation_owner s.operations r.pk other answer project o.operations))
  ]

  pub register-Isolated :
      (urlparse : String → ParsedUrl) (pid aid : String) (args : TargetArguments)
      (answer : ValidateAnswer)
      → Ok (register env urlparse s user pid aid args answer).0
  unfolding register registration_of
  register-Isolated urlparse pid aid args answer =
      elim (Result-cases (get_member_agent env s user pid aid)) [
        | inr (e, q) ↦ rw (q, register) unchanged
        | inl ((p, a), q) ↦
            let seen = member_agent-sees pid aid p a q in
            let r = registration_of p a args in
            let owned =
              register_target-Owned urlparse o.target_owner s.targets r answer o.targets in
            rw (q, register)
              (with_targets s user other o hidden p.pk
                (register_target urlparse s.targets r answer).0 owned.0 owned.1
                (register_target-others urlparse s.targets r answer other o.targets.below
                  (seen-other s user other o hidden p.pk seen.0)))
      ]
