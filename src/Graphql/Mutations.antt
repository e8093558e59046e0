-- ===== src/Graphql/Mutations.antt =====
-- The resolvers of `Mutation` in controlplane/graphql/schema.py, where nothing else writes to the database
-- during the request. What the backends answer is an argument.
use django_ops.Common.{ℕ, Bool, Option, none, some, String, Result, ok, err, ◌>>=◌}
use django_ops.Diagnostics.State.{Operation, Table, find}
use django_ops.Diagnostics.Service
use django_ops.Diagnostics.Service.{ServiceError, StartAnswer, CancelAnswer, unsupported_diagnostic}
use django_ops.Kubernetes.State.{
  KubernetesTarget, KubernetesError, identity_duplicate, agent_missing,
}
use django_ops.Kubernetes.Validation.{ParsedUrl}
use django_ops.Kubernetes.Targets.{Registration, ValidateAnswer, register_target}
use django_ops.Graphql.Site.{
  Project, AgentRegistration, Site, Environment, ResolverError, project_does_not_exist,
  agent_does_not_exist, operation_does_not_exist, value_error, integrity_error, lookup_error,
  get_project, get_agent, get_operation,
}

-- The message of an `ApiError`: a literal, or `str(exc)`.
pub data Message : Type 0 where
  literal : String → Message
  message_of : KubernetesError → Message
  message_of_int : Message

-- The dict that a mutation returns: one of the two entries is `None`.
pub data Payload {ℓ} (A : Type ℓ) : Type ℓ where
  done : A → Payload A
  refused : String → Message → Payload A

abbrev pub Outcome {ℓ} : Type ℓ → Type ℓ
Outcome A = Site × Result ResolverError (Payload A)

-- The `except` clauses of `_start`.
unfoldable pub catch_start {ℓ} : {A : Type ℓ} → ResolverError → Result ResolverError (Payload A)
catch_start project_does_not_exist = ok (refused "NOT_FOUND" (literal "resource not found"))
catch_start agent_does_not_exist = ok (refused "NOT_FOUND" (literal "resource not found"))
catch_start value_error = ok (refused "INVALID_DIAGNOSTIC" (literal "unsupported diagnostic"))
catch_start e = err e

-- the project and its agent that both identifiers name
unfoldable pub get_member_agent :
    Environment → Site → ℕ → String → String → Result ResolverError (Project × AgentRegistration)
get_member_agent env s user project_id agent_id =
    get_project env s user project_id >>= λ p. get_agent env s p agent_id >>= λ a. ok (p, a)

-- `_start`; `connected` and `answer` are what the backend answers for an agent.
unfoldable pub start :
    Environment
    → Site
    → ℕ
    → String
    → String
    → String
    → (String → Bool)
    → StartAnswer
    → Outcome Operation
start env s user project_id agent_id diagnostic connected answer =
    elim (get_member_agent env s user project_id agent_id) [
      | err e ↦ (s, catch_start e)
      | ok (p, a) ↦
          elim (Service.start s.operations a.agent.project_id diagnostic
            (connected a.agent.agent_id) answer) [
              | err e ↦ (s, catch_start value_error)
              | ok (t, row) ↦ (record s { operations = t }, ok (done row))
            ]
    ]

-- The `except` clause of `_cancel`.
unfoldable pub catch_cancel {ℓ} : {A : Type ℓ} → ResolverError → Result ResolverError (Payload A)
catch_cancel operation_does_not_exist = ok (refused "NOT_FOUND" (literal "operation not found"))
catch_cancel e = err e

-- The row after `refresh_from_db`.
unfoldable pub refreshed_operation : Table → ℕ → Result ResolverError (Payload Operation)
refreshed_operation t pk = elim (find pk t.rows) [
  | none ↦ catch_cancel operation_does_not_exist
  | some r ↦ ok (done r)
]

-- `_cancel`
unfoldable pub cancel : Environment → Site → ℕ → String → CancelAnswer → Outcome Operation
cancel env s user operation_id answer = elim (get_operation env s user operation_id) [
  | err e ↦ (s, catch_cancel e)
  | ok r ↦
      let t = Service.cancel s.operations s.operations r.pk answer in
      (record s { operations = t }, refreshed_operation t r.pk)
]

-- The arguments of `registerKubernetesTarget` but for the two identifiers.
pub record TargetArguments : Type 0 where
  pub name : String
  pub api_server : String
  pub namespace : String
  pub release_name : String
  pub credential_ref : String
  pub ingress_class : Option String
  pub tls_secret_name : Option String

-- `args.get(key, "")`
abbrev or_empty : Option String → String
or_empty none = ""
or_empty (some s) = s

unfoldable pub registration_of : Project → AgentRegistration → TargetArguments → Registration
registration_of p a args = record {
  project_id = p.pk;
  agent = a.agent;
  name = args.name;
  api_server = args.api_server;
  namespace = args.namespace;
  release_name = args.release_name;
  credential_ref = args.credential_ref;
  ingress_class = or_empty args.ingress_class;
  tls_secret_name = or_empty args.tls_secret_name;
}

-- The `except` clauses of `_register_target`, for the lookups.
unfoldable pub catch_lookup {ℓ} : {A : Type ℓ} → ResolverError → Result ResolverError (Payload A)
catch_lookup project_does_not_exist = ok (refused "NOT_FOUND" (literal "resource not found"))
catch_lookup agent_does_not_exist = ok (refused "NOT_FOUND" (literal "resource not found"))
catch_lookup value_error = ok (refused "TARGET_VALIDATION_FAILED" message_of_int)
catch_lookup e = err e

-- ... and for the service: the database's `IntegrityError` and the gateway's `LookupError` are neither a
-- `ValueError` nor a `RuntimeError`.
unfoldable pub catch_service {ℓ} :
    {A : Type ℓ} → String → KubernetesError → Result ResolverError (Payload A)
catch_service code identity_duplicate = err integrity_error
catch_service code agent_missing = err lookup_error
catch_service code e = ok (refused code (message_of e))

unfoldable pub returned {ℓ} :
    {A : Type ℓ} → String → Result KubernetesError A → Result ResolverError (Payload A)
returned code (err e) = catch_service code e
returned code (ok a) = ok (done a)

-- `_register_target`
unfoldable pub register :
    Environment
    → (String → ParsedUrl)
    → Site
    → ℕ
    → String
    → String
    → TargetArguments
    → ValidateAnswer
    → Outcome KubernetesTarget
register env urlparse s user project_id agent_id args answer =
    elim (get_member_agent env s user project_id agent_id) [
      | err e ↦ (s, catch_lookup e)
      | ok (p, a) ↦
          let (t, r) = register_target urlparse s.targets (registration_of p a args) answer in
          (record s { targets = t }, returned "TARGET_VALIDATION_FAILED" r)
    ]
