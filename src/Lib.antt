-- ===== src/Lib.antt =====
-- DjangoOps: a verification library for the control plane and the deployment tool.
--
-- The program. The control plane (controlplane/) is a Django site that talks to agents on the hosts it
-- operates. An agent keeps one stream to the gateway (controlplane/gateway.py), on which diagnostics and
-- Kubernetes releases run as jobs. controlplane/services.py starts diagnostics, consumes the gateway's
-- frames in a task of the gateway's event loop and writes what they say to the table of operations.
-- controlplane/kubernetes.py registers cluster targets and starts releases of a digest-pinned image, each a
-- row of the table of releases and a job of the gateway. controlplane/telemetry.py counts what all of them
-- report, and controlplane/observability.py reports the rows that are saved and summarises them. Users reach
-- the site by GraphQL (controlplane/graphql/), within limits on a query and only for projects that they are
-- members of. The command line tool (cli/djangoops/) writes a project's configuration, with its
-- integrations, renders the Compose file and deploys it over SSH, without the control plane.
--
-- The files, by the code they model. State is a record, an operation a function from the state and its
-- arguments to the new state and a result, and an exception a value of `Result`.
--   Common: Python's texts, dicts, slices and exceptions, as far as the code uses them: Common.Text
--   (patterns and paths), Common.Dict, Common.Lists, Common.Raising (`Result`), Common.Redact (`re.sub` of
--   the patterns that hide secrets), Common.Tests (Boolean tests and case splits).
--   Gateway: controlplane/gateway.py. Gateway.State has the frames and `Gateway`, the object's attributes;
--   Gateway.Jobs has `_accept_event`, `_open_job`, `_events`, `diagnostics`, `kubernetes_release`, `cancel`
--   and `_remember_completed`; Gateway.Sessions has `__init__`, `Connect`, `_consume` and `_disconnect`;
--   Gateway.Steps is one step relation over all of them. Gateway.Cases, Admission, Calls,
--   Gateway.Delivery, Gateway.Lifecycle, Gateway.Presence and Gateway.Invariant have the proofs.
--   Diagnostics: controlplane/services.py and `DiagnosticOperation` of controlplane/models.py.
--   Diagnostics.State is the table, Diagnostics.Backend has `agent_state` and the queries of the gateway,
--   Diagnostics.Service has the rest of `OperationsService` and the functions of `_consume`;
--   Diagnostics.Starting, Final, Race, History and Outcomes have the proofs. The gateway's clock counts
--   nanoseconds.
--   Kubernetes: controlplane/kubernetes.py and its models. Kubernetes.Validation has the validators,
--   Kubernetes.Releases `start_release` in two parts and `cancel_release`, Kubernetes.Targets
--   `register_target`, Kubernetes.Events their interleavings; Kubernetes.Rows, Uniqueness, Finality,
--   Starting, Requests, Registering and Outcomes have the proofs.
--   Deploy: cli/djangoops/deploy.py. Deploy.Targets has the target and the plan, Deploy.Commands the
--   commands that are run on the host, Deploy.Flow `deploy_project`; Deploy.Stages and Deploy.Destination
--   have the proofs.
--   Config: cli/djangoops/config.py. Config.Validators has the validators, Config.Schema the configuration
--   and its document; Config.Accepted and Config.Validity have the proofs.
--   Graphql: controlplane/graphql/. Graphql.Document and Graphql.Walk have `_resource_error` of views.py;
--   Graphql.Termination, Growth, Depth and Doubling have its proofs. Graphql.Site has the database and the
--   lookups of schema.py, Graphql.Queries, Graphql.Mutations and Graphql.ReleaseMutations the resolvers,
--   which call Diagnostics and Kubernetes; Graphql.Steps has requests as steps of the database.
--   Graphql.ReleaseValues has `_release_values`, Graphql.InstalledValues the functions of
--   controlplane/observability.py and controlplane/kubernetes_observability.py that replace it and
--   `sanitize_values` when the site starts.
--   Graphql.Lookups, Scope and Values, Tables, Operations, Cancelling, TargetRows, ReleaseRows, Ownership,
--   DiagnosticIsolation, ReleaseIsolation and Isolation have the proofs.
--   Health: cli/djangoops/health.py. Health.Report has the parser of the remote report, Health.Reading the
--   proofs.
--   Observability: controlplane/observability.py. Observability.Seen has `_remember`, Diagnostics, Releases and
--   Saves the handlers of `post_save`, which call Telemetry, and Summary `summary_for_project` and
--   `prometheus_extra`; Window, Noticed and Members have the proofs.
--   Compose: cli/djangoops/compose.py. Compose.Services has the services, Compose.Render `render_compose` up
--   to the YAML encoder, which takes what Config and Integrations read, and Compose.Complete the proofs.
--   Integrations: cli/djangoops/integrations.py and controlplane/ecosystem.py. Integrations.Contract has the
--   registry, Integrations.Parser `parse_integrations`, Integrations.Evaluation `evaluate_integration`,
--   Integrations.Projects the evaluation for a project and the theorem on all of it; Settings, Parsing,
--   Lengths and Ready have the other proofs.
--   Telemetry: controlplane/telemetry.py. Telemetry.Counters, Telemetry.State and Telemetry.Steps have the
--   object and its operations, Telemetry.Bounds and Telemetry.Totals the proofs.
-- A file named Tests applies a part's theorems to concrete states.
--
-- Concurrency. A coroutine of the gateway runs until it awaits, so a handler is one step; where it waits
-- at a full queue, the step ends with `Put.waits`. Writes to the database are one event for each
-- transaction, update or save, and what a task saw earlier is an argument of its later write: the start of a
-- diagnostic is three of them, the creation of the row, the save of a failed start and the trimming. The telemetry
-- object is changed under its lock, one run of the lock at a time; the counters and the queue of exports
-- that one observation changes are put in one step, and what exports do in between touches neither.
--
-- Bounds. A job's queue and an agent's queue hold 32 frames, the history of a project 200 finished
-- operations, a text of a check 2048 characters, the memory of reported rows 2048 keys, a project eight
-- integrations. Loops are recursion on a list or a text, but for two
-- on fuel: `sub_secrets` takes the length of the text and uses up a character or a match, never empty, in
-- each round; the walk over a query takes the number of fragments, since a fragment is not expanded inside
-- itself. Numbers are natural numbers, as Python's integers do not wrap.
--
-- Left out. Code outside the repository is an argument: `urlparse`, the JSON encoder, SHA-256, `str.upper`,
-- `urlsplit`, `shlex.quote`, random tokens, the answers of the agent and of SSH. Not modelled are YAML,
-- backups, the remote script of the health check, the catalogue of integrations, the types and the execution
-- of GraphQL, the views and templates, the installation of signals and middleware, and the agent itself, a
-- program in Go.
pub mod Common
pub mod Gateway
pub mod Compose
pub mod Config
pub mod Deploy
pub mod Diagnostics
pub mod Graphql
pub mod Health
pub mod Integrations
pub mod Kubernetes
pub mod Observability
pub mod Telemetry
