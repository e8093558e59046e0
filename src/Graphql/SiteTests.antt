-- ===== src/Graphql/SiteTests.antt =====
-- Queries and mutations on a concrete database with two projects.
use django_ops.Common.{
  ◌≡◌, refl, true, false, none, some, List, [], ◌∷◌, String, ◌==◌, eqb, All, arith, ok, err,
  if◌then◌else◌,
}
use django_ops.Common.Dict.{Dict, lookup, erase}
use django_ops.Common.Text.{occurs, starts_with}
use django_ops.Diagnostics.State
use django_ops.Diagnostics.State.{Operation}
use django_ops.Diagnostics.Service
use django_ops.Kubernetes.Validation.{ParsedUrl, sanitize_values, strip, rstrip_where}
use django_ops.Common.Redact.{truncate, skip_spaces, is_space}
use django_ops.Graphql.Site.{
  Site, Environment, no_number, number, project_does_not_exist, get_where, sees_among, get_project,
  get_agent, get_public, get_operation,
}
use django_ops.Graphql.Queries.{
  operations_of, count, page_size, operations, operation_row, project_of, resolve_query,
}
use django_ops.Graphql.Mutations.{
  refused, literal, start, cancel, get_member_agent, catch_start, catch_cancel, refreshed_operation,
}
use django_ops.Graphql.ReleaseValues.{
  Json, given, copied, switched, text_or_empty, ingress_values, release_values,
}
use django_ops.Config.Validators.{SplitUrl, rstrip_char}
use django_ops.Graphql.InstalledValues.{
  validate_otlp_endpoint, matches_namespace, text_or, is_on, installed_release_values, enabled_of,
  sanitize_enabled, sanitize_entries, sanitize_observability, with_observability,
  installed_sanitize,
}
use django_ops.Graphql.Steps.{start_diagnostic, cancel_diagnostic, step, rows_of}
use django_ops.Graphql.Ownership.{IsOwned}
use django_ops.Graphql.Isolation.{Request, run, run-Isolated}
use django_ops.Graphql.Scope.{IsVisible, resolve_query-IsVisible}

abbrev shop_row : Operation
shop_row = record {
  pk = 1;
  project_id = 4;
  status = State.running;
  result_summary = State.blank;
  error_code = "";
}

abbrev blog_row : Operation
blog_row = record {
  pk = 2;
  project_id = 5;
  status = State.running;
  result_summary = State.blank;
  error_code = "";
}

-- User 7 is a member of the shop, user 8 of the blog.
abbrev site : Site
site = record {
  projects =
      record { pk = 5; slug = "blog"; members = 8 ∷ [] }
      ∷ record { pk = 4; slug = "shop"; members = 7 ∷ [] }
      ∷ [];
  agents = record { pk = 3; agent = record { agent_id = "vps-1"; project_id = 4 } } ∷ [];
  operations = record { rows = blog_row ∷ shop_row ∷ []; next_pk = 3 };
  targets = record { rows = []; next_pk = 1 };
  releases = record { rows = []; next_pk = 1 };
}

abbrev environment : Environment
environment = record {
  int = λ s.
      if s == "4"
      then number 4
      else if s == "5"
      then number 5
      else if s == "3"
      then number 3
      else no_number;
  to_uuid = λ s. if s == "" then none else some s;
  operation_uuid = λ pk. if eqb pk 1 then "u1" else "u2";
  target_uuid = λ pk. "t";
  release_uuid = λ pk. "r";
}

program : Unit {0}
unfolding strip skip_spaces is_space rstrip_where rstrip_char truncate erase validate_otlp_endpoint
    matches_namespace text_or is_on installed_release_values enabled_of sanitize_enabled
    sanitize_entries sanitize_observability with_observability installed_sanitize get_where
    sees_among get_project get_agent get_public get_operation page_size operations project_of
    resolve_query start cancel get_member_agent catch_start catch_cancel refreshed_operation step
    rows_of run release_values given copied switched ingress_values text_or_empty sanitize_values
    occurs starts_with lookup Service.start Service.create_row Service.save_start
    Service.trim_history Service.trim_rows State.delete_pks State.has_pk Service.in_history
    Service.started_row State.is_active Service.cancel State.find State.is_terminal
    Service.cancel_write Service.save_error State.update_where
program = tt

shop_operations :
    resolve_query environment site 7 (operations_of "4" (count 10))
    ≡ ok (operation_row shop_row ∷ [])
unfolding program
shop_operations = refl

blog_hidden :
    resolve_query environment site 7 (operations_of "5" (count 10)) ≡ err project_does_not_exist
unfolding program
blog_hidden = refl

-- A malformed identifier of an agent is reported as a diagnostic that is not supported.
bad_agent :
    (start environment site 7 "4" "vps-1" "django_health" (λ a. true) Service.started).1
    ≡ ok (refused "INVALID_DIAGNOSTIC" (literal "unsupported diagnostic"))
unfolding program
bad_agent = refl

resolve_query-IsVisible_example : All (IsVisible site 7) (operation_row shop_row ∷ [])
resolve_query-IsVisible_example =
    resolve_query-IsVisible environment site 7 (operations_of "4" (count 10)) shop_operations

abbrev json : Json String
json = record {
  is_none = λ v. v == "null";
  is_truthy = λ v. if v == "" then false else true;
  true_value = "true";
  empty_text = "";
  false_value = "false";
  text = λ s. s;
  object = λ d. "object";
  str = λ s. s;
  as_boolean = λ s. if s == "true" then some true else none;
  as_object = λ s. some (("enabled", "true") ∷ ("otlpEndpoint", "http://o") ∷ []);
}

abbrev requests : List (Request String)
requests =
    record {
      user = 7;
      mutation = start_diagnostic "4" "3" "django_health" (λ a. true) Service.started;
    }
    ∷ record { user = 7; mutation = cancel_diagnostic "u1" (Service.answered true) }
    ∷ record { user = 7; mutation = cancel_diagnostic "u2" (Service.answered true) }
    ∷ []

abbrev parse : String → ParsedUrl
parse s = record { scheme = "https"; hostname = some "host"; username = none; password = none }

-- The member's own operation was cancelled, the other project's was not found.
after_requests : (run json environment parse site requests).operations.next_pk ≡ 4
unfolding program
after_requests = refl

site-IsOwned : IsOwned site
site-IsOwned = record {
  operation_owner = λ k. if eqb k 1 then 4 else 5;
  operations = record { rows = (refl, (refl, tt)); below = (omega arith, (omega arith, tt)) };
  target_owner = λ k. 0;
  targets = record { rows = tt; below = tt };
  release_owner = λ k. 0;
  releases = record { rows = tt; below = tt; by_target = tt; known = tt };
}

run-Isolated_example :
    IsOwned (run json environment parse site requests)
    × (rows_of 5 (run json environment parse site requests) ≡ rows_of 5 site)
unfolding program
run-Isolated_example =
    run-Isolated json environment parse 5 site requests site-IsOwned (refl, (refl, (refl, tt)))

abbrev raw : Dict String
raw = ("webReplicas", "3") ∷ ("celeryWorkerEnabled", "true") ∷ ("ingressHost", "shop.example") ∷ []

abbrev encoded : Dict String → String
encoded d = "{}"

abbrev same : String → String
same s = s

abbrev observed : Dict String
observed = ("observabilityEnabled", "true") ∷ ("otlpEndpoint", "http://o/") ∷ raw

abbrev split_otlp : String → SplitUrl
split_otlp s = record {
  scheme = "http";
  hostname = some "o";
  username = none;
  password = none;
  path = "/";
  query = "";
  fragment = "";
}
