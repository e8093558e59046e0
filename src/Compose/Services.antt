-- ===== src/Compose/Services.antt =====
-- cli/djangoops/compose.py: the services that `render_compose` puts in a file, and their helpers.
use Prim.Native.String.{◌++◌ as ◌<>◌}
use django_ops.Common.{
  ℕ, Bool, Option, none, some, List, [], ◌∷◌, ◌++◌, String, ◌==◌, if◌then◌else◌, Result, ok, ◌>>=◌,
}
use django_ops.Common.Dict.{Dict}
use django_ops.Config.Schema.{DjangoOpsConfig}
use django_ops.Integrations.Contract.{IntegrationError, IntegrationConfig}
use django_ops.Integrations.Evaluation.{setting}

pub record Healthcheck : Type 0 where
  pub test : List String
  pub interval : String
  pub timeout : String
  pub retries : ℕ

-- One service; a key that is left out is `none` or empty. `build` is the context, and `depends_on` has the
-- condition of each service.
pub record Service : Type 0 where
  pub image : Option String
  pub build : Option String
  pub command : List String
  pub env_file : List String
  pub environment : Dict String
  pub restart : String
  pub ports : List String
  pub expose : List String
  pub labels : List String
  pub volumes : List String
  pub healthcheck : Option Healthcheck
  pub depends_on : Dict String

pub record ComposeDocument : Type 0 where
  pub name : String
  pub services : Dict Service
  pub volumes : List String

abbrev pub restart_policy : String
restart_policy = "unless-stopped"

abbrev pub blank_service : Service
blank_service = record {
  image = none;
  build = none;
  command = [];
  env_file = [];
  environment = [];
  restart = restart_policy;
  ports = [];
  expose = [];
  labels = [];
  volumes = [];
  healthcheck = none;
  depends_on = [];
}

-- `module.removesuffix(suffix)`, for a suffix that is not empty
unfoldable pub remove_suffix : String → String → String
remove_suffix suffix String.[] = String.[]
remove_suffix suffix (String.◌∷◌ c s) =
    let rest = remove_suffix suffix s in
    if String.◌∷◌ c s == suffix then String.[] else String.◌∷◌ c rest

-- `_django_project_module`
unfoldable pub django_project_module : DjangoOpsConfig → String
django_project_module config = remove_suffix ".settings" config.django_module

-- `_infrastructure_dependencies`
unfoldable pub infrastructure_dependencies : Bool → Bool → Dict String
infrastructure_dependencies postgres redis =
    (if postgres then ("postgres", "service_healthy") ∷ [] else [])
    ++ (if redis then ("redis", "service_healthy") ∷ [] else [])

-- `_storage_environment`
unfoldable pub storage_environment : DjangoOpsConfig → Dict String
storage_environment config =
    ("DJANGOOPS_S3_ENDPOINT_URL", config.endpoint_url)
    ∷ ("DJANGOOPS_S3_STATIC_BUCKET", config.static_bucket)
    ∷ ("DJANGOOPS_S3_MEDIA_BUCKET", config.media_bucket)
    ∷ ("AWS_ACCESS_KEY_ID", "${AWS_ACCESS_KEY_ID:?AWS_ACCESS_KEY_ID must be set}")
    ∷ ("AWS_SECRET_ACCESS_KEY", "${AWS_SECRET_ACCESS_KEY:?AWS_SECRET_ACCESS_KEY must be set}")
    ∷ elim config.region [ none ↦ [] | some region ↦ ("AWS_REGION", region) ∷ [] ]

-- `_integration`
unfoldable pub find_integration : String → List IntegrationConfig → Option IntegrationConfig
find_integration name [] = none
find_integration name (c ∷ cs) = if c.name == name then some c else find_integration name cs

-- The three values that `_application_environment` takes from the otlp-export integration.
pub record Otel : Type 0 where
  pub sdk_disabled : String
  pub endpoint : String
  pub namespace : String

abbrev pub default_otel : Otel
default_otel = record {
  sdk_disabled = "${OTEL_SDK_DISABLED:-true}";
  endpoint = "${OTEL_EXPORTER_OTLP_ENDPOINT:-}";
  namespace = "djangoops";
}

unfoldable pub otel_of : Option IntegrationConfig → Result IntegrationError Otel
otel_of none = ok default_otel
otel_of (some c) =
    if c.enabled
    then (do
      endpoint ← setting "endpoint" c.config
      namespace ← setting "service_namespace" c.config
      ok (record { sdk_disabled = "false"; endpoint = endpoint; namespace = namespace }))
    else ok (record { sdk_disabled = "true"; endpoint = ""; namespace = "djangoops" })

-- `_application_environment`, the keys of which are none of the storage's
unfoldable pub application_environment : DjangoOpsConfig → String → Otel → Dict String
application_environment config component otel =
    storage_environment config
    ++ (("OTEL_SDK_DISABLED", otel.sdk_disabled)
        ∷ ("OTEL_EXPORTER_OTLP_ENDPOINT", otel.endpoint)
        ∷ ("OTEL_SERVICE_NAME", config.project_name <> "-" <> component)
        ∷ (
          "OTEL_RESOURCE_ATTRIBUTES",
          "service.namespace=" <> otel.namespace <> ",djangoops.project=" <> config.project_name
              <> ",djangoops.component=" <> component,
        )
        ∷ ("DJANGOOPS_CORRELATION_ID", "${DJANGOOPS_CORRELATION_ID:-}")
        ∷ [])

-- `_celery_service`
unfoldable pub celery_service : DjangoOpsConfig → List String → String → Otel → Service
celery_service config action component otel = record blank_service {
  build = some ".";
  command = "celery" ∷ "-A" ∷ django_project_module config ∷ action;
  env_file = ".env" ∷ [];
  environment = application_environment config component otel;
  depends_on = infrastructure_dependencies config.postgres config.redis;
}

unfoldable pub traefik_service : DjangoOpsConfig → Service
traefik_service config = record blank_service {
  image = some "traefik:v3.7.1";
  command =
      "--providers.docker=true"
      ∷ "--providers.docker.exposedbydefault=false"
      ∷ "--entrypoints.web.address=:80"
      ∷ "--entrypoints.web.http.redirections.entrypoint.to=websecure"
      ∷ "--entrypoints.web.http.redirections.entrypoint.scheme=https"
      ∷ "--entrypoints.websecure.address=:443"
      ∷ ("--certificatesresolvers.letsencrypt.acme.email=" <> config.acme_email)
      ∷ "--certificatesresolvers.letsencrypt.acme.storage=/letsencrypt/acme.json"
      ∷ "--certificatesresolvers.letsencrypt.acme.httpchallenge=true"
      ∷ "--certificatesresolvers.letsencrypt.acme.httpchallenge.entrypoint=web"
      ∷ [];
  ports = "80:80" ∷ "443:443" ∷ [];
  volumes = "/var/run/docker.sock:/var/run/docker.sock:ro" ∷ "traefik_acme:/letsencrypt" ∷ [];
}

abbrev pub probe_of : String → Healthcheck
probe_of path = record {
  test =
      "CMD"
      ∷ "python"
      ∷ "-c"
      ∷ ("import urllib.request; urllib.request.urlopen('http://127.0.0.1:8000" <> path
          <> "', timeout=2).read(1)")
      ∷ [];
  interval = "15s";
  timeout = "3s";
  retries = 3;
}

-- The probe of a django-runtime integration that is enabled.
unfoldable pub web_healthcheck :
    Option IntegrationConfig → Result IntegrationError (Option Healthcheck)
web_healthcheck none = ok none
web_healthcheck (some c) =
    if c.enabled
    then (setting "health_path" c.config >>= λ path. ok (some (probe_of path)))
    else ok none

unfoldable pub web_service : DjangoOpsConfig → Otel → Option Healthcheck → Service
web_service config otel healthcheck = record blank_service {
  build = some ".";
  command =
      "gunicorn"
      ∷ (django_project_module config <> ".wsgi:application")
      ∷ "--bind"
      ∷ "0.0.0.0:8000"
      ∷ [];
  env_file = ".env" ∷ [];
  environment = application_environment config "web" otel;
  expose = "8000" ∷ [];
  labels =
      "traefik.enable=true"
      ∷ ("traefik.http.routers.web.rule=Host(`" <> config.hostname <> "`)")
      ∷ "traefik.http.routers.web.entrypoints=websecure"
      ∷ "traefik.http.routers.web.tls=true"
      ∷ "traefik.http.routers.web.tls.certresolver=letsencrypt"
      ∷ "traefik.http.services.web.loadbalancer.server.port=8000"
      ∷ [];
  healthcheck = healthcheck;
  depends_on = infrastructure_dependencies config.postgres config.redis;
}

abbrev pub postgres_service : Service
postgres_service = record blank_service {
  image = some "postgres:16";
  environment =
      ("POSTGRES_DB", "${POSTGRES_DB:-djangoops}")
      ∷ ("POSTGRES_USER", "${POSTGRES_USER:-djangoops}")
      ∷ ("POSTGRES_PASSWORD", "${POSTGRES_PASSWORD:?POSTGRES_PASSWORD must be set}")
      ∷ [];
  volumes = "postgres_data:/var/lib/postgresql/data" ∷ [];
  healthcheck = some (record {
    test =
        "CMD-SHELL" ∷ "pg_isready -U $${POSTGRES_USER:-djangoops} -d $${POSTGRES_DB:-djangoops}"
        ∷ [];
    interval = "10s";
    timeout = "5s";
    retries = 5;
  });
}

abbrev pub redis_service : Service
redis_service = record blank_service {
  image = some "redis:7-alpine";
  command = "redis-server" ∷ "--appendonly" ∷ "yes" ∷ [];
  volumes = "redis_data:/data" ∷ [];
  healthcheck = some (record {
    test = "CMD" ∷ "redis-cli" ∷ "ping" ∷ [];
    interval = "10s";
    timeout = "5s";
    retries = 5;
  });
}
