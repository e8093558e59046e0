-- ===== src/Compose/Render.antt =====
-- cli/djangoops/compose.py: `render_compose`, up to the YAML encoder.
use django_ops.Common.{Bool, true, false, List, [], ◌∷◌, ◌++◌, Result, ok, ◌>>=◌}
use django_ops.Config.Schema.{DjangoOpsConfig}
use django_ops.Integrations.Contract.{IntegrationError, IntegrationConfig}
use django_ops.Compose.Services.{
  ComposeDocument, find_integration, otel_of, celery_service, traefik_service, web_healthcheck,
  web_service, postgres_service, redis_service,
}

-- `if flag: d[key] = value`, for a key that is new
abbrev pub optional {ℓ} : {A : Type ℓ} → Bool → A → List A
optional true a = a ∷ []
optional false a = []

-- `render_compose` before the YAML encoder
unfoldable pub render_compose :
    DjangoOpsConfig → List IntegrationConfig → Result IntegrationError ComposeDocument
render_compose config integrations = do
  otel ← otel_of (find_integration "otlp-export" integrations)
  healthcheck ← web_healthcheck (find_integration "django-runtime" integrations)
  ok (record {
    name = config.project_name;
    services =
        ("traefik", traefik_service config)
        ∷ ("web", web_service config otel healthcheck)
        ∷ (optional config.postgres ("postgres", postgres_service)
            ++ (optional config.redis ("redis", redis_service)
                ++ (optional config.celery (
                  "celery",
                  celery_service config ("worker" ∷ "--loglevel=INFO" ∷ []) "worker" otel,
                )
                    ++ optional config.celery_beat (
                      "celery_beat",
                      celery_service config ("beat" ∷ "--loglevel=INFO" ∷ []) "beat" otel,
                    ))));
    volumes =
        "traefik_acme"
        ∷ (optional config.postgres "postgres_data" ++ optional config.redis "redis_data");
  })
