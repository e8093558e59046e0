-- ===== src/Compose/Complete.antt =====
-- What every generated Compose file satisfies (cli/djangoops/compose.py), for integrations that the parser of
-- cli/djangoops/integrations.py accepts.
use django_ops.Common.{
  ◌≡◌, refl, sym, ◌∙◌, ap, subst, inl, inr, Bool, true, ◌&&◌, ◌||◌, Option, none, some, List, [],
  ◌∷◌, ◌++◌, String, ◌==◌, eq_iff, all, any, map, All, is_some, Bool-cases, Option-cases, ok, arith,
}
use django_ops.Common.Dict.{Dict, lookup, contains}
use django_ops.Common.Text.{codes, starts_with, split_go, eq_text}
use django_ops.Config.Schema.{DjangoOpsConfig}
use django_ops.Config.Validators.{SplitUrl}
use django_ops.Integrations.Contract.{IntegrationConfig, Value}
use django_ops.Integrations.Parser.{is_distinct, parse_integrations}
use django_ops.Integrations.Evaluation.{setting}
use django_ops.Integrations.Settings.{IsRuntime, IsOtlp}
use django_ops.Integrations.Parsing.{IsAllowed, parse_integrations-IsAllowed}
use django_ops.Compose.Services.{
  Healthcheck, Service, ComposeDocument, infrastructure_dependencies, find_integration, Otel,
  otel_of, web_healthcheck, probe_of, default_otel, traefik_service, web_service, celery_service,
  postgres_service, redis_service,
}
use django_ops.Compose.Render.{optional, render_compose}

-- A service of the file has this name and a probe.
abbrev pub has_probe : Dict Service → String → Bool
has_probe services name = any (λ e. e.0 == name && is_some e.1.healthcheck) services

-- A mount is of a path of the host, or of a volume that the file declares.
unfoldable pub mount_declared : List String → String → Bool
mount_declared volumes mount =
    starts_with (codes "/") (codes mount)
    || any (λ v. eq_text (codes v) (split_go b':' (codes mount)).0) volumes

-- Each service that another waits for is in the file and has a probe, each volume that is mounted is declared,
-- names are distinct, and a service is in the file exactly if the configuration asks for it.
pub record IsComplete (config : DjangoOpsConfig) (d : ComposeDocument) : Type 0 where
  pub dependencies : all (λ e. all (λ k. has_probe d.services k.0) e.1.depends_on) d.services ≡ true
  pub mounts : all (λ e. all (mount_declared d.volumes) e.1.volumes) d.services ≡ true
  pub distinct : is_distinct (map (λ e. e.0) d.services) ≡ true
  pub postgres : contains "postgres" d.services ≡ config.postgres
  pub redis : contains "redis" d.services ≡ config.redis
  pub celery : contains "celery" d.services ≡ config.celery
  pub celery_beat : contains "celery_beat" d.services ≡ config.celery_beat

differ : ¬ (◌≡◌ {A = String} "django-runtime" "otlp-export")
differ h = cc (ap (λ s. s == "otlp-export") h)

-- The integration that is found is one of the list, and has the name.
find_integration-All :
    (P : IntegrationConfig → Type 0) (name : String) (cs : List IntegrationConfig)
    (c : IntegrationConfig)
    → All P cs
    → find_integration name cs ≡ some c
    → P c × (c.name ≡ name)
unfolding find_integration
find_integration-All P name [] c a h = cc
find_integration-All P name (x ∷ xs) c a h = elim (Bool-cases (x.name == name)) [
  | inl e ↦
      let same : x ≡ c = ground arith in
      subst (λ (y : IntegrationConfig). P y × (y.name ≡ name)) same (a.0, (eq_iff x.name name).0 e)
  | inr e ↦ find_integration-All P name xs c a.1 (rw e at h)
]

otel-found :
    (urlsplit : String → SplitUrl) (c : IntegrationConfig)
    → IsOtlp urlsplit c.config
    → (otel : Otel) × (otel_of (some c) ≡ ok otel)
unfolding otel_of setting
otel-found urlsplit c r = elim (Bool-cases c.enabled) [
  | inl on ↦ (
    record { sdk_disabled = "false"; endpoint = r.endpoint; namespace = r.namespace },
    rw (on, setting, r.has_endpoint, r.has_namespace) refl,
  )
  | inr off ↦
      (record { sdk_disabled = "true"; endpoint = ""; namespace = "djangoops" }, rw off refl)
]

probe-found :
    (c : IntegrationConfig)
    → IsRuntime c.config
    → (probe : Option Healthcheck) × (web_healthcheck (some c) ≡ ok probe)
unfolding web_healthcheck setting
probe-found c r = elim (Bool-cases c.enabled) [
  | inl on ↦ (some (probe_of r.path), rw (on, setting, r.has_path) refl)
  | inr off ↦ (none, rw off refl)
]

module _ (urlsplit : String → SplitUrl) (cs : List IntegrationConfig)
    (allowed : All (IsAllowed urlsplit) cs) where
  otel_of-ok : (otel : Otel) × (otel_of (find_integration "otlp-export" cs) ≡ ok otel)
  unfolding otel_of
  otel_of-ok = elim (Option-cases (find_integration "otlp-export" cs)) [
    | inl e ↦ (default_otel, rw e refl)
    | inr (c, e) ↦
        let (a, name) = find_integration-All (IsAllowed urlsplit) "otlp-export" cs c allowed e in
        elim a.configured [
          | inl (n, _) ↦ absurd (differ (sym n ∙ name))
          | inr (_, r) ↦ let (otel, found) = otel-found urlsplit c r in (otel, rw e found)
        ]
  ]

  web_healthcheck-ok :
      (probe : Option Healthcheck) × (web_healthcheck (find_integration "django-runtime" cs)
        ≡ ok probe)
  unfolding web_healthcheck
  web_healthcheck-ok = elim (Option-cases (find_integration "django-runtime" cs)) [
    | inl e ↦ (none, rw e refl)
    | inr (c, e) ↦
        let (a, name) = find_integration-All (IsAllowed urlsplit) "django-runtime" cs c allowed e in
        elim a.configured [
          | inl (_, r) ↦ let (probe, found) = probe-found c r in (probe, rw e found)
          | inr (n, _) ↦ absurd (differ (sym name ∙ n))
        ]
  ]

-- The services and volumes of the file.
abbrev document_of : DjangoOpsConfig → Otel → Option Healthcheck → ComposeDocument
document_of config otel probe = record {
  name = config.project_name;
  services =
      ("traefik", traefik_service config)
      ∷ ("web", web_service config otel probe)
      ∷ (optional config.postgres ("postgres", postgres_service)
          ++ (optional config.redis ("redis", redis_service)
              ++ (optional config.celery (
                "celery",
                celery_service config ("worker" ∷ "--loglevel=INFO" ∷ []) "worker" otel,
              )
                  ++ optional config.celery_beat (
                    "celery_beat",
                    celery_service config ("beat" ∷ "--loglevel=INFO" ∷ []) "beat" otel,
                  ))));
  volumes =
      "traefik_acme"
      ∷ (optional config.postgres "postgres_data" ++ optional config.redis "redis_data");
}

document-IsComplete :
    (config : DjangoOpsConfig) (otel : Otel) (probe : Option Healthcheck) (p r c b : Bool)
    → let chosen = record config { postgres = p; redis = r; celery = c; celery_beat = b } in
      IsComplete chosen (document_of chosen otel probe)
unfolding mount_declared traefik_service web_service celery_service infrastructure_dependencies
    is_distinct lookup starts_with split_go eq_text
document-IsComplete config otel probe p r c b = ground arith

-- For integrations that the parser accepts, a Compose document is produced in which each service that another
-- waits for exists and has a probe, each volume that is mounted is declared, names are distinct, and a service
-- exists exactly if the configuration asks for it.
pub render_compose-IsComplete :
    (urlsplit : String → SplitUrl) (value : Value) (config : DjangoOpsConfig)
    (cs : List IntegrationConfig)
    → parse_integrations urlsplit value ≡ ok cs
    → (d : ComposeDocument) × (render_compose config cs ≡ ok d) × IsComplete config d
unfolding render_compose
render_compose-IsComplete urlsplit value config cs h =
    let allowed = (parse_integrations-IsAllowed urlsplit value cs h).2 in
    let (otel, read) = otel_of-ok urlsplit cs allowed in
    let (probe, found) = web_healthcheck-ok urlsplit cs allowed in
    (
      document_of config otel probe,
      rw (read, found) refl,
      document-IsComplete config otel probe config.postgres config.redis config.celery
          config.celery_beat,
    )
