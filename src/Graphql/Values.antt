-- ===== src/Graphql/Values.antt =====
-- The values that the installed `_release_values` builds against what the installed `sanitize_values` accepts
-- (controlplane/graphql/schema.py, kubernetes.py, observability.py and kubernetes_observability.py).
use django_ops.Common.{Bool, String, member}
use django_ops.Common.Dict.{Dict}
use django_ops.Kubernetes.Validation.{allowed_values}
use django_ops.Graphql.ReleaseValues.{Json}

module _ {ℓ} {J : Type ℓ} (json : Json J) where
  abbrev allowed : String × J → Bool
  allowed e = member e.0 allowed_values
