-- ===== src/Graphql/ReleaseValues.antt =====
-- `_release_values` of controlplane/graphql/schema.py.
use django_ops.Common.{Bool, Option, none, some, [], ◌∷◌, ◌++◌, String, if◌then◌else◌}
use django_ops.Common.Dict.{Dict, lookup}

-- The JSON values that the values of a release inspect and build: tests of Python, `str`, and the views as a
-- boolean or a dict.
pub record Json {ℓ} (J : Type ℓ) : Type ℓ where
  pub is_none : J → Bool
  pub is_truthy : J → Bool
  pub true_value : J
  pub empty_text : J
  pub false_value : J
  pub text : String → J
  pub object : Dict J → J
  pub str : J → String
  pub as_boolean : J → Option Bool
  pub as_object : J → Option (Dict J)

module _ {ℓ} {J : Type ℓ} (json : Json J) where
  -- `raw.get(key)` that is not `None`
  unfoldable pub given : Dict J → String → Option J
  given raw key = elim (lookup key raw) [
    | none ↦ none
    | some v ↦ if json.is_none v then none else some v
  ]

  unfoldable pub copied : Dict J → String → Dict J
  copied raw key = elim (given raw key) [ none ↦ [] | some v ↦ (key, v) ∷ [] ]

  unfoldable pub switched : Dict J → String → String → Dict J
  switched raw key name = elim (given raw key) [
    | none ↦ []
    | some v ↦ (name, json.object (("enabled", v) ∷ [])) ∷ []
  ]

  -- `raw.get(key, "")`
  unfoldable pub text_or_empty : Dict J → String → J
  text_or_empty raw key = elim (lookup key raw) [ none ↦ json.empty_text | some v ↦ v ]

  unfoldable pub ingress_values : Dict J → Dict J
  ingress_values raw = elim (lookup "ingressHost" raw) [
    | none ↦ []
    | some host ↦
        if json.is_truthy host
        then (
          "ingress",
          json.object (
              ("enabled", json.true_value)
              ∷ ("host", host)
              ∷ ("className", text_or_empty raw "ingressClass")
              ∷ ("tlsSecretName", text_or_empty raw "tlsSecretName")
              ∷ []),
        )
          ∷ []
        else []
  ]

  -- `_release_values`, which controlplane/observability.py wraps
  unfoldable pub release_values : Dict J → Dict J
  release_values raw =
      copied raw "webReplicas"
      ++ (copied raw "environmentSecretName"
          ++ (copied raw "migrationCompatibility"
              ++ (switched raw "celeryWorkerEnabled" "celeryWorker"
                  ++ (switched raw "celeryBeatEnabled" "celeryBeat" ++ ingress_values raw))))
