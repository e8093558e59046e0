-- ===== src/Graphql/Tests.antt =====
-- Runs of the limits of controlplane/graphql/views.py on concrete documents.
use django_ops.Common.{
  ℕ, zero, suc, ◌≡◌, refl, ap, false, none, some, [], ◌∷◌, String, ◌≤◌, length, arith,
}
use django_ops.Common.Dict.{lookup, insert}
use django_ops.Common.Text.{codes, occurs, starts_with}
use django_ops.Graphql.Document.{
  leaf, field, spread, end, select, SelectionSet, fragment, operation, Document, here, first,
}
use django_ops.Graphql.Walk.{
  walk_all, no_tally, Tally, tally, loop, enter, count_field, expand_spread, walk, collect,
  walk_definition, Limits, check_limits, resource_error, query_too_deep, introspection_disabled,
}
use django_ops.Graphql.Termination.{resource_error_decided}
use django_ops.Graphql.Depth.{Contains, root, under_field, under_spread, accepted-shallow}
use django_ops.Graphql.Doubling.{chain, tally-chain}

-- `query { a { ...F } }` and `fragment F { b { c } ...F }`
abbrev inner_set : SelectionSet
inner_set = select leaf end

abbrev fragment_set : SelectionSet
fragment_set = select (field inner_set) (select (spread "F") end)

abbrev query_set : SelectionSet
query_set = select (field (select (spread "F") end)) end

abbrev document : Document
document = operation query_set ∷ fragment "F" fragment_set ∷ []

abbrev limits : Limits
limits = record { max_depth = 3; max_fields = 10; introspection = false }

program : Unit {0}
unfolding resource_error tally collect walk_all walk_definition walk loop enter count_field
    expand_spread check_limits insert lookup occurs starts_with
program = tt

document_walked : tally document ≡ some (record { max_depth = 3; fields = 3 })
unfolding program
document_walked = refl

document_accepted : resource_error limits (codes "query") document ≡ some none
unfolding program
document_accepted = refl

document_deep :
    resource_error (record limits { max_depth = 2 }) (codes "query") document
    ≡ some (some query_too_deep)
unfolding program
document_deep = refl

document_introspects :
    resource_error limits (codes "{ __schema { types } }") document
    ≡ some (some introspection_disabled)
unfolding program
document_introspects = refl

resource_error_decided_example :
    (t : Tally) × (tally document ≡ some t)
    × (walk_all 6 (("F", fragment_set) ∷ []) document no_tally ≡ some t)
    × (resource_error limits (codes "query") document
        ≡ some (check_limits limits (codes "query") t))
unfolding program
resource_error_decided_example = resource_error_decided limits (codes "query") document 5

inner_contained : Contains document ("F" ∷ []) 3 inner_set
unfolding program
inner_contained = under_field (under_spread (under_field (root first) here) here refl refl) here

accepted-shallow_example : 3 ≤ 3
accepted-shallow_example =
    accepted-shallow limits (codes "query") document document_accepted inner_contained

-- `a`, `aa`, `aaa`, ...
unfoldable letters : ℕ → String
letters zero = "a"
letters (suc n) = String.◌∷◌ "a" (letters n)

letters-length : (n : ℕ) → length (codes (letters n)) ≡ suc n
unfolding letters
letters-length zero = refl
letters-length (suc n) = ap suc (letters-length n)

letters_distinct : (i j : ℕ) → letters i ≡ letters j → i ≡ j
letters_distinct i j h =
    omega (arith, letters-length i, letters-length j, ap (λ s. length (codes s)) h)

tally-chain_example : tally (chain letters 10) ≡ some (record { max_depth = 1; fields = 1024 })
tally-chain_example = tally-chain letters letters_distinct 10
