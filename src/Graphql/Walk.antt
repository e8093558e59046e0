-- ===== src/Graphql/Walk.antt =====
-- `_resource_error` of controlplane/graphql/views.py: the walk over a query's selections and the limits.
use django_ops.Common.{
  ℕ, zero, suc, ◌+◌, max, Bool, not, ◌&&◌, ◌||◌, Option, none, some, List, [], ◌∷◌, String, length,
  member, ltb, if◌then◌else◌,
}
use django_ops.Common.Dict.{Dict, lookup, insert}
use django_ops.Common.Text.{Text, codes, occurs}
use django_ops.Graphql.Document.{
  Selection, leaf, field, spread, inline, SelectionSet, end, select, Definition, fragment,
  operation, other, Document,
}

-- The two `nonlocal` variables.
pub record Tally : Type 0 where
  pub max_depth : ℕ
  pub fields : ℕ

unfoldable pub enter : ℕ → Tally → Tally
enter depth t = record t { max_depth = max t.max_depth depth }

unfoldable pub count_field : Tally → Tally
count_field t = record t { fields = t.fields + 1 }

infixl 5 ◌>>=◌
abbrev pub ◌>>=◌ : Option Tally → (Tally → Option Tally) → Option Tally
none >>= f = none
some t >>= f = f t

-- What a spread of a name does at a depth; `none` means that the fuel ran out.
abbrev pub Expand : Type 0
Expand = String → ℕ → Tally → Option Tally

-- The loop of `walk` over the selections of a set that was entered.
unfoldable mutual
  pub loop : Expand → ℕ → SelectionSet → Tally → Option Tally
  loop expand depth end t = some t
  loop expand depth (select s rest) t = visit expand depth s t >>= λ t'. loop expand depth rest t'

  pub visit : Expand → ℕ → Selection → Tally → Option Tally
  visit expand depth leaf t = some (count_field t)
  visit expand depth (field sub) t = loop expand (suc depth) sub (enter (suc depth) (count_field t))
  visit expand depth (spread name) t = expand name depth t
  visit expand depth (inline sub) t = loop expand depth sub (enter depth t)

-- A spread, with the names of the fragments around it. The fuel bounds how deep spreads nest.
unfoldable pub expand_spread : ℕ → Dict SelectionSet → List String → Expand
unfolding loop
expand_spread zero fragments active name depth t =
    if member name active
    then some t
    else elim (lookup name fragments) [ none ↦ some t | some sub ↦ none ]
expand_spread (suc fuel) fragments active name depth t =
    if member name active then some t else elim (lookup name fragments) [
      | none ↦ some t
      | some sub ↦ loop (expand_spread fuel fragments (name ∷ active)) depth sub (enter depth t)
    ]

-- `walk`
unfoldable pub walk : ℕ → Dict SelectionSet → List String → ℕ → SelectionSet → Tally → Option Tally
walk fuel fragments active depth set t =
    loop (expand_spread fuel fragments active) depth set (enter depth t)

-- The dict of the fragments by name: of two with one name the later stands.
unfoldable pub collect : Document → Dict SelectionSet → Dict SelectionSet
collect [] fragments = fragments
collect (fragment name set ∷ ds) fragments = collect ds (insert name set fragments)
collect (operation set ∷ ds) fragments = collect ds fragments
collect (other ∷ ds) fragments = collect ds fragments

unfoldable pub walk_definition : ℕ → Dict SelectionSet → Definition → Tally → Option Tally
walk_definition fuel fragments (fragment name set) t = some t
walk_definition fuel fragments (operation set) t = walk fuel fragments [] 1 set t
walk_definition fuel fragments other t = some t

-- The loop over the definitions.
unfoldable pub walk_all : ℕ → Dict SelectionSet → Document → Tally → Option Tally
walk_all fuel fragments [] t = some t
walk_all fuel fragments (d ∷ ds) t =
    walk_definition fuel fragments d t >>= λ t'. walk_all fuel fragments ds t'

abbrev pub no_tally : Tally
no_tally = record { max_depth = 0; fields = 0 }

-- `max_depth` and `fields` after the loop. Spreads nest as deep as there are fragments at most.
unfoldable pub tally : Document → Option Tally
tally d = let fragments = collect d [] in walk_all (length fragments) fragments d no_tally

-- `GRAPHQL_MAX_DEPTH`, `GRAPHQL_MAX_FIELDS` and `GRAPHQL_INTROSPECTION` of the settings
pub record Limits : Type 0 where
  pub max_depth : ℕ
  pub max_fields : ℕ
  pub introspection : Bool

pub data ResourceError : Type 0 where
  query_too_deep query_too_complex introspection_disabled : ResourceError

unfoldable pub check_limits : Limits → Text → Tally → Option ResourceError
check_limits l query t =
    if ltb l.max_depth t.max_depth
    then some query_too_deep
    else if ltb l.max_fields t.fields
    then some query_too_complex
    else if not l.introspection
        && (occurs (codes "__schema") query || occurs (codes "__type") query)
    then some introspection_disabled
    else none

-- `_resource_error` of a query that was parsed to the document; the outer `none` is for fuel that ran out.
unfoldable pub resource_error : Limits → Text → Document → Option (Option ResourceError)
resource_error l query d = elim (tally d) [ none ↦ none | some t ↦ some (check_limits l query t) ]
