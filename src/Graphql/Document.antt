-- ===== src/Graphql/Document.antt =====
-- A parsed GraphQL document, as far as `_resource_error` (controlplane/graphql/views.py) reads it. The
-- parser belongs to graphql-core.
use django_ops.Common.{List, ◌∷◌, String}

-- A field without a selection set is a `leaf`; what is neither a field nor a spread is an inline fragment.
mutual
  pub data Selection : Type 0 where
    leaf : Selection
    field : SelectionSet → Selection
    spread : String → Selection
    inline : SelectionSet → Selection

  pub data SelectionSet : Type 0 where
    end : SelectionSet
    select : Selection → SelectionSet → SelectionSet

-- A fragment with its name, an operation, or a definition that has no selection set.
pub data Definition : Type 0 where
  fragment : String → SelectionSet → Definition
  operation : SelectionSet → Definition
  other : Definition

abbrev pub Document : Type 0
Document = List Definition

pub data InSet : Selection → SelectionSet → Type 0 where
  here : {s : Selection} {rest : SelectionSet} → InSet s (select s rest)
  there : {s u : Selection} {rest : SelectionSet} → InSet s rest → InSet s (select u rest)

pub data InDocument : Definition → Document → Type 0 where
  first : {x : Definition} {xs : Document} → InDocument x (x ∷ xs)
  later : {x y : Definition} {xs : Document} → InDocument x xs → InDocument x (y ∷ xs)
