-- ===== src/Graphql/Depth.antt =====
-- What an accepted query cannot reach: `_resource_error` of controlplane/graphql/views.py against the
-- selection sets that a query contains.
use django_ops.Common.{
  ℕ, zero, suc, ◌≤◌, ◌≡◌, false, none, some, List, [], ◌∷◌, String, arith, length, member, ltb, inl,
  inr, Bool-cases,
}
use django_ops.Common.Dict.{Dict, lookup}
use django_ops.Common.Text.{Text}
use django_ops.Graphql.Document.{
  Selection, field, spread, inline, SelectionSet, operation, Document, InSet, InDocument, first,
  later,
}
use django_ops.Graphql.Termination.{resource_error_decided}
use django_ops.Graphql.Growth.{
  Grows, loop-Grows, loop-visit, expand_found, no_fuel, expand_spread-Growing, definition_some,
  walk_all-Grows,
}
use django_ops.Graphql.Walk.{
  Tally, enter, count_field, loop, visit, expand_spread, walk, collect, walk_definition, walk_all,
  no_tally, tally, Limits, check_limits, resource_error,
}

-- A query contains a selection set, inside the fragments `active`, with so many sets of fields around it
-- and itself counted. A fragment is not entered inside itself.
pub data Contains (d : Document) : List String → ℕ → SelectionSet → Type 0 where
  root : {set : SelectionSet} → InDocument (operation set) d → Contains d [] 1 set
  under_field :
      {active : List String} {n : ℕ} {set sub : SelectionSet}
      → Contains d active n set
      → InSet (field sub) set
      → Contains d active (suc n) sub
  under_inline :
      {active : List String} {n : ℕ} {set sub : SelectionSet}
      → Contains d active n set
      → InSet (inline sub) set
      → Contains d active n sub
  under_spread :
      {active : List String} {n : ℕ} {set sub : SelectionSet} {name : String}
      → Contains d active n set
      → InSet (spread name) set
      → member name active ≡ false
      → lookup name (collect d []) ≡ some sub
      → Contains d (name ∷ active) n sub

-- The walk went over a set at a depth, and what it found is in the final tally.
abbrev Walked : Tally → Dict SelectionSet → List String → ℕ → SelectionSet → Type 0
Walked final d active n set =
    (fuel : ℕ) × (t t' : Tally) × (loop (expand_spread fuel d active) n set (enter n t) ≡ some t')
    × Grows t' final

Walked-visit :
    {s : Selection} {set : SelectionSet} (final : Tally) (d : Dict SelectionSet)
    (active : List String) (n : ℕ)
    → Walked final d active n set
    → InSet s set
    → (fuel : ℕ) × (u u' : Tally) × (visit (expand_spread fuel d active) n s u ≡ some u')
      × Grows u' final
Walked-visit final d active n (fuel, t, t', e, le) i =
    let (u, u', eu, le') =
      loop-visit (expand_spread fuel d active) (expand_spread-Growing fuel d active) n (enter n t)
        t' i e in
    (fuel, u, u', eu, omega (arith, le, le'))

-- Every operation of the document is walked from depth 1.
walk_all-Walked :
    (fuel : ℕ) (d : Dict SelectionSet) {set : SelectionSet} {xs : Document} (t final : Tally)
    → InDocument (operation set) xs
    → walk_all fuel d xs t ≡ some final
    → Walked final d [] 1 set
unfolding walk_definition walk
walk_all-Walked fuel d {xs = []} t final i h = elim i [ ]
walk_all-Walked fuel d {xs = operation set ∷ xs} t final first h =
    let (u, eu, er) = definition_some fuel d (operation set) xs t final h in
    (fuel, t, u, eu, walk_all-Grows fuel d xs u final er)
walk_all-Walked fuel d {xs = x ∷ xs} t final (later i) h =
    let (u, eu, er) = definition_some fuel d x xs t final h in walk_all-Walked fuel d u final i er

module _ (d : Document) (final : Tally) (h : tally d ≡ some final) where
  contains-Walked :
      {active : List String} {n : ℕ} {set : SelectionSet}
      → Contains d active n set
      → Walked final (collect d []) active n set
  unfolding tally loop
  contains-Walked (root i) =
      walk_all-Walked (length (collect d [])) (collect d []) no_tally final i h
  contains-Walked (under_field {active} {n} {set} {sub} c i) =
      let (fuel, u, u', e, le) = Walked-visit final (collect d []) active n (contains-Walked c) i in
      (fuel, count_field u, u', e, le)
  contains-Walked (under_inline {active} {n} {set} {sub} c i) =
      let (fuel, u, u', e, le) = Walked-visit final (collect d []) active n (contains-Walked c) i in
      (fuel, u, u', e, le)
  contains-Walked (under_spread {active} {n} {set} {sub} {name} c i m l) =
      let (fuel, u, u', e, le) = Walked-visit final (collect d []) active n (contains-Walked c) i in
      spread-Walked fuel u u' e le
    where
      spread-Walked :
          (fuel : ℕ) (u u' : Tally)
          → expand_spread fuel (collect d []) active name n u ≡ some u'
          → Grows u' final
          → Walked final (collect d []) (name ∷ active) n sub
      spread-Walked zero u u' e le = absurd (no_fuel (collect d []) active name n u u' sub m l e)
      spread-Walked (suc fuel) u u' e le =
          (fuel, u, u', expand_found fuel (collect d []) active name n u u' sub m l e, le)

check_limits-depth :
    (l : Limits) (query : Text) (t : Tally)
    → check_limits l query t ≡ none
    → t.max_depth ≤ l.max_depth
unfolding check_limits
check_limits-depth l query t h = elim (Bool-cases (ltb l.max_depth t.max_depth)) [
  | inl e ↦ absurd (cc (rw e at h))
  | inr e ↦ ground arith
]

-- An accepted query contains no selection set deeper than the limit, in its operations or in any fragment
-- that they spread.
pub accepted-shallow :
    {active : List String} {n : ℕ} {set : SelectionSet} (l : Limits) (query : Text) (d : Document)
    → resource_error l query d ≡ some none
    → Contains d active n set
    → n ≤ l.max_depth
unfolding enter
accepted-shallow {active} {n} {set} l query d h c =
    let (t, e, _, q) = resource_error_decided l query d 0 in
    let (fuel, u, u', w, le) = contains-Walked d t e c in
    let grows =
      loop-Grows (expand_spread fuel (collect d []) active)
        (expand_spread-Growing fuel (collect d []) active) n set (enter n u) u' w in
    let same : check_limits l query t ≡ none = ground (arith, q, h) in
    omega (arith, grows, le, check_limits-depth l query t same)
