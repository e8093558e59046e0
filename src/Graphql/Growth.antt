-- ===== src/Graphql/Growth.antt =====
-- The tally of `walk` (controlplane/graphql/views.py) only grows, and what the loop visits it counts.
use django_ops.Common.{
  ℕ, zero, suc, ◌≤◌, ◌≡◌, sym, ◌∙◌, false, some, List, [], ◌∷◌, String, arith, member, inl, inr,
  Option-cases,
}
use django_ops.Common.Dict.{Dict, lookup}
use django_ops.Graphql.Document.{
  Selection, leaf, field, spread, inline, SelectionSet, end, select, Definition, fragment,
  operation, other, Document, InSet, here, there,
}
use django_ops.Graphql.Termination.{spread_cases, expand_skipped}
use django_ops.Graphql.Walk.{
  Tally, enter, count_field, Expand, loop, visit, expand_spread, walk, walk_definition, walk_all,
}

abbrev pub Grows : Tally → Tally → Type 0
Grows t t' = t.max_depth ≤ t'.max_depth

abbrev pub Growing : Expand → Type 0
Growing e = (name : String) (n : ℕ) (t t' : Tally) → e name n t ≡ some t' → Grows t t'

some-Grows : (t t' : Tally) → some t ≡ some t' → Grows t t'
some-Grows t t' h = ground arith

-- A walk over a set that returned, selection by selection.
select_some :
    (e : Expand) (n : ℕ) (s : Selection) (rest : SelectionSet) (t t' : Tally)
    → loop e n (select s rest) t ≡ some t'
    → (u : Tally) × (visit e n s t ≡ some u) × (loop e n rest u ≡ some t')
unfolding loop
select_some e n s rest t t' h = elim (Option-cases (visit e n s t)) [
  | inl q ↦ absurd (cc (rw q at h))
  | inr (u, q) ↦ (u, q, rw q at h)
]

module _ (e : Expand) (g : Growing e) where
  mutual
    unfolding loop enter count_field

    pub loop-Grows :
        (n : ℕ) (set : SelectionSet) (t t' : Tally) → loop e n set t ≡ some t' → Grows t t'
    loop-Grows n end t t' h = some-Grows t t' h
    loop-Grows n (select s rest) t t' h =
        let (u, eu, er) = select_some e n s rest t t' h in
        omega (arith, visit-Grows n s t u eu, loop-Grows n rest u t' er)

    visit-Grows : (n : ℕ) (s : Selection) (t t' : Tally) → visit e n s t ≡ some t' → Grows t t'
    visit-Grows n leaf t t' h = some-Grows (count_field t) t' h
    visit-Grows n (field sub) t t' h =
        omega (arith, loop-Grows (suc n) sub (enter (suc n) (count_field t)) t' h)
    visit-Grows n (spread name) t t' h = g name n t t' h
    visit-Grows n (inline sub) t t' h = omega (arith, loop-Grows n sub (enter n t) t' h)

  -- A selection of a set is visited in the loop over the set.
  pub loop-visit :
      {s : Selection} {set : SelectionSet} (n : ℕ) (t t' : Tally)
      → InSet s set
      → loop e n set t ≡ some t'
      → (u u' : Tally) × (visit e n s u ≡ some u') × Grows u' t'
  unfolding loop
  loop-visit {set = end} n t t' i h = elim i [ ]
  loop-visit {set = select s rest} n t t' here h =
      let (u, eu, er) = select_some e n s rest t t' h in (t, u, eu, loop-Grows n rest u t' er)
  loop-visit {set = select s rest} n t t' (there i) h =
      let (u, eu, er) = select_some e n s rest t t' h in loop-visit n u t' i er

-- A fragment that is found and not being expanded is walked, with one unit of fuel less.
pub expand_found :
    (fuel : ℕ) (d : Dict SelectionSet) (active : List String) (name : String) (n : ℕ) (t t' : Tally)
    (sub : SelectionSet)
    → member name active ≡ false
    → lookup name d ≡ some sub
    → expand_spread (suc fuel) d active name n t ≡ some t'
    → loop (expand_spread fuel d (name ∷ active)) n sub (enter n t) ≡ some t'
unfolding expand_spread
expand_found fuel d active name n t t' sub m l h = rw (m, l) at h

-- A spread that has to be expanded without fuel gives nothing.
pub no_fuel :
    (d : Dict SelectionSet) (active : List String) (name : String) (n : ℕ) (t t' : Tally)
    (sub : SelectionSet)
    → member name active ≡ false
    → lookup name d ≡ some sub
    → ¬ (expand_spread 0 d active name n t ≡ some t')
unfolding expand_spread
no_fuel d active name n t t' sub m l h = cc (rw (m, l) at h)

pub expand_spread-Growing :
    (fuel : ℕ) (d : Dict SelectionSet) (active : List String)
    → Growing (expand_spread fuel d active)
unfolding enter
expand_spread-Growing zero d active name n t t' h =
    spread_cases name active d
      (λ s. some-Grows t t' (sym (expand_skipped 0 d active name n t s) ∙ h))
      (λ sub e l. absurd (no_fuel d active name n t t' sub e l h))
expand_spread-Growing (suc fuel) d active name n t t' h =
    spread_cases name active d
      (λ s. some-Grows t t' (sym (expand_skipped (suc fuel) d active name n t s) ∙ h))
      (λ sub e l.
        let w = expand_found fuel d active name n t t' sub e l h in
        omega (
          arith,
          loop-Grows (expand_spread fuel d (name ∷ active))
              (expand_spread-Growing fuel d (name ∷ active)) n sub (enter n t) t' w,
        ))

walk_definition-Grows :
    (fuel : ℕ) (d : Dict SelectionSet) (x : Definition) (t t' : Tally)
    → walk_definition fuel d x t ≡ some t'
    → Grows t t'
unfolding walk_definition walk enter
walk_definition-Grows fuel d (fragment name set) t t' h = some-Grows t t' h
walk_definition-Grows fuel d (operation set) t t' h = omega (
  arith,
  loop-Grows (expand_spread fuel d []) (expand_spread-Growing fuel d []) 1 set (enter 1 t) t' h,
)
walk_definition-Grows fuel d other t t' h = some-Grows t t' h

-- A walk over the definitions that returned, definition by definition.
pub definition_some :
    (fuel : ℕ) (d : Dict SelectionSet) (x : Definition) (xs : Document) (t final : Tally)
    → walk_all fuel d (x ∷ xs) t ≡ some final
    → (u : Tally) × (walk_definition fuel d x t ≡ some u) × (walk_all fuel d xs u ≡ some final)
unfolding walk_all
definition_some fuel d x xs t final h = elim (Option-cases (walk_definition fuel d x t)) [
  | inl q ↦ absurd (cc (rw q at h))
  | inr (u, q) ↦ (u, q, rw q at h)
]

pub walk_all-Grows :
    (fuel : ℕ) (d : Dict SelectionSet) (xs : Document) (t final : Tally)
    → walk_all fuel d xs t ≡ some final
    → Grows t final
unfolding walk_all
walk_all-Grows fuel d [] t final h = some-Grows t final h
walk_all-Grows fuel d (x ∷ xs) t final h =
    let (u, eu, er) = definition_some fuel d x xs t final h in
    omega (arith, walk_definition-Grows fuel d x t u eu, walk_all-Grows fuel d xs u final er)
