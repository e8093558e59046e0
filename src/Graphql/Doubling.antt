-- ===== src/Graphql/Doubling.antt =====
-- What `_resource_error` (controlplane/graphql/views.py) counts where fragments spread others twice: a spread
-- is walked each time it stands.
use django_ops.Common.{
  ℕ, zero, suc, ◌+◌, ◌≤◌, ◌<◌, ◌≡◌, ◌⊎◌, refl, ◌∙◌, ap, false, Option, some, List, [], ◌∷◌, String,
  ◌==◌, eq_iff, eq_refl, arith, length, member, inl, inr, if◌then◌else◌,
}
use django_ops.Common.Dict.{Dict, lookup, insert, lookup-insert}
use django_ops.Graphql.Document.{
  leaf, spread, SelectionSet, end, select, fragment, operation, Document,
}
use django_ops.Graphql.Termination.{walk_all_agree}
use django_ops.Graphql.Walk.{
  Tally, enter, count_field, loop, expand_spread, walk, collect, walk_definition, walk_all,
  no_tally, tally,
}

abbrev pub doubled : ℕ → ℕ
doubled zero = 1
doubled (suc n) = doubled n + doubled n

le_cases : (j n : ℕ) → j ≤ suc n → (j ≤ n) ⊎ (j ≡ suc n)
le_cases j n h = omega (arith, h)

same :
    (k : String) (set : SelectionSet) (o : Option SelectionSet)
    → (if k == k then some set else o) ≡ some set
same k set o = rw (eq_refl k) refl

abbrev at : ℕ → Tally
at f = record { max_depth = 1; fields = f }

module _ (name : ℕ → String) where
  -- the selection set of a fragment of the chain
  abbrev pub body : ℕ → SelectionSet
  body zero = select leaf end
  body (suc n) = select (spread (name n)) (select (spread (name n)) end)

  abbrev pub chain_fragments : ℕ → Document
  chain_fragments zero = fragment (name 0) (body 0) ∷ []
  chain_fragments (suc n) = fragment (name (suc n)) (body (suc n)) ∷ chain_fragments n

  -- A query that spreads the last of a chain of fragments, each of which spreads the one before it twice.
  abbrev pub chain : ℕ → Document
  chain n = operation (select (spread (name n)) end) ∷ chain_fragments n

  module _ (distinct : (i j : ℕ) → name i ≡ name j → i ≡ j) where
    collect-later :
        (n j : ℕ) (acc : Dict SelectionSet)
        → n < j
        → lookup (name j) (collect (chain_fragments n) acc) ≡ lookup (name j) acc
    unfolding collect
    collect-later zero j acc lt = ground (
      arith,
      lookup-insert (name 0) (name j) (body 0) acc,
      eq_iff (name 0) (name j),
      distinct 0 j,
    )
    collect-later (suc n) j acc lt = ground (
      arith,
      collect-later n j (insert (name (suc n)) (body (suc n)) acc) (omega (arith, lt)),
      lookup-insert (name (suc n)) (name j) (body (suc n)) acc,
      eq_iff (name (suc n)) (name j),
      distinct (suc n) j,
    )

    collect-chain :
        (n j : ℕ) (acc : Dict SelectionSet)
        → j ≤ n
        → lookup (name j) (collect (chain_fragments n) acc) ≡ some (body j)
    unfolding collect
    collect-chain zero zero acc le =
        ground (arith, lookup-insert (name 0) (name 0) (body 0) acc, eq_refl (name 0))
    collect-chain zero (suc j) acc le = absurd (omega (arith, le))
    collect-chain (suc n) j acc le = elim (le_cases j n le) [
      | inl h ↦ collect-chain n j (insert (name (suc n)) (body (suc n)) acc) h
      | inr h ↦ rw (h) (
          collect-later n (suc n) (insert (name (suc n)) (body (suc n)) acc) (omega arith)
          ∙ lookup-insert (name (suc n)) (name (suc n)) (body (suc n)) acc
          ∙ same (name (suc n)) (body (suc n)) (lookup (name (suc n)) acc))
    ]

    other_inactive :
        (k j : ℕ) (active : List String)
        → j ≤ k
        → member (name j) active ≡ false
        → member (name j) (name (suc k) ∷ active) ≡ false
    other_inactive k j active le h =
        ground (arith, eq_iff (name (suc k)) (name j), distinct (suc k) j)

    -- A spread of a fragment counts the leaf at the end once for each way to it.
    expand-chain :
        (k fuel f : ℕ) (d : Dict SelectionSet) (active : List String)
        → ((j : ℕ) → j ≤ k → lookup (name j) d ≡ some (body j))
        → ((j : ℕ) → j ≤ k → member (name j) active ≡ false)
        → k < fuel
        → expand_spread fuel d active (name k) 1 (at f) ≡ some (at (f + doubled k))
    unfolding expand_spread loop enter count_field
    expand-chain k zero f d active found inactive lt = absurd (omega (arith, lt))
    expand-chain zero (suc fuel) f d active found inactive lt =
        rw (inactive 0 (omega arith), found 0 (omega arith)) refl
    expand-chain (suc k) (suc fuel) f d active found inactive lt =
        let inner : (g : ℕ)
            → expand_spread fuel d (name (suc k) ∷ active) (name k) 1 (at g)
              ≡ some (at (g + doubled k)) =
          λ g.
            expand-chain k fuel g d (name (suc k) ∷ active) (λ j le. found j (omega (arith, le)))
              (λ j le. other_inactive k j active le (inactive j (omega (arith, le))))
              (omega (arith, lt)) in
        rw
          (
            inactive (suc k) (omega arith),
            found (suc k) (omega arith),
            inner f,
            inner (f + doubled k),
          )
          (ap (λ x. some (at x)) (omega arith))

    chain_fragments-walk :
        (n fuel : ℕ) (d : Dict SelectionSet) (t : Tally)
        → walk_all fuel d (chain_fragments n) t ≡ some t
    unfolding walk_all walk_definition
    chain_fragments-walk zero fuel d t = refl
    chain_fragments-walk (suc n) fuel d t = chain_fragments-walk n fuel d t

    chain-walk :
        (n fuel : ℕ) (d : Dict SelectionSet)
        → ((j : ℕ) → j ≤ n → lookup (name j) d ≡ some (body j))
        → n < fuel
        → walk_all fuel d (chain n) no_tally ≡ some (at (doubled n))
    unfolding walk_all walk_definition walk loop enter
    chain-walk n fuel d found lt =
        rw (expand-chain n fuel 0 d [] found (λ j le. refl) lt)
          (chain_fragments-walk n fuel d (at (0 + doubled n)) ∙ ap (λ x. some (at x)) (omega arith))

    -- Where `n + 1` fragments with distinct names form a chain, the first holding one field and each later one
    -- spreading the one before it twice, a query that spreads the last is counted with two to the power `n` of
    -- fields.
    pub tally-chain :
        (n : ℕ) → tally (chain n) ≡ some (record { max_depth = 1; fields = doubled n })
    unfolding tally collect
    tally-chain n =
        let d = collect (chain_fragments n) [] in
        let agree =
          walk_all_agree (length d) (length d + suc n) d (chain n) no_tally (omega arith)
            (omega arith) in
        agree.1 ∙ chain-walk n (length d + suc n) d (λ j le. collect-chain n j [] le) (omega arith)
