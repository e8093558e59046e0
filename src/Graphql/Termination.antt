-- ===== src/Graphql/Termination.antt =====
-- `_resource_error` of controlplane/graphql/views.py ends: spreads nest once per fragment at most.
use django_ops.Common.{
  ℕ, zero, suc, ◌+◌, ◌≤◌, ◌≡◌, ◌⊎◌, refl, sym, ◌∙◌, true, false, Option, none, some, List, [], ◌∷◌,
  String, ◌==◌, eq_iff, arith, length, member, inl, inr, if◌then◌else◌, Bool-cases, Option-cases,
}
use django_ops.Common.Dict.{Dict, lookup}
use django_ops.Common.Text.{Text}
use django_ops.Graphql.Document.{
  Selection, leaf, field, spread, inline, SelectionSet, end, select, Definition, fragment,
  operation, other, Document,
}
use django_ops.Graphql.Walk.{
  Tally, enter, count_field, ◌>>=◌, Expand, loop, visit, expand_spread, walk, collect,
  walk_definition, walk_all, no_tally, tally, Limits, check_limits, resource_error,
}

abbrev pub Returns {ℓ} : {A : Type ℓ} → Option A → Type ℓ
Returns {A = A} o = (a : A) × (o ≡ some a)

-- Two ways to expand a spread return, and the same.
abbrev pub Agree : Expand → Expand → Type 0
Agree e e' =
    (name : String) (depth : ℕ) (t : Tally)
    → Returns (e name depth t) × (e name depth t ≡ e' name depth t)

pub bind-Returns :
    {o : Option Tally} {f : Tally → Option Tally}
    → Returns o
    → ((t : Tally) → Returns (f t))
    → Returns (o >>= f)
bind-Returns {f = f} (t, e) h = rw e (h t)

pub bind_agree :
    {o o' : Option Tally} {f f' : Tally → Option Tally}
    → Returns o
    → o ≡ o'
    → ((t : Tally) → f t ≡ f' t)
    → (o >>= f) ≡ (o' >>= f')
bind_agree {f = f} {f' = f'} (t, e) q h = rw (sym q, e) (h t)

module _ {e e' : Expand} (h : Agree e e') where
  mutual
    unfolding loop

    pub loop-Returns : (depth : ℕ) (set : SelectionSet) (t : Tally) → Returns (loop e depth set t)
    loop-Returns depth end t = (t, refl)
    loop-Returns depth (select s rest) t =
        bind-Returns (visit-Returns depth s t) (λ t'. loop-Returns depth rest t')

    pub visit-Returns : (depth : ℕ) (s : Selection) (t : Tally) → Returns (visit e depth s t)
    visit-Returns depth leaf t = (count_field t, refl)
    visit-Returns depth (field sub) t =
        loop-Returns (suc depth) sub (enter (suc depth) (count_field t))
    visit-Returns depth (spread name) t = (h name depth t).0
    visit-Returns depth (inline sub) t = loop-Returns depth sub (enter depth t)

  mutual
    unfolding loop

    pub loop_agree :
        (depth : ℕ) (set : SelectionSet) (t : Tally) → loop e depth set t ≡ loop e' depth set t
    loop_agree depth end t = refl
    loop_agree depth (select s rest) t =
        bind_agree (visit-Returns depth s t) (visit_agree depth s t)
          (λ t'. loop_agree depth rest t')

    pub visit_agree :
        (depth : ℕ) (s : Selection) (t : Tally) → visit e depth s t ≡ visit e' depth s t
    visit_agree depth leaf t = refl
    visit_agree depth (field sub) t = loop_agree (suc depth) sub (enter (suc depth) (count_field t))
    visit_agree depth (spread name) t = (h name depth t).1
    visit_agree depth (inline sub) t = loop_agree depth sub (enter depth t)

-- How many fragments are not being expanded: a spread that is expanded lowers it.
unfoldable pub free : List String → Dict SelectionSet → ℕ
free active [] = 0
free active ((k, set) ∷ d) = (if member k active then 0 else 1) + free active d

free-le :
    (name : String) (active : List String) (d : Dict SelectionSet)
    → free (name ∷ active) d ≤ free active d
unfolding free
free-le name active [] = omega arith
free-le name active ((k, set) ∷ d) = ground (arith, free-le name active d)

pub free-lt :
    (name : String) (active : List String) (d : Dict SelectionSet) {set : SelectionSet}
    → member name active ≡ false
    → lookup name d ≡ some set
    → suc (free (name ∷ active) d) ≤ free active d
unfolding free lookup
free-lt name active [] m h = cc
free-lt name active ((k, sub) ∷ d) {set} m h = elim (Bool-cases (k == name)) [
  | inl e ↦ ground (arith, eq_iff k name, eq_iff name k, free-le name active d)
  | inr e ↦
      let found : lookup name d ≡ some set = rw e at h in
      ground (arith, eq_iff k name, eq_iff name k, free-lt name active d m found)
]

pub free-le-length : (d : Dict SelectionSet) → free [] d ≤ length d
unfolding free
free-le-length [] = omega arith
free-le-length ((k, set) ∷ d) = omega (arith, free-le-length d)

-- A spread is skipped, or it finds a fragment that is not being expanded.
pub spread_cases {ℓ} :
    {P : Type ℓ} (name : String) (active : List String) (d : Dict SelectionSet)
    → ((member name active ≡ true) ⊎ (lookup name d ≡ none) → P)
    → ((sub : SelectionSet) → member name active ≡ false → lookup name d ≡ some sub → P)
    → P
spread_cases name active d skipped found = elim (Bool-cases (member name active)) [
  | inl e ↦ skipped (inl e)
  | inr e ↦ elim (Option-cases (lookup name d)) [
    | inl l ↦ skipped (inr l)
    | inr (sub, l) ↦ found sub e l
  ]
]

-- A spread that is not expanded leaves the tally.
pub expand_skipped :
    (n : ℕ) (d : Dict SelectionSet) (active : List String) (name : String) (depth : ℕ) (t : Tally)
    → (member name active ≡ true) ⊎ (lookup name d ≡ none)
    → expand_spread n d active name depth t ≡ some t
unfolding expand_spread
expand_skipped zero d active name depth t (inl h) = rw h refl
expand_skipped (suc n) d active name depth t (inl h) = rw h refl
expand_skipped zero d active name depth t (inr h) = elim (Bool-cases (member name active)) [
  | inl e ↦ rw e refl
  | inr e ↦ rw (e, h) refl
]
expand_skipped (suc n) d active name depth t (inr h) = elim (Bool-cases (member name active)) [
  | inl e ↦ rw e refl
  | inr e ↦ rw (e, h) refl
]

abbrev Stable : ℕ → ℕ → Dict SelectionSet → List String → String → ℕ → Tally → Type 0
Stable n m d active name depth t =
    Returns (expand_spread n d active name depth t)
    × (expand_spread n d active name depth t ≡ expand_spread m d active name depth t)

unless_found :
    (n m : ℕ) (d : Dict SelectionSet) (active : List String) (name : String) (depth : ℕ) (t : Tally)
    → ((sub : SelectionSet)
        → member name active ≡ false
        → lookup name d ≡ some sub
        → Stable n m d active name depth t)
    → Stable n m d active name depth t
unless_found n m d active name depth t found =
    spread_cases name active d
      (λ h.
        let a = expand_skipped n d active name depth t h in
        let b = expand_skipped m d active name depth t h in ((t, a), a ∙ sym b))
      found

-- With fuel for the free fragments every spread returns, and more fuel changes nothing.
pub expand_spread-Agree :
    (n m : ℕ) (d : Dict SelectionSet) (active : List String)
    → free active d ≤ n
    → free active d ≤ m
    → Agree (expand_spread n d active) (expand_spread m d active)
unfolding expand_spread
expand_spread-Agree zero m d active hn hm name depth t =
    unless_found 0 m d active name depth t
      (λ sub e l. absurd (omega (arith, free-lt name active d e l)))
expand_spread-Agree (suc n) zero d active hn hm name depth t =
    unless_found (suc n) 0 d active name depth t
      (λ sub e l. absurd (omega (arith, free-lt name active d e l)))
expand_spread-Agree (suc n) (suc m) d active hn hm name depth t =
    unless_found (suc n) (suc m) d active name depth t (λ sub e l.
      let lt = free-lt name active d e l in
      let same =
        expand_spread-Agree n m d (name ∷ active) (omega (arith, lt)) (omega (arith, lt)) in
      rw (e, l)
        (loop-Returns same depth sub (enter depth t), loop_agree same depth sub (enter depth t)))

walk-definition-agree :
    (n m : ℕ) (d : Dict SelectionSet) (x : Definition) (t : Tally)
    → length d ≤ n
    → length d ≤ m
    → Returns (walk_definition n d x t) × (walk_definition n d x t ≡ walk_definition m d x t)
unfolding walk_definition walk
walk-definition-agree n m d (fragment name set) t hn hm = ((t, refl), refl)
walk-definition-agree n m d (operation set) t hn hm =
    let same =
      expand_spread-Agree n m d [] (omega (arith, free-le-length d))
        (omega (arith, free-le-length d)) in
    (loop-Returns same 1 set (enter 1 t), loop_agree same 1 set (enter 1 t))
walk-definition-agree n m d other t hn hm = ((t, refl), refl)

-- With fuel for every fragment the walk returns, and more fuel changes nothing.
pub walk_all_agree :
    (n m : ℕ) (d : Dict SelectionSet) (xs : Document) (t : Tally)
    → length d ≤ n
    → length d ≤ m
    → Returns (walk_all n d xs t) × (walk_all n d xs t ≡ walk_all m d xs t)
unfolding walk_all
walk_all_agree n m d [] t hn hm = ((t, refl), refl)
walk_all_agree n m d (x ∷ xs) t hn hm =
    let first = walk-definition-agree n m d x t hn hm in
    (
      bind-Returns first.0 (λ t'. (walk_all_agree n m d xs t' hn hm).0),
      bind_agree first.0 first.1 (λ t'. (walk_all_agree n m d xs t' hn hm).1),
    )

pub tally-Returns : (d : Document) → Returns (tally d)
unfolding tally
tally-Returns d =
    let fragments = collect d [] in
    (walk_all_agree (length fragments) (length fragments) fragments d no_tally (omega arith)
      (omega arith)).0

decided :
    (l : Limits) (query : Text) (d : Document) {t : Tally}
    → tally d ≡ some t
    → resource_error l query d ≡ some (check_limits l query t)
unfolding resource_error
decided l query d e = rw (e, resource_error) refl

-- The limits are always decided, whatever fragments spread each other or themselves: the walk counts some
-- tally and the answer is that of `check_limits` on it, and any more fuel counts the same tally.
pub resource_error_decided :
    (l : Limits) (query : Text) (d : Document) (more : ℕ)
    → (t : Tally) × (tally d ≡ some t)
      × (walk_all (length (collect d []) + more) (collect d []) d no_tally ≡ some t)
      × (resource_error l query d ≡ some (check_limits l query t))
unfolding tally
resource_error_decided l query d more =
    let fragments = collect d [] in
    let agree =
      walk_all_agree (length fragments) (length fragments + more) fragments d no_tally (omega arith)
        (omega arith) in
    let (t, e) = agree.0 in (t, e, sym agree.1 ∙ e, decided l query d e)
