-- ===== src/Common/Dict.antt =====
-- A Python dict keyed by text, in insertion order; `modify` is a write through a shared object.
use Prim.Native.Nat.{ℕ, ◌+◌, ◌≤◌}
use Prim.Native.String.{String}
use mathlib.Core.Path.{◌≡◌, refl}
use mathlib.Core.Bool.{Bool}
use mathlib.Core.Option.{Option, none, some}
use mathlib.Core.List.{List, [], ◌∷◌}
use native.Mathlib.Omega.{arith}
use text.Mathlib.Text.{◌==◌}
use text.Mathlib.TextEquality.{eq_iff}
use mathlib.Core.Option
use mathlib.Core.Logic.{inl, inr}
use mathlib.Core.Path.{subst}
use django_ops.Common.Tests.{if◌then◌else◌, is_some, Bool-cases}

abbrev pub Dict {ℓ} : Type ℓ → Type ℓ
Dict V = List (String × V)

module _ {ℓ} {V : Type ℓ} where
  unfoldable pub lookup : String → Dict V → Option V
  lookup k [] = none
  lookup k ((j, v) ∷ d) = if j == k then some v else lookup k d

  -- `k in d`
  abbrev pub contains : String → Dict V → Bool
  contains k d = is_some (lookup k d)

  -- `d[k] = v`
  unfoldable pub insert : String → V → Dict V → Dict V
  insert k v [] = (k, v) ∷ []
  insert k v ((j, w) ∷ d) = if j == k then (k, v) ∷ d else (j, w) ∷ insert k v d

  -- `d.pop(k, None)`; a dict has one entry for a key
  unfoldable pub erase : String → Dict V → Dict V
  erase k [] = []
  erase k ((j, w) ∷ d) = if j == k then erase k d else (j, w) ∷ erase k d

  -- a write to the object that `d[k]` refers to
  unfoldable pub modify : String → (V → V) → Dict V → Dict V
  modify k f [] = []
  modify k f ((j, w) ∷ d) = if j == k then (j, f w) ∷ modify k f d else (j, w) ∷ modify k f d

  pub lookup-insert :
      (k j : String) (v : V) (d : Dict V)
      → lookup j (insert k v d) ≡ (if k == j then some v else lookup j d)
  unfolding lookup insert
  lookup-insert k j v [] = refl
  lookup-insert k j v ((i, w) ∷ d) =
      ground (arith, eq_iff k j, eq_iff i k, eq_iff i j, lookup-insert k j v d)

  pub lookup-erase :
      (k j : String) (d : Dict V) → lookup j (erase k d) ≡ (if k == j then none else lookup j d)
  unfolding lookup erase
  lookup-erase k j [] = ground arith
  lookup-erase k j ((i, w) ∷ d) =
      ground (arith, eq_iff k j, eq_iff i k, eq_iff i j, lookup-erase k j d)

  pub lookup-modify :
      (k j : String) (f : V → V) (d : Dict V)
      → lookup j (modify k f d) ≡ (if k == j then Option.map f (lookup j d) else lookup j d)
  unfolding lookup modify
  lookup-modify k j f [] = ground arith
  lookup-modify k j f ((i, w) ∷ d) =
      ground (arith, eq_iff k j, eq_iff i k, eq_iff i j, lookup-modify k j f d)

  -- how many values pass the test
  unfoldable pub count_where : (V → Bool) → Dict V → ℕ
  count_where p [] = 0
  count_where p ((j, w) ∷ d) = (if p w then 1 else 0) + count_where p d

  pub count-insert :
      (p : V → Bool) (k : String) (v : V) (d : Dict V)
      → lookup k d ≡ none
      → count_where p (insert k v d) ≡ count_where p d + (if p v then 1 else 0)
  unfolding lookup insert count_where
  count-insert p k v [] h = ground arith
  count-insert p k v ((j, w) ∷ d) h = ground (arith, count-insert p k v d)

  pub count-erase-le :
      (p : V → Bool) (k : String) (d : Dict V) → count_where p (erase k d) ≤ count_where p d
  unfolding erase count_where
  count-erase-le p k [] = omega arith
  count-erase-le p k ((j, w) ∷ d) = ground (arith, count-erase-le p k d)

  pub count-modify :
      (p : V → Bool) (k : String) (f : V → V) (d : Dict V)
      → ((v : V) → p (f v) ≡ p v)
      → count_where p (modify k f d) ≡ count_where p d
  unfolding modify count_where
  count-modify p k f [] h = refl
  count-modify p k f ((j, w) ∷ d) h = ground (arith, h w, count-modify p k f d h)

  -- every value of the dict satisfies the predicate
  abbrev pub AllValues {κ} : (V → Type κ) → Dict V → Type κ
  AllValues P [] = Unit
  AllValues P ((j, w) ∷ d) = P w × AllValues P d

  module _ {κ} (P : V → Type κ) where
    pub AllValues-insert :
        (k : String) (v : V) (d : Dict V) → P v → AllValues P d → AllValues P (insert k v d)
    unfolding insert
    AllValues-insert k v [] h a = (h, tt)
    AllValues-insert k v ((j, w) ∷ d) h a = elim (Bool-cases (j == k)) [
      | inl e ↦ rw e (h, a.1)
      | inr e ↦ rw e (a.0, AllValues-insert k v d h a.1)
    ]

    pub AllValues-erase : (k : String) (d : Dict V) → AllValues P d → AllValues P (erase k d)
    unfolding erase
    AllValues-erase k [] a = tt
    AllValues-erase k ((j, w) ∷ d) a = elim (Bool-cases (j == k)) [
      | inl e ↦ rw e (AllValues-erase k d a.1)
      | inr e ↦ rw e (a.0, AllValues-erase k d a.1)
    ]

    pub AllValues-modify :
        (k : String) (f : V → V) (d : Dict V)
        → ((v : V) → P v → P (f v))
        → AllValues P d
        → AllValues P (modify k f d)
    unfolding modify
    AllValues-modify k f [] h a = tt
    AllValues-modify k f ((j, w) ∷ d) h a = elim (Bool-cases (j == k)) [
      | inl e ↦ rw e (h w a.0, AllValues-modify k f d h a.1)
      | inr e ↦ rw e (a.0, AllValues-modify k f d h a.1)
    ]

    pub AllValues-lookup :
        (k : String) {v : V} (d : Dict V) → AllValues P d → lookup k d ≡ some v → P v
    unfolding lookup
    AllValues-lookup k [] a h = cc
    AllValues-lookup k {v} ((j, w) ∷ d) a h = elim (Bool-cases (j == k)) [
      | inl e ↦ subst P (ground arith) a.0
      | inr e ↦ AllValues-lookup k d a.1 (rw e at h)
    ]
