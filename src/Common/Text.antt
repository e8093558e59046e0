-- ===== src/Common/Text.antt =====
-- Text as code points, for code that walks it, and the character classes of the source's patterns.
use Prim.Native.Nat.{ℕ}
use Prim.Native.Char.{code}
use Prim.Native.String.{String}
use mathlib.Core.Path.{◌≡◌}
use mathlib.Core.Logic.{◌↔◌}
use mathlib.Core.Bool.{Bool, true, false, ◌&&◌, ◌||◌, not}
use mathlib.Core.List.{List, [], ◌∷◌}
use native.Mathlib.Omega.{arith}
use django_ops.Common.Tests.{leb, eqb, if◌then◌else◌}
use django_ops.Common.Lists.{any, keep}

abbrev pub Text : Type 0
Text = List ℕ

-- the code points of a literal
abbrev pub codes : String → Text
codes String.[] = []
codes (String.◌∷◌ c s) = code c ∷ codes s

-- `[A-Z]`, `[a-z]`, `[0-9]`
abbrev pub is_upper : ℕ → Bool
is_upper c = leb b'A' c && leb c b'Z'

abbrev pub is_lower : ℕ → Bool
is_lower c = leb b'a' c && leb c b'z'

abbrev pub is_digit : ℕ → Bool
is_digit c = leb b'0' c && leb c b'9'

abbrev pub is_alpha : ℕ → Bool
is_alpha c = is_upper c || is_lower c

-- `[A-Za-z0-9]`
abbrev pub is_alnum : ℕ → Bool
is_alnum c = is_alpha c || is_digit c

-- `c in "..."`
abbrev pub one_of : Text → ℕ → Bool
one_of set c = any (eqb c) set

-- equality of texts
unfoldable pub eq_text : Text → Text → Bool
eq_text [] [] = true
eq_text [] (y ∷ ys) = false
eq_text (x ∷ xs) [] = false
eq_text (x ∷ xs) (y ∷ ys) = eqb x y && eq_text xs ys

pub eq_text_iff : (s t : Text) → (eq_text s t ≡ true) ↔ (s ≡ t)
unfolding eq_text
eq_text_iff [] [] = ground arith
eq_text_iff [] (y ∷ ys) = ground arith
eq_text_iff (x ∷ xs) [] = ground arith
eq_text_iff (x ∷ xs) (y ∷ ys) = ground (arith, eq_text_iff xs ys)

-- `t in s`, for a text of one or two characters and longer
unfoldable pub starts_with : Text → Text → Bool
starts_with [] s = true
starts_with (x ∷ xs) [] = false
starts_with (x ∷ xs) (y ∷ ys) = eqb x y && starts_with xs ys

unfoldable pub occurs : Text → Text → Bool
unfolding starts_with
occurs t [] = starts_with t []
occurs t (c ∷ s) = starts_with t (c ∷ s) || occurs t s

-- the first piece of `s.split(sep)` and the others
unfoldable pub split_go : ℕ → Text → Text × List Text
split_go sep [] = ([], [])
split_go sep (c ∷ s) =
    let (first, rest) = split_go sep s in
    if eqb c sep then ([], first ∷ rest) else (c ∷ first, rest)

-- `s.split(sep)`, for a separator of one character
unfoldable pub split : ℕ → Text → List Text
unfolding split_go
split sep s = (split_go sep s).0 ∷ (split_go sep s).1

-- `s.rstrip(c)`, for one character
unfoldable pub rstrip : ℕ → Text → Text
rstrip c [] = []
rstrip c (x ∷ s) = elim (rstrip c s) [ [] ↦ if eqb x c then [] else x ∷ [] | y ∷ r ↦ x ∷ y ∷ r ]

-- the last character of a text satisfies the test, or the text is empty
abbrev pub ends_with_char : ℕ → Text → Bool
ends_with_char c [] = false
ends_with_char c (x ∷ []) = eqb x c
ends_with_char c (x ∷ y ∷ s) = ends_with_char c (y ∷ s)

-- `PurePosixPath(s).parts` without the root: the segments that are neither empty nor a dot
unfoldable pub path_parts : Text → List Text
unfolding split
path_parts s = keep (λ p. not (eq_text p [] || eq_text p (b'.' ∷ []))) (split b'/' s)
