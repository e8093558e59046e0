-- ===== src/Common/Redact.antt =====
-- `re.sub` of the patterns `(?i)(word|...)\s*[:=]\s*\S+` that hide secrets, and slices of texts. The
-- pattern's parts are disjoint, so a match is found by one walk from left to right.
use Prim.Native.Nat.{ℕ, zero, suc, ◌+◌, ◌≤◌}
use Prim.Native.Char.{code}
use Prim.Native.String.{String, ◌++◌}
use mathlib.Core.Bool.{Bool, ◌&&◌, ◌||◌}
use mathlib.Core.Option.{Option, none, some}
use mathlib.Core.List.{List, [], ◌∷◌}
use native.Mathlib.Omega.{arith}
use django_ops.Common.Tests.{leb, eqb, if◌then◌else◌}
use django_ops.Common.Lists.{length}
use django_ops.Common.Text.{Text, codes, is_upper, one_of}

-- `s[:n]`
unfoldable pub truncate : ℕ → String → String
truncate zero s = String.[]
truncate (suc n) String.[] = String.[]
truncate (suc n) (String.◌∷◌ c s) = String.◌∷◌ c (truncate n s)

pub length-truncate : (n : ℕ) (s : String) → length (codes (truncate n s)) ≤ n
unfolding truncate
length-truncate zero s = omega arith
length-truncate (suc n) String.[] = omega arith
length-truncate (suc n) (String.◌∷◌ c s) = omega (arith, length-truncate n s)

-- `\s` of a Unicode pattern
unfoldable pub is_space : ℕ → Bool
is_space c =
    (leb 9 c && leb c 13)
    || (leb 28 c && leb c 32)
    || (leb 0x2000 c && leb c 0x200a)
    || one_of (0x85 ∷ 0xa0 ∷ 0x1680 ∷ 0x2028 ∷ 0x2029 ∷ 0x202f ∷ 0x205f ∷ 0x3000 ∷ []) c

-- the lower-case letter that a character matches under `(?i)`
unfoldable pub fold_case : ℕ → ℕ
fold_case c =
    if is_upper c
    then c + 32
    else if eqb c 0x17f
    then b's'
    else if eqb c 0x212a
    then b'k'
    else if one_of (0x130 ∷ 0x131 ∷ []) c
    then b'i'
    else c

-- A word of the pattern; `optional` is `[_-]?`.
pub data Piece : Type 0 where
  letter : ℕ → Piece
  optional : Piece

abbrev pub word : Text → List Piece
word [] = []
word (c ∷ s) = (if eqb c b'?' then optional else letter c) ∷ word s

-- What is left of the text behind the word. No letter is a `_` or a `-`, so `[_-]?` never gives back.
unfoldable pub after_word : List Piece → String → Option String
after_word [] s = some s
after_word (letter a ∷ ps) String.[] = none
after_word (letter a ∷ ps) (String.◌∷◌ c s) =
    if eqb (fold_case (code c)) a then after_word ps s else none
after_word (optional ∷ ps) String.[] = after_word ps String.[]
after_word (optional ∷ ps) (String.◌∷◌ c s) =
    after_word ps (if one_of (b'_' ∷ b'-' ∷ []) (code c) then s else String.◌∷◌ c s)

-- The first word that stands at the start of the text.
unfoldable pub after_words : List (List Piece) → String → Option String
after_words [] s = none
after_words (w ∷ ws) s = elim (after_word w s) [ some r ↦ some r | none ↦ after_words ws s ]

unfoldable pub skip_spaces : String → String
skip_spaces String.[] = String.[]
skip_spaces (String.◌∷◌ c s) = if is_space (code c) then skip_spaces s else String.◌∷◌ c s

unfoldable pub skip_token : String → String
skip_token String.[] = String.[]
skip_token (String.◌∷◌ c s) = if is_space (code c) then String.◌∷◌ c s else skip_token s

-- `\S+`
unfoldable pub after_token : String → Option String
after_token String.[] = none
after_token (String.◌∷◌ c s) = if is_space (code c) then none else some (skip_token s)

-- `[:=]\s*\S+`
unfoldable pub after_assignment : String → Option String
after_assignment String.[] = none
after_assignment (String.◌∷◌ c s) =
    if one_of (b':' ∷ b'=' ∷ []) (code c) then after_token (skip_spaces s) else none

unfoldable pub after_secret : List (List Piece) → String → Option String
after_secret ws s = elim (after_words ws s) [
  | none ↦ none
  | some r ↦ after_assignment (skip_spaces r)
]

-- `pattern.sub("[REDACTED]", s)`; a match is not empty, so as many rounds as the text is long suffice.
unfoldable pub sub_secrets : ℕ → List (List Piece) → String → String
sub_secrets zero ws s = s
sub_secrets (suc n) ws String.[] = String.[]
sub_secrets (suc n) ws (String.◌∷◌ c s) = elim (after_secret ws (String.◌∷◌ c s)) [
  | some rest ↦ "[REDACTED]" ++ sub_secrets n ws rest
  | none ↦ String.◌∷◌ c (sub_secrets n ws s)
]
