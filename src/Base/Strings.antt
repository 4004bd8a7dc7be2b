-- ===== src/Base/Strings.antt =====
-- The parts of Go's `strings`, `unicode` and `strconv` that the program uses. A string is the
-- sequence of its characters (valid UTF-8), so order by code point is Go's order of strings.
-- ASCII is written out; the tables of Unicode beyond it are the instance argument `Unicode`.
pub mod Equality
pub mod Space
pub mod Split
pub mod Decimal
pub mod FilePath
pub mod Hex
pub mod Number
pub mod Sort
use Prim.Native.Char.{code}
use Prim.Native.String.{String}
use Prim.Native.Nat.{ℕ, zero, suc, ◌+◌}
use mathlib.Core.Bool.{Bool, true, false, ◌&&◌, ◌||◌}
use mathlib.Core.List.{List, [], ◌∷◌, map, reverse, ◌++◌}
use smtp_store.Base.Tests.{ltb, leb, ◌==◌, if◌then◌else◌}

abbrev pub Text : Type 0
Text = List ℕ

abbrev pub codes : String → Text
codes String.[] = []
codes (String.◌∷◌ c s) = code c ∷ codes s

-- `a == b` on strings.
unfoldable pub text_eq : Text → Text → Bool
text_eq [] [] = true
text_eq [] (d ∷ t) = false
text_eq (c ∷ s) [] = false
text_eq (c ∷ s) (d ∷ t) = c == d && text_eq s t

-- `a <= b` on strings.
unfoldable pub text_le : Text → Text → Bool
text_le [] t = true
text_le (c ∷ s) [] = false
text_le (c ∷ s) (d ∷ t) = let rest = text_le s t in ltb c d || (c == d && rest)

-- `strings.HasPrefix`, `strings.HasSuffix` and `strings.Contains`.
unfoldable pub has_prefix : Text → Text → Bool
has_prefix s [] = true
has_prefix [] (d ∷ p) = false
has_prefix (c ∷ s) (d ∷ p) = c == d && has_prefix s p

unfoldable pub has_suffix : Text → Text → Bool
has_suffix [] p = text_eq [] p
has_suffix (c ∷ s) p = text_eq (c ∷ s) p || has_suffix s p

unfoldable pub contains : Text → Text → Bool
contains [] p = has_prefix [] p
contains (c ∷ s) p = has_prefix (c ∷ s) p || contains s p

-- `strings.TrimPrefix`.
unfoldable pub trim_prefix : Text → Text → Text
trim_prefix s [] = s
trim_prefix [] (d ∷ p) = []
trim_prefix (c ∷ s) (d ∷ p) =
    let rest = trim_prefix s p in if has_prefix (c ∷ s) (d ∷ p) then rest else c ∷ s

-- `strings.TrimLeftFunc`, `strings.TrimRightFunc` and `strings.TrimFunc`.
unfoldable pub trim_left : (ℕ → Bool) → Text → Text
trim_left p [] = []
trim_left p (c ∷ s) = if p c then trim_left p s else c ∷ s

-- A character in front of a text whose right end is trimmed already.
unfoldable pub keep_left : Bool → ℕ → Text → Text
keep_left true c [] = []
keep_left false c [] = c ∷ []
keep_left drop c (d ∷ s) = c ∷ d ∷ s

unfoldable pub trim_right : (ℕ → Bool) → Text → Text
trim_right p [] = []
trim_right p (c ∷ s) = keep_left (p c) c (trim_right p s)

unfoldable pub trim : (ℕ → Bool) → Text → Text
trim p s = trim_right p (trim_left p s)

-- Whether a character occurs in a cutset (`strings.ContainsRune`).
unfoldable pub elem : ℕ → Text → Bool
elem c [] = false
elem c (d ∷ s) = c == d || elem c s

-- What lies beyond ASCII in the `unicode` package.
pub record Unicode : Type 0 where
  pub lower_other : ℕ → ℕ
  pub fold_other : ℕ → ℕ
  pub is_space_other : ℕ → Bool
  pub is_letter_other : ℕ → Bool
  pub is_digit_other : ℕ → Bool

unfoldable pub ascii_lower : ℕ → ℕ
ascii_lower c = if leb b'A' c && leb c b'Z' then c + 32 else c

unfoldable pub ascii_space : ℕ → Bool
ascii_space c = c == b' ' || (leb 9 c && leb c 13)

unfoldable pub ascii_digit : ℕ → Bool
ascii_digit c = leb b'0' c && leb c b'9'

unfoldable pub ascii_letter : ℕ → Bool
ascii_letter c = (leb b'a' c && leb c b'z') || (leb b'A' c && leb c b'Z')

module _ ⦃u : Unicode⦄ where
  -- `unicode.ToLower`, `IsSpace`, `IsLetter` and `IsDigit`.
  unfoldable pub lower_rune : ℕ → ℕ
  unfolding ascii_lower
  lower_rune c = if ltb c 128 then ascii_lower c else u.lower_other c

  unfoldable pub fold_rune : ℕ → ℕ
  unfolding ascii_lower
  fold_rune c = if ltb c 128 then ascii_lower c else u.fold_other c

  unfoldable pub is_space : ℕ → Bool
  unfolding ascii_space
  is_space c = if ltb c 128 then ascii_space c else u.is_space_other c

  unfoldable pub is_letter : ℕ → Bool
  unfolding ascii_letter
  is_letter c = if ltb c 128 then ascii_letter c else u.is_letter_other c

  unfoldable pub is_digit : ℕ → Bool
  unfolding ascii_digit
  is_digit c = if ltb c 128 then ascii_digit c else u.is_digit_other c

  -- `strings.ToLower`, `strings.TrimSpace` and `strings.EqualFold`.
  unfoldable pub to_lower : Text → Text
  unfolding lower_rune
  to_lower s = map lower_rune s

  unfoldable pub trim_space : Text → Text
  unfolding trim trim_left trim_right keep_left is_space
  trim_space s = trim is_space s

  unfoldable pub equal_fold : Text → Text → Bool
  unfolding fold_rune text_eq
  equal_fold s t = text_eq (map fold_rune s) (map fold_rune t)

  -- `strings.TrimSpace(s) == ""`.
  unfoldable pub is_blank : Text → Bool
  unfolding trim_space text_eq
  is_blank s = text_eq (trim_space s) []

-- Unicode up to U+00FF.
abbrev pub latin1 : Unicode
latin1 = record {
  lower_other =
      λ c. if leb 0xc0 c && leb c 0xde && (if c == 0xd7 then false else true) then c + 32 else c;
  fold_other =
      λ c. if leb 0xc0 c && leb c 0xde && (if c == 0xd7 then false else true) then c + 32 else c;
  is_space_other = λ c. c == 0x85 || c == 0xa0;
  is_letter_other = λ c. leb 0xc0 c && (if c == 0xd7 || c == 0xf7 then false else true);
  is_digit_other = λ c. false;
}
