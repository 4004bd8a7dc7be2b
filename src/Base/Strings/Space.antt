-- ===== src/Base/Strings/Space.antt =====
-- What trimming keeps, and what it removes.
use Prim.Native.Nat.{ℕ}
use mathlib.Core.Path.{◌≡◌, refl}
use mathlib.Core.Bool.{Bool, true, false}
use mathlib.Core.List.{[], ◌∷◌, ◌++◌}
use mathlib.Core.Logic.{◌≢◌}
use native.Mathlib.Omega.{arith}
use smtp_store.Base.Lists.{All}
use smtp_store.Base.Strings.{
  Text, trim_left, trim_right, keep_left, trim, Unicode, is_space, trim_space,
}

-- The first character, where there is one, is not of the cutset.
abbrev pub StartsOutside : (ℕ → Bool) → Text → Type 0
StartsOutside p [] = Unit
StartsOutside p (c ∷ s) = p c ≡ false

-- The last character, where there is one, is not of the cutset.
abbrev pub EndsOutside : (ℕ → Bool) → Text → Type 0
EndsOutside p [] = Unit
EndsOutside p (c ∷ []) = p c ≡ false
EndsOutside p (c ∷ d ∷ s) = EndsOutside p (d ∷ s)

module _ (p : ℕ → Bool) where
  trim_left-StartsOutside : (s : Text) → StartsOutside p (trim_left p s)
  unfolding trim_left
  trim_left-StartsOutside [] = tt
  trim_left-StartsOutside (c ∷ s) = ground (arith, trim_left-StartsOutside s)

  keep_left-StartsOutside :
      (drop : Bool) (c : ℕ) (s : Text) → p c ≡ false → StartsOutside p (keep_left drop c s)
  unfolding keep_left
  keep_left-StartsOutside true c [] h = tt
  keep_left-StartsOutside false c [] h = h
  keep_left-StartsOutside drop c (d ∷ s) h = h

  trim_right-StartsOutside : (s : Text) → StartsOutside p s → StartsOutside p (trim_right p s)
  unfolding trim_right
  trim_right-StartsOutside [] h = tt
  trim_right-StartsOutside (c ∷ s) h = keep_left-StartsOutside (p c) c (trim_right p s) h

  keep_left-EndsOutside : (c : ℕ) (s : Text) → EndsOutside p s → EndsOutside p (keep_left (p c) c s)
  unfolding keep_left
  keep_left-EndsOutside c [] h = ground arith
  keep_left-EndsOutside c (d ∷ s) h = ground arith

  trim_right-EndsOutside : (s : Text) → EndsOutside p (trim_right p s)
  unfolding trim_right
  trim_right-EndsOutside [] = tt
  trim_right-EndsOutside (c ∷ s) = keep_left-EndsOutside c _ (trim_right-EndsOutside s)

  pub trim-StartsOutside : (s : Text) → StartsOutside p (trim p s)
  unfolding trim
  trim-StartsOutside s = trim_right-StartsOutside _ (trim_left-StartsOutside s)

  pub trim-EndsOutside : (s : Text) → EndsOutside p (trim p s)
  unfolding trim
  trim-EndsOutside s = trim_right-EndsOutside _

module _ (P : ℕ → Type 0) (p : ℕ → Bool) where
  trim_left-All : (s : Text) → All P s → All P (trim_left p s)
  unfolding trim_left
  trim_left-All [] h = tt
  trim_left-All (c ∷ s) h = ground (arith, trim_left-All s h.1)

  keep_left-All : (drop : Bool) (c : ℕ) (s : Text) → P c → All P s → All P (keep_left drop c s)
  unfolding keep_left
  keep_left-All true c [] h k = tt
  keep_left-All false c [] h k = (h, tt)
  keep_left-All drop c (d ∷ s) h k = (h, k)

  trim_right-All : (s : Text) → All P s → All P (trim_right p s)
  unfolding trim_right
  trim_right-All [] h = tt
  trim_right-All (c ∷ s) (h, k) = keep_left-All (p c) c _ h (trim_right-All s k)

  -- What holds of all characters holds of those that trimming keeps.
  pub trim-All : (s : Text) → All P s → All P (trim p s)
  unfolding trim
  trim-All s h = trim_right-All _ (trim_left-All s h)

module _ (p : ℕ → Bool) where
  trim_right-EndsOutside_self : (s : Text) → EndsOutside p s → trim_right p s ≡ s
  unfolding trim_right keep_left
  trim_right-EndsOutside_self [] h = refl
  trim_right-EndsOutside_self (c ∷ []) h = ground arith
  trim_right-EndsOutside_self (c ∷ d ∷ s) h = ground (arith, trim_right-EndsOutside_self (d ∷ s) h)

  trim_right-append : (s : Text) (c : ℕ) → p c ≡ true → trim_right p (s ++ c ∷ []) ≡ trim_right p s
  unfolding trim_right keep_left
  trim_right-append [] c h = ground arith
  trim_right-append (d ∷ s) c h = rw (trim_right-append s c h)

  -- A trailing character of the cutset is all that trimming takes from a text with clean ends.
  pub trim-append :
      (s : Text) (c : ℕ)
      → s ≢ []
      → StartsOutside p s
      → EndsOutside p s
      → p c ≡ true
      → trim p (s ++ c ∷ []) ≡ s
  unfolding trim trim_left
  trim-append [] c h starts ends cut = absurd (h refl)
  trim-append (d ∷ s) c h starts ends cut =
      ground (arith, trim_right-append (d ∷ s) c cut, trim_right-EndsOutside_self (d ∷ s) ends)

module _ ⦃u : Unicode⦄ where
  -- `strings.TrimSpace` of a line takes its end.
  pub trim_space-line :
      (s : Text)
      → s ≢ []
      → StartsOutside is_space s
      → EndsOutside is_space s
      → trim_space (s ++ 10 ∷ []) ≡ s
  unfolding trim_space
  trim_space-line s h starts ends = trim-append is_space s 10 h starts ends refl
