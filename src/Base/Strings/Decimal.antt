-- ===== src/Base/Strings/Decimal.antt =====
-- `%d` of a number that is not negative, and hexadecimal digits.
use Prim.Native.Nat.{ℕ, zero, suc, ◌+◌, ◌-◌, ◌*◌, ◌/◌, ◌%◌, ◌<◌, ◌≤◌}
use mathlib.Core.Path.{◌≡◌, refl, ap, ◌∙◌, sym}
use mathlib.Core.Logic.{◌≢◌}
use mathlib.Core.List.{[], ◌∷◌, ◌++◌, foldl, foldl-append}
use native.Mathlib.Omega.{arith}
use smtp_store.Base.Tests.{ltb, if◌then◌else◌}
use smtp_store.Base.Lists.{All, All-append}
use smtp_store.Base.Strings.{Text, codes}

-- The fuel is a bound on the number: each digit divides it by ten.
digits : ℕ → ℕ → Text
digits zero n = []
digits (suc f) n =
    let rest = digits f (n / 10) in
    if ltb n 10 then (b'0' + n) ∷ [] else rest ++ (b'0' + n % 10) ∷ []

unfoldable pub decimal : ℕ → Text
unfolding digits
decimal n = digits (n + 1) n

-- The number that digits spell.
abbrev pub value : Text → ℕ
value = foldl (λ n c. n * 10 + (c - b'0')) 0

value-digits : (f n : ℕ) → n < f → value (digits f n) ≡ n
unfolding digits
value-digits zero n h = absurd (omega arith)
value-digits (suc f) n h = ground (
  arith,
  value-digits f (n / 10),
  foldl-append (λ n c. n * 10 + (c - b'0')) 0 (digits f (n / 10)) ((b'0' + n % 10) ∷ []),
)

pub value-decimal : (n : ℕ) → value (decimal n) ≡ n
unfolding decimal
value-decimal n = value-digits (n + 1) n (omega arith)

pub decimal-ne-nil : (n : ℕ) → decimal n ≢ []
unfolding decimal digits
decimal-ne-nil n = ground (arith, append-ne-nil (digits n (n / 10)) (b'0' + n % 10))
  where
    append-ne-nil : (s : Text) (c : ℕ) → s ++ c ∷ [] ≢ []
    append-ne-nil [] c = cc
    append-ne-nil (d ∷ s) c = cc

-- Two numbers that are printed alike are equal.
pub decimal-injective : (n m : ℕ) → decimal n ≡ decimal m → n ≡ m
unfolding decimal
decimal-injective n m e =
    sym (value-digits (n + 1) n (omega arith)) ∙ (ap value e ∙ value-digits (m + 1) m (omega arith))

abbrev pub IsDecimal : ℕ → Type 0
IsDecimal c = (b'0' ≤ c) × (c ≤ b'9')

digits-IsDecimal : (f n : ℕ) → All IsDecimal (digits f n)
unfolding digits
digits-IsDecimal zero n = tt
digits-IsDecimal (suc f) n = ground (
  arith,
  digits-IsDecimal f (n / 10),
  All-append IsDecimal (digits f (n / 10)) ((b'0' + n % 10) ∷ []),
)

pub decimal-IsDecimal : (n : ℕ) → All IsDecimal (decimal n)
unfolding decimal
decimal-IsDecimal n = digits-IsDecimal (n + 1) n

decimal_thousand : decimal 1024 ≡ codes "1024"
unfolding decimal
decimal_thousand = refl
