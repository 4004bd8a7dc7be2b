-- ===== src/Base/Strings/Number.antt =====
-- `strconv.ParseInt(s, 10, 64)`.
use mathlib.Core.Logic.{◌≢◌}
use Prim.Native.Nat.{ℕ, ◌+◌, ◌^◌, ◌-◌, ◌<◌}
use mathlib.Core.Path.{◌≡◌, refl, ap, sym, subst, ◌∙◌}
use mathlib.Core.Bool.{Bool, true, false, ◌&&◌}
use mathlib.Core.Option.{Option, none, some}
use mathlib.Core.List.{[], ◌∷◌}
use native.Mathlib.Omega.{arith}
use smtp_store.Base.Tests.{ltb, ◌==◌, if◌then◌else◌, lt→ltb}
use smtp_store.Base.Lists.{All}
use smtp_store.Base.Strings.{Text, ascii_digit}
use smtp_store.Base.Strings.Decimal.{
  decimal, value, value-decimal, decimal-ne-nil, IsDecimal, decimal-IsDecimal,
}
use smtp_store.Base.Int.{ℤ, pos, negsuc}

unfoldable pub all_digits : Text → Bool
unfolding ascii_digit
all_digits [] = true
all_digits (c ∷ s) = ascii_digit c && all_digits s

-- A number of at least one digit, below a limit.
unfoldable pub parse_digits : ℕ → Text → Option ℕ
unfolding all_digits
parse_digits limit [] = none
parse_digits limit (c ∷ s) =
    if all_digits (c ∷ s) && ltb (value (c ∷ s)) limit then some (value (c ∷ s)) else none

abbrev pub positive_of : Option ℕ → Option ℤ
positive_of none = none
positive_of (some n) = some (pos n)

abbrev pub negative_of : Option ℕ → Option ℤ
negative_of none = none
negative_of (some n) = some (if n == 0 then pos 0 else negsuc (n - 1))

-- `none` is an error: no digit, another character, or a number beyond 64 bits.
unfoldable pub parse_int : Text → Option ℤ
unfolding parse_digits
parse_int [] = none
parse_int (c ∷ s) =
    if c == b'-'
    then negative_of (parse_digits (2 ^ 63 + 1) s)
    else if c == b'+'
    then positive_of (parse_digits (2 ^ 63) s)
    else positive_of (parse_digits (2 ^ 63) (c ∷ s))

all_digits-IsDecimal : (s : Text) → All IsDecimal s → all_digits s ≡ true
unfolding all_digits
all_digits-IsDecimal [] h = refl
all_digits-IsDecimal (c ∷ s) h = ground (arith, all_digits-IsDecimal s h.1)

parse_digits-IsDecimal :
    (c : ℕ) (s : Text) (limit : ℕ)
    → all_digits (c ∷ s) ≡ true
    → value (c ∷ s) < limit
    → parse_digits limit (c ∷ s) ≡ some (value (c ∷ s))
unfolding parse_digits
parse_digits-IsDecimal c s limit h k = rw (h, lt→ltb _ _ k)

parse_int-IsDecimal :
    (s : Text) → s ≢ [] → All IsDecimal s → value s < 2 ^ 63 → parse_int s ≡ some (pos (value s))
unfolding parse_int
parse_int-IsDecimal [] h k l = absurd (h refl)
parse_int-IsDecimal (c ∷ s) h k l =
    let not_minus : (c == b'-') ≡ false = ground (arith, k.0) in
    let not_plus : (c == b'+') ≡ false = ground (arith, k.0) in
    rw (not_minus, not_plus)
      (ap positive_of (parse_digits-IsDecimal c s (2 ^ 63) (all_digits-IsDecimal (c ∷ s) k) l))

-- A number that is printed is read back.
pub parse_int-decimal : (n : ℕ) → n < 2 ^ 63 → parse_int (decimal n) ≡ some (pos n)
parse_int-decimal n h =
    parse_int-IsDecimal (decimal n) (decimal-ne-nil n) (decimal-IsDecimal n)
      (subst (λ m. m < 2 ^ 63) (sym (value-decimal n)) h)
    ∙ ap (λ m. some (pos m)) (value-decimal n)
