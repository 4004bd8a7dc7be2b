-- ===== src/Base/Strings/Hex.antt =====
-- `hex.EncodeToString`, two lower case digits for each byte, and `hex.DecodeString`.
use Prim.Native.Nat.{ℕ, ◌+◌, ◌-◌, ◌*◌, ◌/◌, ◌%◌, ◌<◌}
use mathlib.Core.Path.{◌≡◌, refl}
use mathlib.Core.Bool.{◌&&◌}
use mathlib.Core.Option.{Option, none, some}
use native.Mathlib.Omega.{arith}
use smtp_store.Base.Lists.{All}
use mathlib.Core.List.{[], ◌∷◌}
use smtp_store.Base.Tests.{ltb, leb, if◌then◌else◌}
use smtp_store.Base.Strings.{Text}

unfoldable pub hex_digit : ℕ → ℕ
hex_digit n = if ltb n 10 then b'0' + n else b'W' + n

unfoldable pub hex : Text → Text
unfolding hex_digit
hex [] = []
hex (b ∷ bs) = hex_digit (b / 16) ∷ hex_digit (b % 16) ∷ hex bs

unfoldable pub hex_value : ℕ → Option ℕ
hex_value c =
    if leb b'0' c && leb c b'9'
    then some (c - b'0')
    else if leb b'a' c && leb c b'f'
    then some (c - b'W')
    else if leb b'A' c && leb c b'F'
    then some (c - b'7')
    else none

unfoldable pub put_byte : Option ℕ → Option ℕ → Option Text → Option Text
put_byte (some a) (some b) (some s) = some ((a * 16 + b) ∷ s)
put_byte _ _ _ = none

-- `none` is a digit that is none, or an odd length.
unfoldable pub unhex : Text → Option Text
unfolding hex_value put_byte
unhex [] = some []
unhex (c ∷ []) = none
unhex (c ∷ d ∷ s) = put_byte (hex_value c) (hex_value d) (unhex s)

hex_value-digit : (n : ℕ) → n < 16 → hex_value (hex_digit n) ≡ some n
unfolding hex_value hex_digit
hex_value-digit n h = ground arith

-- Bytes are read back from their digits.
pub unhex-hex : (s : Text) → All (λ b. b < 256) s → unhex (hex s) ≡ some s
unfolding unhex hex put_byte
unhex-hex [] h = refl
unhex-hex (b ∷ s) (lt, h) =
    ground (arith, hex_value-digit (b / 16), hex_value-digit (b % 16), unhex-hex s h)
