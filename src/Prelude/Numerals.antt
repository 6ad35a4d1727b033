-- ===== src/Prelude/Numerals.antt =====
-- The numbers that `str::parse` and `from_str_radix` read, as bytes of text. `none` is an error.
pub mod Laws
use Prim.Native.Nat.{ℕ, ◌+◌, ◌-◌, ◌*◌, ◌^◌}
use mathlib.Core.Bool.{true, false, ◌&&◌}
use mathlib.Core.List.{List, [], ◌∷◌}
use mathlib.Core.Option.{Option, none, some}
use awg_easy_rs.Prelude.Tests.{ltb, leb, ◌==◌, if◌then◌else◌}
use awg_easy_rs.Prelude.Options.{◌>>=◌}

-- `to_digit` for a base of at most 16.
unfoldable pub digit_value : ℕ → Option ℕ
digit_value b =
    if leb 0x30 b && leb b 0x39
    then some (b - 0x30)
    else (if leb 0x61 b && leb b 0x66
        then some (b - 0x57)
        else (if leb 0x41 b && leb b 0x46 then some (b - 0x37) else none))

unfoldable pub to_digit : ℕ → ℕ → Option ℕ
to_digit base b = digit_value b >>= λ d. if ltb d base then some d else none

-- The digits behind a number; the bound is the first number that the type does not hold.
unfoldable pub digits_from : ℕ → ℕ → ℕ → List ℕ → Option ℕ
digits_from base bound acc [] = some acc
digits_from base bound acc (b ∷ bytes) = to_digit base b >>= λ d.
    if ltb (acc * base + d) bound then digits_from base bound (acc * base + d) bytes else none

-- At least one digit.
unfoldable pub digits : ℕ → ℕ → List ℕ → Option ℕ
digits base bound [] = none
digits base bound (b ∷ bytes) = digits_from base bound 0 (b ∷ bytes)

-- `from_str_radix` of an unsigned type, with its plus sign.
unfoldable pub from_str_radix : ℕ → ℕ → List ℕ → Option ℕ
from_str_radix base bound [] = none
from_str_radix base bound (b ∷ bytes) = elim (b == 0x2B) [
  | true ↦ digits base bound bytes
  | false ↦ digits base bound (b ∷ bytes)
]

abbrev pub u32_bound : ℕ
u32_bound = 2 ^ 32

abbrev pub u64_bound : ℕ
u64_bound = 2 ^ 64

-- `parse::<u32>()` and `parse::<u64>()`.
unfoldable pub parse_u32 : List ℕ → Option ℕ
parse_u32 text = from_str_radix 10 u32_bound text

unfoldable pub parse_u64 : List ℕ → Option ℕ
parse_u64 text = from_str_radix 10 u64_bound text
