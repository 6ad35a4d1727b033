-- ===== src/Prelude/Text.antt =====
-- Text as the bytes that the code writes: ASCII literals, decimal and hexadecimal numbers.
use Prim.Native.Nat.{ℕ, zero, suc, ◌+◌, ◌-◌, ◌/◌, ◌%◌, ◌^◌}
use Prim.Native.Char.{code}
use Prim.Native.String.{String}
use mathlib.Core.Path.{◌≡◌, refl}
use mathlib.Core.List.{List, [], ◌∷◌, ◌++◌}
use awg_easy_rs.Prelude.Tests.{ltb, if◌then◌else◌}
use awg_easy_rs.Prelude.Lists.{length}

-- The bytes of an ASCII literal.
abbrev pub codes : String → List ℕ
codes String.[] = []
codes (String.◌∷◌ c s) = code c ∷ codes s

-- `{}` of an unsigned number. The fuel is above the number, and each round divides it by 10.
unfoldable pub decimal_loop : ℕ → ℕ → List ℕ
decimal_loop zero n = []
decimal_loop (suc f) n =
    let front = decimal_loop f (n / 10) in
    if ltb n 10 then (0x30 + n) ∷ [] else front ++ ((0x30 + n % 10) ∷ [])

unfoldable pub decimal : ℕ → List ℕ
unfolding decimal_loop
decimal n = decimal_loop (suc n) n

-- One digit of `{:x}`.
unfoldable pub hex_digit : ℕ → ℕ
hex_digit d = if ltb d 10 then 0x30 + d else 0x61 + d - 10

-- `{:08x}` of a u32.
unfoldable pub hex8 : ℕ → List ℕ
unfolding hex_digit
hex8 v =
    hex_digit (v / 2 ^ 28 % 16)
    ∷ hex_digit (v / 2 ^ 24 % 16)
    ∷ hex_digit (v / 2 ^ 20 % 16)
    ∷ hex_digit (v / 2 ^ 16 % 16)
    ∷ hex_digit (v / 2 ^ 12 % 16)
    ∷ hex_digit (v / 2 ^ 8 % 16)
    ∷ hex_digit (v / 2 ^ 4 % 16)
    ∷ hex_digit (v % 16)
    ∷ []

pub length-hex8 : (v : ℕ) → length (hex8 v) ≡ 8
unfolding hex8
length-hex8 v = refl
