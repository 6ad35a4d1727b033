-- ===== src/Prelude/Words.antt =====
-- Bytes and machine words as native numbers, with the byte orders of the packet code.
use Prim.Native.Nat.{ℕ, ◌+◌, ◌*◌, ◌/◌, ◌%◌, ◌<◌}
use mathlib.Core.Path.{◌≡◌}
use mathlib.Core.List.{List, [], ◌∷◌}
use native.Mathlib.Omega.{arith}

abbrev pub IsByte : ℕ → Type 0
IsByte b = b < 256

-- `u32::from_le_bytes`, `u32::from_be_bytes` and `u16::from_be_bytes`.
abbrev pub u32_from_le_bytes : ℕ → ℕ → ℕ → ℕ → ℕ
u32_from_le_bytes a b c d = a + b * 256 + c * 65536 + d * 16777216

abbrev pub u32_from_be_bytes : ℕ → ℕ → ℕ → ℕ → ℕ
u32_from_be_bytes a b c d = a * 16777216 + b * 65536 + c * 256 + d

abbrev pub u16_from_be_bytes : ℕ → ℕ → ℕ
u16_from_be_bytes a b = a * 256 + b

-- `to_be_bytes` of a u16 and of a u32.
abbrev pub u16_to_be_bytes : ℕ → List ℕ
u16_to_be_bytes v = (v / 256 % 256) ∷ (v % 256) ∷ []

abbrev pub u32_to_be_bytes : ℕ → List ℕ
u32_to_be_bytes v = (v / 16777216 % 256) ∷ (v / 65536 % 256) ∷ (v / 256 % 256) ∷ (v % 256) ∷ []

pub u16_be_round_trip : (v : ℕ) → v < 65536 → u16_from_be_bytes (v / 256 % 256) (v % 256) ≡ v
u16_be_round_trip v h = omega arith
