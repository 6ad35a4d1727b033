-- ===== src/Prelude/Bits.antt =====
-- Masks on one byte as arithmetic: two functions that agree at every byte by evaluation.
use Prim.Native.Nat.{ℕ, zero, suc, ◌*◌, ◌/◌, ◌%◌, ◌<◌, bit_and}
use mathlib.Core.Path.{◌≡◌, refl}
use mathlib.Core.Bool.{Bool, true, ◌&&◌}
use native.Mathlib.Omega.{arith}
use awg_easy_rs.Prelude.Tests.{◌==◌, ==_iff}

module _ (f g : ℕ → ℕ) where
  agree_to : ℕ → Bool
  agree_to zero = true
  agree_to (suc k) = agree_to k && (f k == g k)

  agree_to-at : (k v : ℕ) → v < k → agree_to k ≡ true → f v ≡ g v
  unfolding agree_to
  agree_to-at (suc k) v below all = ground (arith, agree_to-at k v, (==_iff (f k) (g k)).0)
  agree_to-at zero v below all = absurd (omega arith)

  on_bytes : agree_to 256 ≡ true → (v : ℕ) → v < 256 → f v ≡ g v
  on_bytes all v below = agree_to-at 256 v below all

pub bit_and-one : (x : ℕ) → x < 256 → bit_and x 1 ≡ x % 2
unfolding agree_to
bit_and-one = on_bytes (λ x. bit_and x 1) (λ x. x % 2) refl

pub bit_and_three : (x : ℕ) → x < 256 → bit_and x 3 ≡ x % 4
unfolding agree_to
bit_and_three = on_bytes (λ x. bit_and x 3) (λ x. x % 4) refl

-- The two top bits.
pub bit_and_c0 : (x : ℕ) → x < 256 → bit_and x 0xC0 ≡ x / 64 * 64
unfolding agree_to
bit_and_c0 = on_bytes (λ x. bit_and x 0xC0) (λ x. x / 64 * 64) refl
