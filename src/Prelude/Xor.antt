-- ===== src/Prelude/Xor.antt =====
-- Exclusive or undoes itself.
use Prim.Native.Nat.{
  ℕ, zero, suc, ◌+◌, ◌*◌, ◌/◌, ◌%◌, ◌≤◌, ◌<◌, bit_xor, digits, differ, bit_xor-bitwise,
}
use mathlib.Core.Path.{◌≡◌, refl, sym, ap, ◌∙◌}
use native.Mathlib.Omega.{arith}

abbrev xor_digits : ℕ → ℕ → ℕ → ℕ
xor_digits = digits (λ b. b) differ

spent : (n b : ℕ) → xor_digits n 0 b ≡ b
spent zero b = refl
spent (suc n) b = refl

-- The number of rounds does not matter when it is enough.
rounds_same : (a n m b : ℕ) → a ≤ n → a ≤ m → xor_digits n a b ≡ xor_digits m a b
rounds_same zero n m b h k = spent n b ∙ sym (spent m b)
rounds_same (suc a) zero m b h k = absurd (omega arith)
rounds_same (suc a) (suc n) zero b h k = absurd (omega arith)
rounds_same (suc a) (suc n) (suc m) b h k =
    ap (λ t. t * 2 + differ (suc a % 2) (b % 2))
      (rounds_same (suc a / 2) n m (b / 2) (omega arith) (omega arith))

bit_sum : (p q : ℕ) → p < 2 → q < 2 → differ p q ≡ (p + q) % 2
bit_sum zero zero h k = refl
bit_sum zero (suc zero) h k = refl
bit_sum (suc zero) zero h k = refl
bit_sum (suc zero) (suc zero) h k = refl
bit_sum (suc (suc p)) q h k = absurd (omega arith)
bit_sum zero (suc (suc q)) h k = absurd (omega arith)
bit_sum (suc zero) (suc (suc q)) h k = absurd (omega arith)

first_zero : (b : ℕ) → bit_xor 0 b ≡ b
first_zero b = bit_xor-bitwise 0 b

halves : (a b : ℕ) → bit_xor a b ≡ bit_xor (a / 2) (b / 2) * 2 + (a % 2 + b % 2) % 2
halves zero b = omega (arith, first_zero b, first_zero (b / 2))
halves (suc a) b = omega (
  arith,
  bit_xor-bitwise (suc a) b,
  bit_xor-bitwise (suc a / 2) (b / 2),
  rounds_same (suc a / 2) a (suc a / 2) (b / 2) (omega arith) (omega arith),
  bit_sum (suc a % 2) (b % 2) (omega arith) (omega arith),
)

undone : (n a b : ℕ) → a ≤ n → b ≤ n → bit_xor (bit_xor a b) b ≡ a
undone zero a b h k =
    let none_left : a ≡ 0 = omega arith in
    let nothing : b ≡ 0 = omega arith in rw (none_left, nothing) refl
undone (suc n) a b h k =
    let x = bit_xor a b in
    let half : bit_xor (x / 2) (b / 2) ≡ bit_xor (bit_xor (a / 2) (b / 2)) (b / 2) =
      ap (λ t. bit_xor t (b / 2)) (omega (arith, halves a b)) in
    omega
      (arith, halves x b, halves a b, half, undone n (a / 2) (b / 2) (omega arith) (omega arith))

pub bit_xor-bit_xor : (a b : ℕ) → bit_xor (bit_xor a b) b ≡ a
bit_xor-bit_xor a b = undone (a + b) a b (omega arith) (omega arith)

-- 2 to a number of digits.
abbrev pub top : ℕ → ℕ
top zero = 1
top (suc w) = top w * 2

-- The result has no more digits than the two numbers.
pub bit_xor_lt : (w a b : ℕ) → a < top w → b < top w → bit_xor a b < top w
bit_xor_lt zero a b h k =
    let none_left : a ≡ 0 = omega arith in
    let nothing : b ≡ 0 = omega arith in rw (none_left, nothing) (omega arith)
bit_xor_lt (suc w) a b h k =
    omega (arith, halves a b, bit_xor_lt w (a / 2) (b / 2) (omega arith) (omega arith))
