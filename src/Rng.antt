-- ===== src/Rng.antt =====
-- src/rng.rs: random numbers. The operating system's random bytes are a list that the functions
-- take from its front. A sum that overflows wraps, as in the release profile.
mod Tests
pub mod Below
pub mod Uniform
pub mod Ranges
pub mod Yields
use awg_easy_rs.Prelude.{
  ℕ, zero, suc, ◌+◌, ◌-◌, ◌*◌, ◌%◌, ◌^◌, List, [], ◌∷◌, Bool, true, false, ltb, ◌==◌, if◌then◌else◌,
}
use awg_easy_rs.Prelude.Ints.{ℤ, pos, negsuc, ltz, lez, ◌+ℤ◌}
use awg_easy_rs.Prelude.Results.{Result, ok, err, fail_if}
use awg_easy_rs.Prelude.Results

-- Why there is no number: a failed assertion, or a loop that has used up the random bytes given.
pub data Stop : Type 0 where
  panicked exhausted : Stop

abbrev pub Draw {ℓ} : Type ℓ → Type ℓ
Draw A = List ℕ → Result Stop (A × List ℕ)

module _ {ℓ κ} {A : Type ℓ} {B : Type κ} where
  infixl 5 ◌>>=◌ ◌>>◌
  abbrev pub ◌>>=◌ : Draw A → (A → Draw B) → Draw B
  (m >>= f) source = Results.◌>>=◌ (m source) (λ (a, rest). f a rest)

  abbrev pub ◌>>◌ : Draw A → Draw B → Draw B
  m >> k = m >>= λ _. k

abbrev pub return {ℓ} : {A : Type ℓ} → A → Draw A
return a source = ok (a, source)

abbrev pub stop {ℓ} : {A : Type ℓ} → Stop → Draw A
stop reason source = err reason

abbrev pub assert : Bool → Draw (Unit {0})
assert true source = ok (tt, source)
assert false source = err panicked

unfoldable pub byte : Draw ℕ
byte [] = err exhausted
byte (b ∷ source) = ok (b, source)

-- `u64::from_le_bytes`
unfoldable pub u64_from_le_bytes : ℕ → ℕ → ℕ → ℕ → ℕ → ℕ → ℕ → ℕ → ℕ
u64_from_le_bytes a b c d e f g h =
    a + b * 2 ^ 8 + c * 2 ^ 16 + d * 2 ^ 24 + e * 2 ^ 32 + f * 2 ^ 40 + g * 2 ^ 48 + h * 2 ^ 56

unfoldable pub next_u64 : Draw ℕ
next_u64 (a ∷ b ∷ c ∷ d ∷ e ∷ f ∷ g ∷ h ∷ source) = ok (u64_from_le_bytes a b c d e f g h, source)
next_u64 _ = err exhausted

-- The loop of rejections. A round takes eight bytes.
unfoldable pub below_loop : ℕ → ℕ → Draw ℕ
below_loop bound reject_below (a ∷ b ∷ c ∷ d ∷ e ∷ f ∷ g ∷ h ∷ source) =
    let x = u64_from_le_bytes a b c d e f g h in
    let again = below_loop bound reject_below source in
    if ltb x reject_below then again else ok (x % bound, source)
below_loop bound reject_below _ = err exhausted

-- `bound.wrapping_neg() % bound`
unfoldable pub reject_below : ℕ → ℕ
reject_below bound = (2 ^ 64 - bound) % bound

unfoldable pub u64_below : ℕ → Draw ℕ
u64_below zero source = err panicked
u64_below (suc b) source = below_loop (suc b) (reject_below (suc b)) source

-- `hi - lo` as a natural number, where `lo <= hi`.
unfoldable pub distance : ℤ → ℤ → ℕ
distance (pos a) (pos b) = b - a
distance (pos a) (negsuc b) = 0
distance (negsuc a) (pos b) = a + b + 1
distance (negsuc a) (negsuc b) = a - b

-- The cast of an unsigned number to i64, and the sum of two i64.
unfoldable pub as_i64 : ℕ → ℤ
as_i64 n = if ltb n (2 ^ 63) then pos n else negsuc (2 ^ 64 - 1 - n)

unfoldable pub wrap_i64 : ℤ → ℤ
wrap_i64 (pos n) = as_i64 (n % 2 ^ 64)
wrap_i64 (negsuc n) = as_i64 (2 ^ 64 - 1 - n % 2 ^ 64)

unfoldable pub range_incl_i64 : ℤ → ℤ → Draw ℤ
range_incl_i64 lo hi = do
  assert (lez lo hi)
  x ← u64_below ((distance lo hi + 1) % 2 ^ 64)
  return (wrap_i64 (lo +ℤ as_i64 x))

unfoldable pub range_excl_i64 : ℤ → ℤ → Draw ℤ
range_excl_i64 lo hi = do
  assert (ltz lo hi)
  x ← u64_below (distance lo hi % 2 ^ 64)
  return (wrap_i64 (lo +ℤ as_i64 x))
