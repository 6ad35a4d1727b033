-- ===== src/Rng/Ranges.antt =====
-- src/rng.rs: the draws from a range stay inside it.
use awg_easy_rs.Prelude.{
  ℕ, zero, suc, ◌+◌, ◌-◌, ◌%◌, ◌^◌, ◌≤◌, ◌<◌, ◌≡◌, ap, ◌∙◌, sym, inl, inr, List, length, Bool-cases,
  true, ltb, ltb→lt, arith,
}
use mathlib.Core.Path.{subst}
use native.Mathlib.Nat.{mod-eq_of_lt, mod-le}
use awg_easy_rs.Prelude.Ints.{ℤ, pos, negsuc, ltz, lez, ◌+ℤ◌}
use awg_easy_rs.Prelude.Results.{Result, ok, err, ok_inj, Result-cases}
use awg_easy_rs.Rng.{
  Stop, panicked, ◌>>=◌, return, u64_below, distance, as_i64, wrap_i64, range_incl_i64,
  range_excl_i64,
}
use awg_easy_rs.Rng.Below.{u64_below-lt}

-- The order of the signed numbers.
abbrev pub AtMost : ℤ → ℤ → Type 0
AtMost (pos a) (pos b) = a ≤ b
AtMost (pos a) (negsuc b) = ⊥
AtMost (negsuc a) (pos b) = Unit
AtMost (negsuc a) (negsuc b) = b ≤ a

abbrev pub IsI64 : ℤ → Type 0
IsI64 (pos a) = a < 2 ^ 63
IsI64 (negsuc a) = a < 2 ^ 63

as_i64_small : (n : ℕ) → n < 2 ^ 63 → as_i64 n ≡ pos n
unfolding as_i64
as_i64_small n h = ground arith

as_i64_large : (n : ℕ) → 2 ^ 63 ≤ n → as_i64 n ≡ negsuc (2 ^ 64 - 1 - n)
unfolding as_i64
as_i64_large n h = ground arith

wrap_i64_pos : (n : ℕ) → n < 2 ^ 63 → wrap_i64 (pos n) ≡ pos n
unfolding wrap_i64
wrap_i64_pos n h = ap as_i64 (mod-eq_of_lt (omega arith)) ∙ as_i64_small n h

wrap_i64_negsuc : (n : ℕ) → n < 2 ^ 63 → wrap_i64 (negsuc n) ≡ negsuc n
unfolding wrap_i64
wrap_i64_negsuc n h =
    ap (λ k. as_i64 (2 ^ 64 - 1 - k)) (mod-eq_of_lt (omega arith))
    ∙ as_i64_large (2 ^ 64 - 1 - n) (omega arith)
    ∙ ap negsuc (omega arith)

wrap_i64_under : (n : ℕ) → 2 ^ 63 ≤ n → n < 2 ^ 64 → wrap_i64 (negsuc n) ≡ pos (2 ^ 64 - 1 - n)
unfolding wrap_i64
wrap_i64_under n h k =
    ap (λ k. as_i64 (2 ^ 64 - 1 - k)) (mod-eq_of_lt (omega arith))
    ∙ as_i64_small (2 ^ 64 - 1 - n) (omega arith)

abbrev Inside : ℤ → ℤ → ℤ → Type 0
Inside lo hi v = AtMost lo v × AtMost v hi

-- The sums behind a negative number, and whether they stay negative.
from_negative_small :
    (a u : ℕ) (hi : ℤ)
    → a < 2 ^ 63
    → u < 2 ^ 63
    → (u ≤ a → Inside (negsuc a) hi (negsuc (a - u)))
    → (a < u → Inside (negsuc a) hi (pos (u - suc a)))
    → Inside (negsuc a) hi (wrap_i64 (negsuc a +ℤ as_i64 u))
from_negative_small a u hi h k below above = rw (as_i64_small u k) (elim (Bool-cases (ltb a u)) [
  | inl y ↦ let l = ltb→lt a u y in rw (y, wrap_i64_pos (u - suc a) (omega arith)) (above l)
  | inr n ↦ let l : u ≤ a = ground arith in rw (n, wrap_i64_negsuc (a - u) (omega arith)) (below l)
])

from_negative_large :
    (a u b : ℕ)
    → a < 2 ^ 63
    → b < 2 ^ 63
    → 2 ^ 63 ≤ u
    → u ≤ a + b + 1
    → Inside (negsuc a) (pos b) (wrap_i64 (negsuc a +ℤ as_i64 u))
from_negative_large a u b h h' k d =
    rw (as_i64_large u k) (
      rw (wrap_i64_under (suc (a + (2 ^ 64 - 1 - u))) (omega arith) (omega arith))
        (tt, omega arith))

-- `lo + u` for a number of steps u that does not lead beyond `hi`.
step-Inside :
    (lo hi : ℤ) (u : ℕ)
    → IsI64 lo
    → IsI64 hi
    → AtMost lo hi
    → u ≤ distance lo hi
    → Inside lo hi (wrap_i64 (lo +ℤ as_i64 u))
unfolding distance
step-Inside (pos a) (pos b) u l h o d =
    rw (as_i64_small u (omega arith), wrap_i64_pos (a + u) (omega arith)) (omega arith, omega arith)
step-Inside (pos a) (negsuc b) u l h o d = absurd o
step-Inside (negsuc a) (pos b) u l h o d = elim (Bool-cases (ltb u (2 ^ 63))) [
  | inl y ↦
      from_negative_small a u (pos b) l (ltb→lt u (2 ^ 63) y) (λ k. (omega arith, tt))
        (λ k. (tt, omega arith))
  | inr n ↦ from_negative_large a u b l h (ground arith) d
]
step-Inside (negsuc a) (negsuc b) u l h o d =
    from_negative_small a u (negsuc b) l (omega arith) (λ k. (omega arith, omega arith))
      (λ k. absurd (omega arith))

lez-AtMost : (lo hi : ℤ) → lez lo hi ≡ true → AtMost lo hi
lez-AtMost (pos a) (pos b) h = ground arith
lez-AtMost (pos a) (negsuc b) h = cc
lez-AtMost (negsuc a) (pos b) h = tt
lez-AtMost (negsuc a) (negsuc b) h = ground arith

-- Bounds that a draw has kept, and the random bytes it has taken.
abbrev pub Drawn : ℤ → ℤ → List ℕ → ℤ × List ℕ → Type 0
Drawn lo hi source (v, rest) = AtMost lo v × AtMost v hi × (length rest < length source)

from_span :
    (lo hi : ℤ) (span : ℕ) (source : List ℕ) (r : ℤ × List ℕ)
    → IsI64 lo
    → IsI64 hi
    → AtMost lo hi
    → span ≤ distance lo hi + 1
    → (u64_below span >>= λ x. return (wrap_i64 (lo +ℤ as_i64 x))) source ≡ ok r
    → Drawn lo hi source r
from_span lo hi span source r l h o s e = elim (Result-cases (u64_below span source)) [
  | inl ((x, rest), q) ↦
      let (small, taken) = u64_below-lt span source x rest q in
      let (low, high) = step-Inside lo hi x l h o (omega arith) in
      let i = ok_inj (wrap_i64 (lo +ℤ as_i64 x), rest) r (rw q at e) in
      subst (Drawn lo hi source) i (low, high, taken)
  | inr (stop, q) ↦ absurd (not_ok stop r (rw q at e))
]
  where
    not_ok :
        (stop : Stop) (a : ℤ × List ℕ) → ◌≡◌ {A = Result Stop (ℤ × List ℕ)} (err stop) (ok a) → ⊥
    not_ok stop a n = cc

-- `range_incl_i64` returns a number from `lo` to `hi` wherever it returns, on the whole of i64.
-- It takes random bytes for it.
pub range_incl_i64-Drawn :
    (lo hi : ℤ) (source : List ℕ) (r : ℤ × List ℕ)
    → IsI64 lo
    → IsI64 hi
    → range_incl_i64 lo hi source ≡ ok r
    → Drawn lo hi source r
unfolding range_incl_i64
range_incl_i64-Drawn lo hi source r l h e = elim (Bool-cases (lez lo hi)) [
  | inl y ↦
      from_span lo hi ((distance lo hi + 1) % 2 ^ 64) source r l h (lez-AtMost lo hi y)
        (mod-le (distance lo hi + 1) (2 ^ 64)) (rw (y, range_incl_i64) at e)
  | inr n ↦ absurd (not_ok (rw (n, range_incl_i64) at e))
]
  where
    not_ok : ◌≡◌ {A = Result Stop (ℤ × List ℕ)} (err panicked) (ok r) → ⊥
    not_ok q = cc

-- The number before.
abbrev pub prior : ℤ → ℤ
prior (pos zero) = negsuc 0
prior (pos (suc n)) = pos n
prior (negsuc n) = negsuc (suc n)

ltz-prior :
    (lo hi : ℤ)
    → ltz lo hi ≡ true
    → IsI64 lo
    → IsI64 hi
    → AtMost lo (prior hi) × IsI64 (prior hi) × (distance lo (prior hi) + 1 ≡ distance lo hi)
unfolding distance
ltz-prior (pos a) (pos zero) h i j = absurd (ground arith)
ltz-prior (pos a) (pos (suc b)) h i j =
    let l = ltb→lt a (suc b) h in (omega arith, omega arith, omega arith)
ltz-prior (pos a) (negsuc b) h i j = cc
ltz-prior (negsuc a) (pos zero) h i j = (omega arith, omega arith, omega arith)
ltz-prior (negsuc a) (pos (suc b)) h i j = (tt, omega arith, omega arith)
ltz-prior (negsuc a) (negsuc b) h i j =
    let l = ltb→lt b a h in (omega arith, omega arith, omega arith)

-- `range_excl_i64` returns a number from `lo` to the one before `hi` wherever it returns.
pub range_excl_i64-Drawn :
    (lo hi : ℤ) (source : List ℕ) (r : ℤ × List ℕ)
    → IsI64 lo
    → IsI64 hi
    → range_excl_i64 lo hi source ≡ ok r
    → Drawn lo (prior hi) source r
unfolding range_excl_i64
range_excl_i64-Drawn lo hi source r l h e = elim (Bool-cases (ltz lo hi)) [
  | inl y ↦
      let (o, i, d) = ltz-prior lo hi y l h in
      from_span lo (prior hi) (distance lo hi % 2 ^ 64) source r l i o
        (subst (λ k. distance lo hi % 2 ^ 64 ≤ k) (sym d) (mod-le (distance lo hi) (2 ^ 64)))
        (rw (y, range_excl_i64) at e)
  | inr n ↦ absurd (not_ok (rw (n, range_excl_i64) at e))
]
  where
    not_ok : ◌≡◌ {A = Result Stop (ℤ × List ℕ)} (err panicked) (ok r) → ⊥
    not_ok q = cc
