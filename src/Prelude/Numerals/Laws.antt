-- ===== src/Prelude/Numerals/Laws.antt =====
-- `decimal` against the reader of numbers.
use Prim.Native.Nat.{ℕ, zero, suc, ◌+◌, ◌*◌, ◌/◌, ◌%◌, ◌≤◌, ◌<◌}
use mathlib.Core.Path.{◌≡◌, refl}
use mathlib.Core.Logic.{◌≢◌, inl, inr}
use mathlib.Core.List.{List, [], ◌∷◌, ◌++◌}
use mathlib.Core.Option.{some}
use native.Mathlib.Omega.{arith}
use awg_easy_rs.Prelude.Tests.{==_iff, Option-cases, ltb→lt, ltb, ◌==◌, Bool-cases}
use awg_easy_rs.Prelude.Lists.{All}
use awg_easy_rs.Prelude.Options.{◌>>=◌}
use awg_easy_rs.Prelude.Text.{decimal, decimal_loop}
use awg_easy_rs.Prelude.Numerals.{digit_value, to_digit, digits_from, digits, from_str_radix}

abbrev pub IsDigit : ℕ → Type 0
IsDigit b = (0x30 ≤ b) × (b ≤ 0x39)

pub to_digit_lem : (d : ℕ) → d < 10 → to_digit 10 (0x30 + d) ≡ some d
unfolding to_digit digit_value
to_digit_lem d h = ground arith

-- Reading goes on behind what has been read.
pub digits_from-append :
    (base bound acc : ℕ) (xs ys : List ℕ)
    → digits_from base bound acc (xs ++ ys)
      ≡ (digits_from base bound acc xs >>= λ a. digits_from base bound a ys)
unfolding digits_from
digits_from-append base bound acc [] ys = refl
digits_from-append base bound acc (x ∷ xs) ys = elim (Option-cases (to_digit base x)) [
  | inl n ↦ rw n
  | inr (d, e) ↦ rw e (elim (Bool-cases (ltb (acc * base + d) bound)) [
    | inl y ↦ rw y (digits_from-append base bound (acc * base + d) xs ys)
    | inr n ↦ rw n refl
  ])
]

pub digits_from-lt :
    (base bound acc n : ℕ) (xs : List ℕ)
    → acc < bound
    → digits_from base bound acc xs ≡ some n
    → n < bound
unfolding digits_from
digits_from-lt base bound acc n [] h e = grind arith
digits_from-lt base bound acc n (x ∷ xs) h e = elim (Option-cases (to_digit base x)) [
  | inl none_read ↦ ground arith
  | inr (d, r) ↦ ground (arith, digits_from-lt base bound (acc * base + d) n xs)
]

-- What is read fits its type.
pub from_str_radix-lt :
    (base bound n : ℕ) (xs : List ℕ) → 0 < bound → from_str_radix base bound xs ≡ some n → n < bound
unfolding from_str_radix digits
from_str_radix-lt base bound n [] h e = cc
from_str_radix-lt base bound n (x ∷ []) h e = elim (Bool-cases (x == 0x2B)) [
  | inl plus ↦ absurd (ground arith)
  | inr other ↦ digits_from-lt base bound 0 n (x ∷ []) h (rw (other, from_str_radix) at e)
]
from_str_radix-lt base bound n (x ∷ y ∷ ys) h e = elim (Bool-cases (x == 0x2B)) [
  | inl plus ↦ digits_from-lt base bound 0 n (y ∷ ys) h (rw (plus, from_str_radix) at e)
  | inr other ↦ digits_from-lt base bound 0 n (x ∷ y ∷ ys) h (rw (other, from_str_radix) at e)
]

pub All-append {ℓ κ} :
    {A : Type ℓ} (P : A → Type κ) (xs ys : List A) → All P xs → All P ys → All P (xs ++ ys)
All-append P [] ys p q = q
All-append P (x ∷ xs) ys p q = (p.0, All-append P xs ys p.1 q)

pub decimal_loop_digits : (f n : ℕ) → All IsDigit (decimal_loop f n)
unfolding decimal_loop
decimal_loop_digits zero n = tt
decimal_loop_digits (suc f) n = elim (Bool-cases (ltb n 10)) [
  | inl y ↦ rw y ((omega arith, let h = ltb→lt n 10 y in omega arith), tt)
  | inr big ↦ rw big (
      All-append IsDigit (decimal_loop f (n / 10)) ((0x30 + n % 10) ∷ [])
        (decimal_loop_digits f (n / 10)) ((omega arith, omega arith), tt))
]

pub digits-decimal_loop :
    (f n bound : ℕ) → n < f → n < bound → digits_from 10 bound 0 (decimal_loop f n) ≡ some n
unfolding decimal_loop digits_from
digits-decimal_loop zero n bound h k = absurd (omega arith)
digits-decimal_loop (suc f) n bound h k = elim (Bool-cases (ltb n 10)) [
  | inl y ↦ rw (y, to_digit_lem n (ltb→lt n 10 y)) (ground arith)
  | inr big ↦
      let l : ¬ (n < 10) = ground arith in
      rw
        (
          big,
          digits_from-append 10 bound 0 (decimal_loop f (n / 10)) ((0x30 + n % 10) ∷ []),
          digits-decimal_loop f (n / 10) bound (omega arith) (omega arith),
          to_digit_lem (n % 10) (omega arith),
        )
        (ground arith)
]

-- The printed digits are not empty and have no sign.
pub from_str_radix_digit :
    (base bound n : ℕ) (xs : List ℕ)
    → All IsDigit xs
    → xs ≢ []
    → digits_from base bound 0 xs ≡ some n
    → from_str_radix base bound xs ≡ some n
unfolding from_str_radix digits
from_str_radix_digit base bound n [] d h e = absurd (h refl)
from_str_radix_digit base bound n (x ∷ xs) d h e = elim (Bool-cases (x == 0x2B)) [
  | inl plus ↦ let l = (==_iff x 0x2B).0 plus in absurd (let k = d.0.0 in omega arith)
  | inr other ↦ rw (other, from_str_radix) e
]

pub decimal_digits : (n : ℕ) → All IsDigit (decimal n)
unfolding decimal
decimal_digits n = decimal_loop_digits (suc n) n

snoc_nonempty {ℓ} : {A : Type ℓ} (xs : List A) (y : A) → xs ++ (y ∷ []) ≢ []
snoc_nonempty [] y h = cc
snoc_nonempty (x ∷ xs) y h = cc

decimal_loop_nonempty : (f n : ℕ) → decimal_loop (suc f) n ≢ []
unfolding decimal_loop
decimal_loop_nonempty f n = elim (Bool-cases (ltb n 10)) [
  | inl small ↦ rw small (λ h. cc)
  | inr big ↦ rw big (snoc_nonempty (decimal_loop f (n / 10)) (0x30 + n % 10))
]

pub decimal_nonempty : (n : ℕ) → decimal n ≢ []
unfolding decimal
decimal_nonempty n = decimal_loop_nonempty n n

-- A number that the type holds is read back.
pub parse_decimal : (bound n : ℕ) → n < bound → from_str_radix 10 bound (decimal n) ≡ some n
unfolding decimal
parse_decimal bound n h =
    from_str_radix_digit 10 bound n (decimal n) (decimal_digits n) (decimal_nonempty n)
      (digits-decimal_loop (suc n) n bound (omega arith) h)
