-- ===== src/Wg/Generate/Draws.antt =====
-- src/wg/params.rs: what the single draws of the generator return.
use awg_easy_rs.Prelude.{
  ℕ, zero, suc, ◌+◌, ◌*◌, ◌/◌, ◌%◌, ◌^◌, ◌≤◌, ◌<◌, ◌≡◌, refl, sym, ◌∙◌, List, [], ◌∷◌, ◌++◌, IsByte,
  Option, none, some, Bool, true, false, length, get_elem?, hex_digit, arith,
}
use mathlib.Core.Path.{subst}
use native.Mathlib.Nat.{mod-eq_of_lt}
use awg_easy_rs.Prelude.Ints.{ℤ, pos, negsuc, decimal_int}
use awg_easy_rs.Prelude.Numerals.{digit_value}
use awg_easy_rs.Prelude.Results.{ok, err}
use awg_easy_rs.Prelude.Strings.Laws.{some_inj}
use awg_easy_rs.Rng.{Draw, ◌>>=◌, return, panicked, exhausted, byte, range_incl_i64}
use awg_easy_rs.Rng.Ranges.{AtMost}
use awg_easy_rs.Rng.Yields.{
  Yields, Yields-bind, Yields-return, Yields-stop, Yields-byte, Yields-range_incl_i64,
}
use awg_easy_rs.Proxy.Supervisor.{printed_range}
use awg_easy_rs.Wg.InitSpec.{all_hex}
use awg_easy_rs.Wg.Generate.{
  as_i32, gen_incl, retry, repeat, gen_pair, index, window, hex2, random_hex,
}

-- A natural number between the two.
abbrev pub Between : ℕ → ℕ → ℤ → Type 0
Between lo hi (pos n) = (lo ≤ n) × (n ≤ hi)
Between lo hi (negsuc n) = ⊥

pub AtMost-Between : (lo hi : ℕ) (v : ℤ) → AtMost (pos lo) v × AtMost v (pos hi) → Between lo hi v
AtMost-Between lo hi (pos n) h = h
AtMost-Between lo hi (negsuc n) h = h.0

as_i32_small : (n : ℕ) → n < 2 ^ 31 → as_i32 (pos n) ≡ pos n
unfolding as_i32
as_i32_small n h = rw (mod-eq_of_lt {n = n} {m = 2 ^ 32} (omega arith)) (ground arith)

as_i32-Between : (lo hi : ℕ) (v : ℤ) → hi < 2 ^ 31 → Between lo hi v → Between lo hi (as_i32 v)
as_i32-Between lo hi (pos n) h b =
    subst (Between lo hi) (sym (as_i32_small n (omega (arith, b.1)))) b
as_i32-Between lo hi (negsuc n) h b = absurd b

pub Yields-gen_incl :
    (lo hi : ℕ) → lo < 2 ^ 31 → hi < 2 ^ 31 → Yields (Between lo hi) (gen_incl (pos lo) (pos hi))
unfolding gen_incl
Yields-gen_incl lo hi l h =
    Yields-bind (λ v. AtMost (pos lo) v × AtMost v (pos hi)) (Between lo hi)
      (range_incl_i64 (pos lo) (pos hi)) (λ v. return (as_i32 v))
      (Yields-range_incl_i64 (pos lo) (pos hi) (omega arith) (omega arith))
      (λ v b.
        Yields-return (Between lo hi) (as_i32 v)
          (as_i32-Between lo hi v h (AtMost-Between lo hi v b)))

-- A test that ends the loop or goes on with it.
Yields-test :
    {A : Type 0} (P : A → Type 0) (good : A → Bool) (a : A) (again : Draw A) (t : Bool)
    → P a
    → good a ≡ t
    → Yields (λ b. P b × (good b ≡ true)) again
    → Yields (λ b. P b × (good b ≡ true)) (elim t [ true ↦ return a | false ↦ again ])
Yields-test P good a again true p e h = Yields-return (λ b. P b × (good b ≡ true)) a (p, e)
Yields-test P good a again false p e h = h

module _ {A : Type 0} (P : A → Type 0) (draw : Draw A) (good : A → Bool) (h : Yields P draw) where
  -- What leaves the loop has passed the test.
  Yields-retry : (fuel : ℕ) → Yields (λ a. P a × (good a ≡ true)) (retry fuel draw good)
  unfolding retry
  Yields-retry zero = Yields-stop (λ a. P a × (good a ≡ true)) exhausted
  Yields-retry (suc fuel) =
      Yields-bind P (λ a. P a × (good a ≡ true)) draw
        (λ a. elim (good a) [ true ↦ return a | false ↦ retry fuel draw good ]) h
        (λ a p. Yields-test P good a (retry fuel draw good) (good a) p refl (Yields-retry fuel))

  pub Yields-repeat : Yields (λ a. P a × (good a ≡ true)) (repeat draw good)
  unfolding repeat
  Yields-repeat source = Yields-retry (suc (length source)) source

pub Yields-pair : Yields (λ (a, b). Between 15 150 a × Between 15 150 b) gen_pair
unfolding gen_pair
Yields-pair =
    Yields-bind (Between 15 150) (λ (a, b). Between 15 150 a × Between 15 150 b)
      (gen_incl (pos 15) (pos 150)) (λ a. gen_incl (pos 15) (pos 150) >>= λ b. return (a, b))
      (Yields-gen_incl 15 150 (omega arith) (omega arith))
      (λ a p.
        Yields-bind (Between 15 150) (λ (a, b). Between 15 150 a × Between 15 150 b)
          (gen_incl (pos 15) (pos 150)) (λ b. return (a, b))
          (Yields-gen_incl 15 150 (omega arith) (omega arith))
          (λ b q. Yields-return (λ (a, b). Between 15 150 a × Between 15 150 b) (a, b) (p, q)))

Yields-found :
    (o : Option ℤ) (v : ℤ)
    → o ≡ some v
    → Yields (λ w. w ≡ v) (λ source. elim o [ some w ↦ ok (w, source) | none ↦ err panicked ])
Yields-found none v e = cc
Yields-found (some w) v e = Yields-return (λ x. x ≡ v) w (some_inj w v e)

pub Yields-index :
    (splits : List ℤ) (i : ℕ) (v : ℤ)
    → get_elem? splits i ≡ some v
    → Yields (λ w. w ≡ v) (index splits i)
unfolding index
Yields-index splits i v e = Yields-found (get_elem? splits i) v e

pub Yields-window :
    (splits : List ℤ) (i lo hi : ℕ)
    → get_elem? splits (i * 2) ≡ some (pos lo)
    → get_elem? splits (i * 2 + 1) ≡ some (pos hi)
    → Yields (λ t. t ≡ printed_range lo hi) (window splits i)
unfolding window decimal_int
Yields-window splits i lo hi e f =
    Yields-bind (λ w. w ≡ pos lo) (λ t. t ≡ printed_range lo hi) (index splits (i * 2))
      (λ l. index splits (i * 2 + 1) >>= λ h. return (decimal_int l ++ (0x2D ∷ decimal_int h)))
      (Yields-index splits (i * 2) (pos lo) e)
      (λ l p.
        Yields-bind (λ w. w ≡ pos hi) (λ t. t ≡ printed_range lo hi) (index splits (i * 2 + 1))
          (λ h. return (decimal_int l ++ (0x2D ∷ decimal_int h)))
          (Yields-index splits (i * 2 + 1) (pos hi) f)
          (λ h q.
            Yields-return (λ t. t ≡ printed_range lo hi) (decimal_int l ++ (0x2D ∷ decimal_int h))
              (rw (p, q) refl)))

-- Two digits for each byte.
abbrev pub IsHex : ℕ → List ℕ → Type 0
IsHex n hex = (length hex ≡ 2 * n) × (all_hex hex ≡ true)

hex_digit-value : (d : ℕ) → d < 16 → digit_value (hex_digit d) ≡ some d
unfolding digit_value hex_digit
hex_digit-value d h = ground arith

all_hex_step : (b d : ℕ) (hex : List ℕ) → digit_value b ≡ some d → all_hex (b ∷ hex) ≡ all_hex hex
unfolding all_hex
all_hex_step b d hex e = rw (e, all_hex) refl

all_hex-hex2 : (b : ℕ) (hex : List ℕ) → IsByte b → all_hex (hex2 b ++ hex) ≡ all_hex hex
unfolding hex2
all_hex-hex2 b hex h =
    all_hex_step (hex_digit (b / 16)) (b / 16) (hex_digit (b % 16) ∷ hex)
      (hex_digit-value (b / 16) (omega arith))
    ∙ all_hex_step (hex_digit (b % 16)) (b % 16) hex (hex_digit-value (b % 16) (omega arith))

pub Yields-random_hex : (n : ℕ) → Yields (IsHex n) (random_hex n)
unfolding random_hex hex2 all_hex
Yields-random_hex zero = Yields-return (IsHex 0) [] (refl, refl)
Yields-random_hex (suc n) =
    Yields-bind IsByte (IsHex (suc n)) byte (λ b. random_hex n >>= λ rest. return (hex2 b ++ rest))
      Yields-byte
      (λ b p.
        Yields-bind (IsHex n) (IsHex (suc n)) (random_hex n) (λ rest. return (hex2 b ++ rest))
          (Yields-random_hex n)
          (λ rest (l, d).
            Yields-return (IsHex (suc n)) (hex2 b ++ rest)
              (omega (arith, l), all_hex-hex2 b rest p ∙ d)))
