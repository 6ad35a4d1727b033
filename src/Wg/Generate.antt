-- ===== src/Wg/Generate.antt =====
-- src/wg/params.rs: the generator of the parameters.
pub mod Draws
pub mod Headers
pub mod Shape
pub mod Laws
pub mod Valid
pub mod Init
use awg_easy_rs.Prelude.{
  ℕ, zero, suc, ◌+◌, ◌-◌, ◌*◌, ◌/◌, ◌%◌, ◌^◌, List, [], ◌∷◌, ◌++◌, Option, none, some, Bool, true,
  false, ◌&&◌, not, if◌then◌else◌, ltb, length, get_elem?, codes, hex_digit,
}
use awg_easy_rs.Prelude.Ints.{ℤ, pos, negsuc, lez, eqz, ◌+ℤ◌, decimal_int}
use awg_easy_rs.Prelude.Results.{ok, err}
use awg_easy_rs.Rng.{
  Draw, panicked, exhausted, stop, ◌>>=◌, return, byte, range_incl_i64, range_excl_i64,
}
use awg_easy_rs.Wg.Params.{AwgParams}
use awg_easy_rs.Wg.Splits.{draw_splits}

-- The cast of an i64 to i32.
unfoldable pub as_i32 : ℤ → ℤ
as_i32 (pos n) = let m = n % 2 ^ 32 in if ltb m (2 ^ 31) then pos m else negsuc (2 ^ 32 - 1 - m)
as_i32 (negsuc n) = let m = n % 2 ^ 32 in if ltb m (2 ^ 31) then negsuc m else pos (2 ^ 32 - 1 - m)

unfoldable pub gen_incl : ℤ → ℤ → Draw ℤ
gen_incl lo hi = do v ← range_incl_i64 lo hi; return (as_i32 v)

-- `loop` with a `break` at the first value that passes. Each round takes random bytes, so their
-- number is fuel enough.
module _ {ℓ} {A : Type ℓ} where
  unfoldable pub retry : ℕ → Draw A → (A → Bool) → Draw A
  retry zero draw good = stop exhausted
  retry (suc fuel) draw good =
      draw >>= λ a. elim (good a) [ true ↦ return a | false ↦ retry fuel draw good ]

  unfoldable pub repeat : Draw A → (A → Bool) → Draw A
  repeat draw good source = retry (suc (length source)) draw good source

unfoldable pub max_int : ℤ → ℤ → ℤ
max_int a b = if lez a b then b else a

unfoldable pub gen_pair : Draw (ℤ × ℤ)
gen_pair = do a ← gen_incl (pos 15) (pos 150); b ← gen_incl (pos 15) (pos 150); return (a, b)

unfoldable pub is_apart : ℤ × ℤ → Bool
is_apart (a, b) = not (eqz (a +ℤ pos 56) b) && not (eqz (b +ℤ pos 56) a)

-- An index out of range panics.
unfoldable pub index : List ℤ → ℕ → Draw ℤ
index splits i source = elim (get_elem? splits i) [ some v ↦ ok (v, source) | none ↦ err panicked ]

unfoldable pub window : List ℤ → ℕ → Draw (List ℕ)
window splits i = do
  lo ← index splits (i * 2)
  hi ← index splits (i * 2 + 1)
  return (decimal_int lo ++ (0x2D ∷ decimal_int hi))

-- `{:02x}` of random bytes.
unfoldable pub hex2 : ℕ → List ℕ
hex2 b = hex_digit (b / 16) ∷ hex_digit (b % 16) ∷ []

unfoldable pub random_hex : ℕ → Draw (List ℕ)
random_hex zero = return []
random_hex (suc n) = do b ← byte; rest ← random_hex n; return (hex2 b ++ rest)

abbrev pub i1_text : List ℕ → List ℕ
i1_text hex = codes "<r 2><b 0x" ++ (hex ++ codes ">")

abbrev pub h_min : ℤ
h_min = pos 5

abbrev pub h_max : ℤ
h_max = pos 2147483647

unfoldable pub generate_awg_params : Draw AwgParams
generate_awg_params = do
  jc ← gen_incl (pos 4) (pos 12)
  jmin ← gen_incl (pos 8) (pos 80)
  jmax ← gen_incl (max_int (jmin +ℤ pos 1) (pos 1)) (pos 1279)
  s1 ← gen_incl (pos 15) (pos 150)
  s2 ← repeat (gen_incl (pos 15) (pos 150)) (λ candidate. not (eqz candidate (s1 +ℤ pos 56)))
  (s3, s4) ← repeat gen_pair is_apart
  splits ← draw_splits (range_excl_i64 h_min h_max)
  h1 ← window splits 0
  h2 ← window splits 1
  h3 ← window splits 2
  h4 ← window splits 3
  hex ← random_hex 48
  return (record {
    jc = jc;
    jmin = jmin;
    jmax = jmax;
    s1 = s1;
    s2 = s2;
    s3 = some s3;
    s4 = some s4;
    h1 = h1;
    h2 = h2;
    h3 = h3;
    h4 = h4;
    i1 = some (i1_text hex);
    i2 = none;
    i3 = none;
    i4 = none;
    i5 = none;
  })
