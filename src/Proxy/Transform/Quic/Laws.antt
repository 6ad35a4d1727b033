-- ===== src/Proxy/Transform/Quic/Laws.antt =====
-- The QUIC padding as a short header and bytes.
use awg_easy_rs.Prelude.{
  ℕ, zero, suc, ◌+◌, ◌*◌, ◌/◌, ◌%◌, ◌^◌, ◌<◌, ◌≡◌, refl, bit_and, List, [], ◌∷◌, All, IsByte, arith,
}
use awg_easy_rs.Prelude.Bits.{bit_and-one, bit_and_three}
use awg_easy_rs.Proxy.Transform.Random.{fnv1a_seed, lcg_step}
use awg_easy_rs.Proxy.Transform.Quic.{fill_random, short_header, quic_padding}

short_header-sum :
    (spin key pn : ℕ)
    → spin < 2
    → key < 2
    → pn < 4
    → short_header spin key pn ≡ 64 + spin * 32 + key * 4 + pn
unfolding short_header
short_header-sum zero zero zero h k l = refl
short_header-sum zero zero (suc zero) h k l = refl
short_header-sum zero zero (suc (suc zero)) h k l = refl
short_header-sum zero zero (suc (suc (suc zero))) h k l = refl
short_header-sum zero (suc zero) zero h k l = refl
short_header-sum zero (suc zero) (suc zero) h k l = refl
short_header-sum zero (suc zero) (suc (suc zero)) h k l = refl
short_header-sum zero (suc zero) (suc (suc (suc zero))) h k l = refl
short_header-sum (suc zero) zero zero h k l = refl
short_header-sum (suc zero) zero (suc zero) h k l = refl
short_header-sum (suc zero) zero (suc (suc zero)) h k l = refl
short_header-sum (suc zero) zero (suc (suc (suc zero))) h k l = refl
short_header-sum (suc zero) (suc zero) zero h k l = refl
short_header-sum (suc zero) (suc zero) (suc zero) h k l = refl
short_header-sum (suc zero) (suc zero) (suc (suc zero)) h k l = refl
short_header-sum (suc zero) (suc zero) (suc (suc (suc zero))) h k l = refl
short_header-sum a b (suc (suc (suc (suc c)))) h k l = absurd (omega arith)
short_header-sum a (suc (suc b)) c h k l = absurd (omega arith)
short_header-sum (suc (suc a)) b c h k l = absurd (omega arith)

-- Form bit clear, fixed bit set, both reserved bits clear.
pub record IsShortHeader (b : ℕ) : Type 0 where
  pub form_fixed : b / 64 ≡ 1
  pub reserved : b / 8 % 4 ≡ 0

bits-IsShortHeader :
    (a b c : ℕ)
    → a < 256
    → b < 256
    → c < 256
    → IsShortHeader (short_header (bit_and a 1) (bit_and b 1) (bit_and c 3))
bits-IsShortHeader a b c h k l =
    let s =
      short_header-sum (bit_and a 1) (bit_and b 1) (bit_and c 3) (omega (arith, bit_and-one a h))
        (omega (arith, bit_and-one b k)) (omega (arith, bit_and_three c l)) in
    rw s (omega (arith, bit_and-one a h, bit_and-one b k, bit_and_three c l))

fill_random-IsByte : (s : ℕ) (xs : List ℕ) → All IsByte (fill_random s xs)
unfolding fill_random
fill_random-IsByte s [] = tt
fill_random-IsByte s (x ∷ xs) = (omega arith, fill_random-IsByte (lcg_step s) xs)

-- A QUIC padding of at least one byte starts with a 1-RTT short header, and all of it are bytes.
pub quic_padding-IsShortHeader :
    (x : ℕ) (xs payload : List ℕ)
    → (first : ℕ) × (rest : List ℕ) × (quic_padding (x ∷ xs) payload ≡ first ∷ rest)
      × IsShortHeader first
      × All IsByte rest
unfolding quic_padding
quic_padding-IsShortHeader x xs payload = (
  _,
  _,
  refl,
  bits-IsShortHeader (fnv1a_seed payload / 2 ^ 8 % 256)
      (lcg_step (fnv1a_seed payload) / 2 ^ 8 % 256) (lcg_step (lcg_step (fnv1a_seed payload)) % 256)
      (omega arith) (omega arith) (omega arith),
  fill_random-IsByte _ xs,
)
