-- ===== src/Rng/Uniform.antt =====
-- src/rng.rs: every number below the bound comes from equally many of the accepted words.
use awg_easy_rs.Prelude.{
  ℕ, zero, suc, ◌+◌, ◌-◌, ◌*◌, ◌/◌, ◌%◌, ◌^◌, ◌≤◌, ◌<◌, ◌≡◌, ap, ◌∙◌, Bool, sym, ltb, ◌==◌,
  if◌then◌else◌, arith,
}
use mathlib.Core.Path.{subst}
use native.Mathlib.Nat.{mod-lt, mul-add-mod_self_right, mod-eq_of_lt, mod-eq-sub-mod, div-add-mod'}
use awg_easy_rs.Rng.{reject_below}

-- How many of the n words from `start` give the remainder r.
unfoldable pub count : ℕ → ℕ → ℕ → ℕ → ℕ
count bound r start zero = 0
count bound r start (suc n) =
    let others = count bound r start n in if ((start + n) % bound) == r then suc others else others

-- Below q * bound + m there are q words with that remainder, and one more if r is below m.
abbrev share : ℕ → ℕ → ℕ → ℕ
share q r m = if ltb r m then suc q else q

succ_mul : (q b : ℕ) → suc q * b + 0 ≡ q * b + b
succ_mul q b = omega arith

succ_add : (k m : ℕ) → k + suc m ≡ suc (k + m)
succ_add k m = omega arith

no_block : (b : ℕ) → 0 * b + 0 ≡ 0
no_block b = omega arith

last_word : (b q m : ℕ) → m < b → (0 + (q * b + m)) % b ≡ m
last_word b q m h =
    ap (λ t. t % b) (zero_add (q * b + m)) ∙ mul-add-mod_self_right q b m ∙ mod-eq_of_lt h
  where
    zero_add : (k : ℕ) → 0 + k ≡ k
    zero_add k = omega arith

count-share :
    (bound r q m : ℕ) → r < bound → m ≤ bound → count bound r 0 (q * bound + m) ≡ share q r m
unfolding count
count-share bound r zero zero h k = ap (count bound r 0) (no_block bound) ∙ ground arith
count-share bound r (suc q) zero h k =
    ap (count bound r 0) (succ_mul q bound)
    ∙ count-share bound r q bound h (omega arith)
    ∙ ground arith
count-share bound r q (suc m) h k =
    ap (count bound r 0) (succ_add (q * bound) m)
    ∙ rw (last_word bound q m (omega arith), count-share bound r q m h (omega arith)) (ground arith)

count-split : (bound r s n : ℕ) → count bound r s n + count bound r 0 s ≡ count bound r 0 (s + n)
unfolding count
count-split bound r s zero = zero_add (count bound r 0 s) ∙ ap (count bound r 0) (add_zero s)
  where
    zero_add : (k : ℕ) → 0 + k ≡ k
    zero_add k = omega arith

    add_zero : (k : ℕ) → k ≡ k + 0
    add_zero k = omega arith
count-split bound r s (suc n) =
    let first = count-split bound r s n in
    one_more ((s + n) % bound == r) (count bound r s n) (count bound r 0 s)
      (count bound r 0 (s + n)) first
    ∙ ap (λ t. if (t % bound) == r then suc (count bound r 0 (s + n)) else count bound r 0 (s + n))
        (zero_add (s + n))
    ∙ ap (count bound r 0) (add_suc s n)
  where
    one_more :
        (t : Bool) (a b c : ℕ) → a + b ≡ c → (if t then suc a else a) + b ≡ (if t then suc c else c)
    one_more t a b c h = ground arith

    zero_add : (k : ℕ) → k ≡ 0 + k
    zero_add k = omega arith

    add_suc : (k n : ℕ) → suc (k + n) ≡ k + suc n
    add_suc k n = omega arith

-- The rejected words are as many as the remainder of the number of all words.
reject_below-mod : (b : ℕ) → b ≤ 2 ^ 64 → reject_below b ≡ 2 ^ 64 % b
unfolding reject_below
reject_below-mod b h = sym (mod-eq-sub-mod h)

no_quotient : (b m : ℕ) → m ≡ 0 * b + m
no_quotient b m = omega arith

weaken : {a b : ℕ} → a < b → a ≤ b
weaken h = omega arith

below_all : (a b : ℕ) → a < b → b ≤ 2 ^ 64 → a ≤ 2 ^ 64
below_all a b h k = omega arith

whole : (a : ℕ) → a ≤ 2 ^ 64 → a + (2 ^ 64 - a) ≡ 2 ^ 64
whole a h = omega arith

difference : (t : Bool) (a q : ℕ) → a + (if t then 1 else 0) ≡ (if t then suc q else q) → a ≡ q
difference t a q h = ground arith

-- Each number below the bound is the remainder of equally many of the words that are not
-- rejected: the draw is unbiased.
pub u64_below-uniform :
    (bound r : ℕ)
    → 0 < bound
    → bound ≤ 2 ^ 64
    → r < bound
    → count bound r (reject_below bound) (2 ^ 64 - reject_below bound) ≡ 2 ^ 64 / bound
u64_below-uniform bound r p k h =
    let least = reject_below bound in
    let remains = reject_below-mod bound k in
    let fits : least < bound = subst (λ t. t < bound) (sym remains) (mod-lt (2 ^ 64) p) in
    let before =
      ap (count bound r 0) (no_quotient bound least)
      ∙ count-share bound r 0 least h (weaken fits) in
    let all =
      ap (count bound r 0)
        (ap (λ t. 2 ^ 64 / bound * bound + t) remains ∙ div-add-mod' (2 ^ 64) bound) in
    let total = sym all ∙ count-share bound r (2 ^ 64 / bound) least h (weaken fits) in
    let split =
      count-split bound r least (2 ^ 64 - least)
      ∙ ap (count bound r 0) (whole least (below_all least bound fits k)) in
    difference (ltb r least) (count bound r least (2 ^ 64 - least)) (2 ^ 64 / bound)
      (ap (λ t. count bound r least (2 ^ 64 - least) + t) (sym before) ∙ split ∙ total)
