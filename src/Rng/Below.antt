-- ===== src/Rng/Below.antt =====
-- src/rng.rs: the bounds and the end of the loop of `u64_below`.
use awg_easy_rs.Prelude.{
  ℕ, zero, suc, ◌-◌, ◌*◌, ◌/◌, ◌%◌, ◌^◌, ◌≤◌, ◌<◌, ◌≡◌, ap, inl, inr, List, [], ◌∷◌, ◌++◌, All,
  length, Bool-cases, ltb, arith,
}
use mathlib.Core.Path.{subst}
use native.Mathlib.Nat.{mod-lt, mod-le}
use awg_easy_rs.Prelude.Results.{Result, ok, ok_inj}
use awg_easy_rs.Rng.{Stop, u64_from_le_bytes, below_loop, reject_below, u64_below}

-- Fewer than half of the words are rejected.
pub reject_below_half : (b : ℕ) → 0 < b → b ≤ 2 ^ 64 → 2 * reject_below b < 2 ^ 64
unfolding reject_below
reject_below_half b p h = omega (arith, mod-lt (2 ^ 64 - b) p, mod-le (2 ^ 64 - b) b)

-- `u64::to_le_bytes`
abbrev pub u64_to_le_bytes : ℕ → List ℕ
u64_to_le_bytes x =
    (x % 256)
    ∷ (x / 2 ^ 8 % 256)
    ∷ (x / 2 ^ 16 % 256)
    ∷ (x / 2 ^ 24 % 256)
    ∷ (x / 2 ^ 32 % 256)
    ∷ (x / 2 ^ 40 % 256)
    ∷ (x / 2 ^ 48 % 256)
    ∷ (x / 2 ^ 56 % 256)
    ∷ []

-- The random bytes that give these words, and then the rest.
abbrev pub source_of : List ℕ → List ℕ → List ℕ
source_of [] rest = rest
source_of (w ∷ ws) rest = u64_to_le_bytes w ++ source_of ws rest

u64_le_round_trip :
    (x : ℕ)
    → x < 2 ^ 64
    → u64_from_le_bytes
        (x % 256)
        (x / 2 ^ 8 % 256)
        (x / 2 ^ 16 % 256)
        (x / 2 ^ 24 % 256)
        (x / 2 ^ 32 % 256)
        (x / 2 ^ 40 % 256)
        (x / 2 ^ 48 % 256)
        (x / 2 ^ 56 % 256)
      ≡ x
unfolding u64_from_le_bytes
u64_le_round_trip x h = omega arith

below_loop-source_of :
    (bound reject : ℕ) (ws : List ℕ) (x : ℕ) (rest : List ℕ)
    → All (λ w. w < reject) ws
    → reject ≤ 2 ^ 64
    → reject ≤ x
    → x < 2 ^ 64
    → below_loop bound reject (source_of ws (u64_to_le_bytes x ++ rest)) ≡ ok (x % bound, rest)
unfolding below_loop
below_loop-source_of bound reject [] x rest r k a h = rw (u64_le_round_trip x h) (ground arith)
below_loop-source_of bound reject (w ∷ ws) x rest (r, rs) k a h =
    rw (u64_le_round_trip w (omega arith))
      (ground (arith, below_loop-source_of bound reject ws x rest rs k a h))

-- The loop ends at the first word that is not rejected, whatever words were rejected before it,
-- and returns that word's remainder.
pub u64_below_ends :
    (bound : ℕ) (ws : List ℕ) (x : ℕ) (rest : List ℕ)
    → 0 < bound
    → bound ≤ 2 ^ 64
    → All (λ w. w < reject_below bound) ws
    → reject_below bound ≤ x
    → x < 2 ^ 64
    → u64_below bound (source_of ws (u64_to_le_bytes x ++ rest)) ≡ ok (x % bound, rest)
unfolding u64_below
u64_below_ends zero ws x rest p q r a h = absurd (omega arith)
u64_below_ends (suc b) ws x rest p q r a h =
    below_loop-source_of (suc b) (reject_below (suc b)) ws x rest r
      (omega (arith, reject_below_half (suc b) p q)) a h

below_loop-lt :
    (bound reject : ℕ) (source : List ℕ) (n : ℕ) (rest : List ℕ)
    → 0 < bound
    → below_loop bound reject source ≡ ok (n, rest)
    → (n < bound) × (length rest < length source)
unfolding below_loop
below_loop-lt bound reject (a ∷ b ∷ c ∷ d ∷ e ∷ f ∷ g ∷ h ∷ source) n rest p q =
    let x = u64_from_le_bytes a b c d e f g h in
    elim (Bool-cases (ltb x reject)) [
      | inl y ↦
          let (l, m) = below_loop-lt bound reject source n rest p (rw (y, below_loop) at q) in
          (l, omega (arith, m))
      | inr z ↦ taken x (rw (z, below_loop) at q)
    ]
  where
    taken :
        (x : ℕ)
        → ◌≡◌ {A = Result Stop (ℕ × List ℕ)} (ok (x % bound, source)) (ok (n, rest))
        → (n < bound) × (length rest < length (a ∷ b ∷ c ∷ d ∷ e ∷ f ∷ g ∷ h ∷ source))
    taken x w =
        let i = ok_inj (x % bound, source) (n, rest) w in
        (
          subst (λ k. k < bound) (ap (λ t. t.0) i) (mod-lt x p),
          subst (λ k. length k < length (a ∷ b ∷ c ∷ d ∷ e ∷ f ∷ g ∷ h ∷ source)) (ap (λ t. t.1) i)
              (omega arith),
        )
below_loop-lt bound reject _ n rest p q = cc

-- What `u64_below` returns is below the bound, and it has taken random bytes for it.
pub u64_below-lt :
    (bound : ℕ) (source : List ℕ) (n : ℕ) (rest : List ℕ)
    → u64_below bound source ≡ ok (n, rest)
    → (n < bound) × (length rest < length source)
unfolding u64_below
u64_below-lt zero source n rest q = cc
u64_below-lt (suc b) source n rest q =
    below_loop-lt (suc b) (reject_below (suc b)) source n rest (omega arith) q
