-- ===== src/Rng/Yields.antt =====
-- src/rng.rs: what a computation that draws random bytes returns, wherever it returns.
use awg_easy_rs.Prelude.{
  ℕ, zero, suc, ◌+◌, ◌%◌, ◌^◌, ◌≡◌, ap, inl, inr, List, [], ◌∷◌, All, IsByte, Bool, Bool-cases,
  true, false, ltb,
}
use mathlib.Core.Path.{subst}
use awg_easy_rs.Prelude.Ints.{ℤ, ltz, lez, ◌+ℤ◌}
use awg_easy_rs.Prelude.Results.{Result, ok, ok_inj, bind_ok, err-ok}
use awg_easy_rs.Rng.{
  Stop, panicked, exhausted, Draw, ◌>>=◌, return, stop, assert, byte, u64_from_le_bytes, below_loop,
  reject_below, u64_below, distance, as_i64, wrap_i64, range_incl_i64, range_excl_i64,
}
use awg_easy_rs.Rng.Ranges.{AtMost, IsI64, prior, range_incl_i64-Drawn, range_excl_i64-Drawn}

-- From random bytes, a result with the property, and random bytes that are left.
abbrev pub Yields {ℓ} : {A : Type ℓ} → (A → Type 0) → Draw A → Type ℓ
Yields {A = A} P m =
    (source : List ℕ) (a : A) (rest : List ℕ)
    → All IsByte source
    → m source ≡ ok (a, rest)
    → P a × All IsByte rest

pub Yields-bind {ℓ κ} :
    {A : Type ℓ} {B : Type κ} (P : A → Type 0) (Q : B → Type 0) (m : Draw A) (f : A → Draw B)
    → Yields P m
    → ((a : A) → P a → Yields Q (f a))
    → Yields Q (m >>= f)
Yields-bind P Q m f h k source b rest bytes e =
    let ((a, rest'), first, second) = bind_ok (m source) (λ (a, rest). f a rest) (b, rest) e in
    let (p, bytes') = h source a rest' bytes first in k a p rest' b rest bytes' second

pub Yields-return {ℓ} : {A : Type ℓ} (P : A → Type 0) (a : A) → P a → Yields P (return a)
Yields-return P a p source b rest bytes e =
    let q = ok_inj (a, source) (b, rest) e in
    (subst P (ap (λ t. t.0) q) p, subst (All IsByte) (ap (λ t. t.1) q) bytes)

pub Yields-stop {ℓ} : {A : Type ℓ} (P : A → Type 0) (s : Stop) → Yields P (stop s)
Yields-stop P s source b rest bytes e = absurd (err-ok s (b, rest) e)

pub Yields-byte : Yields IsByte byte
unfolding byte
Yields-byte [] b rest bytes e = absurd (err-ok exhausted (b, rest) e)
Yields-byte (x ∷ source) b rest (h, hs) e =
    let q = ok_inj (x, source) (b, rest) e in
    (subst IsByte (ap (λ t. t.0) q) h, subst (All IsByte) (ap (λ t. t.1) q) hs)

below_loop-bytes :
    (bound reject : ℕ) (source : List ℕ) (n : ℕ) (rest : List ℕ)
    → All IsByte source
    → below_loop bound reject source ≡ ok (n, rest)
    → All IsByte rest
unfolding below_loop
below_loop-bytes bound reject (a ∷ b ∷ c ∷ d ∷ e ∷ f ∷ g ∷ h ∷ source) n rest bytes q =
    let x = u64_from_le_bytes a b c d e f g h in
    elim (Bool-cases (ltb x reject)) [
      | inl y ↦ below_loop-bytes bound reject source n rest (behind bytes) (rw (y, below_loop) at q)
      | inr z ↦ taken x (behind bytes) (rw (z, below_loop) at q)
    ]
  where
    behind : All IsByte (a ∷ b ∷ c ∷ d ∷ e ∷ f ∷ g ∷ h ∷ source) → All IsByte source
    behind (b0, (b1, (b2, (b3, (b4, (b5, (b6, (b7, bs)))))))) = bs

    taken :
        (x : ℕ)
        → All IsByte source
        → ◌≡◌ {A = Result Stop (ℕ × List ℕ)} (ok (x % bound, source)) (ok (n, rest))
        → All IsByte rest
    taken x bytes w =
        subst (All IsByte) (ap (λ t. t.1) (ok_inj (x % bound, source) (n, rest) w)) bytes
below_loop-bytes bound reject _ n rest bytes q = cc

u64_below-bytes :
    (bound : ℕ) (source : List ℕ) (n : ℕ) (rest : List ℕ)
    → All IsByte source
    → u64_below bound source ≡ ok (n, rest)
    → All IsByte rest
unfolding u64_below
u64_below-bytes zero source n rest bytes q = cc
u64_below-bytes (suc b) source n rest bytes q =
    below_loop-bytes (suc b) (reject_below (suc b)) source n rest bytes q

-- Two draws that ask the same of u64 keep the bytes.
range_bytes :
    (t : Bool) (lo : ℤ) (span : ℕ)
    → Yields
        (λ v. Unit)
        (assert t >>= λ u. u64_below span >>= λ x. return (wrap_i64 (lo +ℤ as_i64 x)))
range_bytes false lo span source v rest bytes e = absurd (err-ok panicked (v, rest) e)
range_bytes true lo span source v rest bytes e =
    let ((x, rest'), first, second) =
      bind_ok (u64_below span source) (λ (x, rest). return (wrap_i64 (lo +ℤ as_i64 x)) rest)
        (v, rest) e in
    let q = ok_inj (wrap_i64 (lo +ℤ as_i64 x), rest') (v, rest) second in
    (tt, subst (All IsByte) (ap (λ t. t.1) q) (u64_below-bytes span source x rest' bytes first))

pub Yields-range_incl_i64 :
    (lo hi : ℤ)
    → IsI64 lo
    → IsI64 hi
    → Yields (λ v. AtMost lo v × AtMost v hi) (range_incl_i64 lo hi)
unfolding range_incl_i64
Yields-range_incl_i64 lo hi l h source v rest bytes e =
    let (low, high, taken) = range_incl_i64-Drawn lo hi source (v, rest) l h e in
    (
      (low, high),
      (range_bytes (lez lo hi) lo ((distance lo hi + 1) % 2 ^ 64) source v rest bytes e).1,
    )

pub Yields-range_excl_i64 :
    (lo hi : ℤ)
    → IsI64 lo
    → IsI64 hi
    → Yields (λ v. AtMost lo v × AtMost v (prior hi)) (range_excl_i64 lo hi)
unfolding range_excl_i64
Yields-range_excl_i64 lo hi l h source v rest bytes e =
    let (low, high, taken) = range_excl_i64-Drawn lo hi source (v, rest) l h e in
    ((low, high), (range_bytes (ltz lo hi) lo (distance lo hi % 2 ^ 64) source v rest bytes e).1)
