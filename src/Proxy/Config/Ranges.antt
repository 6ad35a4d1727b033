-- ===== src/Proxy/Config/Ranges.antt =====
-- src/proxy/config.rs: what the check of the header ranges decides.
use awg_easy_rs.Prelude.{◌≤◌, ◌<◌, ◌≡◌, refl, ◌↔◌, ◌⊎◌, List, [], ◌∷◌, ltb, arith}
use awg_easy_rs.Prelude.Results.{Result, ok, err, fail_if, ◌>>◌}
use awg_easy_rs.Proxy.Params.{HRange, AwgParams}
use awg_easy_rs.Proxy.Config.{
  Key, ConfigError, check_overlaps, check_ranges, ranges, validate_awg_params, jmin_above_jmax,
}

-- Two ranges with no common header value.
abbrev pub Disjoint : HRange → HRange → Type 0
Disjoint a b = (a.hi < b.lo) ⊎ (b.hi < a.lo)

abbrev pub Apart : HRange → List (Key × HRange) → Type 0
Apart a [] = Unit
Apart a ((name, b) ∷ rs) = Disjoint a b × Apart a rs

-- Each range is apart from those behind it.
abbrev pub Pairwise : List (Key × HRange) → Type 0
Pairwise [] = Unit
Pairwise ((name, a) ∷ rs) = Apart a rs × Pairwise rs

abbrev pub IsValid : AwgParams → Type 0
IsValid p = (p.jmin ≤ p.jmax) × Pairwise (ranges p)

pub then_ok {ℓ} :
    {A : Type ℓ} (r : Result ConfigError (Unit {0})) (s : Result ConfigError A) (a : A)
    → (r >> s) ≡ ok a
    → (r ≡ ok tt) × (s ≡ ok a)
then_ok (ok tt) s a h = (refl, h)
then_ok (err e) s a h = cc

check_overlaps-Apart :
    (k : Key) (a : HRange) (rs : List (Key × HRange)) → check_overlaps k a rs ≡ ok tt → Apart a rs
unfolding check_overlaps
check_overlaps-Apart k a [] h = tt
check_overlaps-Apart k a ((name, b) ∷ rs) h = ground (arith, check_overlaps-Apart k a rs)

Apart-check_overlaps :
    (k : Key) (a : HRange) (rs : List (Key × HRange)) → Apart a rs → check_overlaps k a rs ≡ ok tt
unfolding check_overlaps
Apart-check_overlaps k a [] h = refl
Apart-check_overlaps k a ((name, b) ∷ rs) (h, hs) = ground (arith, Apart-check_overlaps k a rs hs)

check_ranges-Pairwise : (rs : List (Key × HRange)) → check_ranges rs ≡ ok tt → Pairwise rs
unfolding check_ranges
check_ranges-Pairwise [] h = tt
check_ranges-Pairwise ((name, a) ∷ rs) h =
    let (first, others) = then_ok (check_overlaps name a rs) (check_ranges rs) tt h in
    (check_overlaps-Apart name a rs first, check_ranges-Pairwise rs others)

Pairwise-check_ranges : (rs : List (Key × HRange)) → Pairwise rs → check_ranges rs ≡ ok tt
unfolding check_ranges
Pairwise-check_ranges [] h = refl
Pairwise-check_ranges ((name, a) ∷ rs) (h, hs) =
    rw (Apart-check_overlaps name a rs h) (Pairwise-check_ranges rs hs)

-- The check accepts the parameters exactly where the junk sizes are in order and no two ranges
-- have a common value.
pub validate_awg_params_iff : (p : AwgParams) → (validate_awg_params p ≡ ok tt) ↔ IsValid p
unfolding validate_awg_params
validate_awg_params_iff p = (
  (λ h.
      let (order, apart) =
        then_ok (fail_if (ltb p.jmax p.jmin) (jmin_above_jmax p.jmin p.jmax))
          (check_ranges (ranges p)) tt h in
      (ordered order, check_ranges-Pairwise (ranges p) apart)),
  (λ (order, apart). rw (Pairwise-check_ranges (ranges p) apart) (ground arith)),
)
  where
    ordered : fail_if (ltb p.jmax p.jmin) (jmin_above_jmax p.jmin p.jmax) ≡ ok tt → p.jmin ≤ p.jmax
    ordered h = ground arith
