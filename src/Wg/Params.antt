-- ===== src/Wg/Params.antt =====
-- src/wg/params.rs: the parameters of an interface and the check of their ranges.
use awg_easy_rs.Prelude.{ℕ, List, [], ◌∷◌, Option, none, some, Bool, false, ◌&&◌, ◌||◌, not}
use awg_easy_rs.Prelude.Ints.{ℤ, pos, ltz, lez, eqz, ◌+ℤ◌}
use awg_easy_rs.Prelude.Results.{Result, ◌>>◌, fail_if}
use awg_easy_rs.Prelude.Strings.{same_text}

pub record AwgParams : Type 0 where
  pub jc : ℤ
  pub jmin : ℤ
  pub jmax : ℤ
  pub s1 : ℤ
  pub s2 : ℤ
  pub s3 : Option ℤ
  pub s4 : Option ℤ
  pub h1 : List ℕ
  pub h2 : List ℕ
  pub h3 : List ℕ
  pub h4 : List ℕ
  pub i1 : Option (List ℕ)
  pub i2 : Option (List ℕ)
  pub i3 : Option (List ℕ)
  pub i4 : Option (List ℕ)
  pub i5 : Option (List ℕ)

-- The messages of the check.
pub data ParamError : Type 0 where
  bad_jc bad_jmin bad_jmax jmax_not_above_jmin bad_s1 bad_s2 s1_meets_s2 bad_s3 bad_s4 : ParamError
  s3_meets_s4 equal_headers : ParamError

-- `(least..=most).contains(&v)`
unfoldable pub within : ℤ → ℤ → ℤ → Bool
within least most v = lez least v && lez v most

unfoldable pub is_outside : ℤ → ℤ → Option ℤ → Bool
is_outside least most none = false
is_outside least most (some v) = not (within least most v)

unfoldable pub pair_meets : Option ℤ → Option ℤ → Bool
pair_meets (some s3) (some s4) = eqz (s3 +ℤ pos 56) s4 || eqz (s4 +ℤ pos 56) s3
pair_meets (some s3) none = false
pair_meets none s4 = false

-- The inner and the outer loop over the headers.
unfoldable pub occurs : List ℕ → List (List ℕ) → Bool
occurs h [] = false
occurs h (g ∷ headers) = same_text h g || occurs h headers

unfoldable pub any_equal : List (List ℕ) → Bool
any_equal [] = false
any_equal (h ∷ headers) = occurs h headers || any_equal headers

unfoldable pub validate_awg_params : AwgParams → Result ParamError (Unit {0})
validate_awg_params p = do
  fail_if (not (within (pos 1) (pos 128) p.jc)) bad_jc
  fail_if (ltz p.jmin (pos 0) || lez (pos 1280) p.jmin) bad_jmin
  fail_if (not (within (pos 1) (pos 1279) p.jmax)) bad_jmax
  fail_if (lez p.jmax p.jmin) jmax_not_above_jmin
  fail_if (ltz p.s1 (pos 0) || ltz (pos 1132) p.s1) bad_s1
  fail_if (ltz p.s2 (pos 0) || ltz (pos 1188) p.s2) bad_s2
  fail_if (eqz (p.s1 +ℤ pos 56) p.s2) s1_meets_s2
  fail_if (is_outside (pos 0) (pos 1132) p.s3) bad_s3
  fail_if (is_outside (pos 0) (pos 1188) p.s4) bad_s4
  fail_if (pair_meets p.s3 p.s4) s3_meets_s4
  fail_if (any_equal (p.h1 ∷ p.h2 ∷ p.h3 ∷ p.h4 ∷ [])) equal_headers
