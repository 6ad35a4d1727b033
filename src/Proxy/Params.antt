-- ===== src/Proxy/Params.antt =====
-- src/proxy/config.rs: the obfuscation parameters that the proxy reads.
use awg_easy_rs.Prelude.{ℕ, leb, Bool, ◌&&◌}

pub record HRange : Type 0 where
  pub lo : ℕ
  pub hi : ℕ

-- `HRange::contains`; the fields `min` and `max` are `lo` and `hi`.
abbrev pub contains : HRange → ℕ → Bool
contains r value = leb r.lo value && leb value r.hi

pub record AwgParams : Type 0 where
  pub jc : ℕ
  pub jmin : ℕ
  pub jmax : ℕ
  pub s1 : ℕ
  pub s2 : ℕ
  pub s3 : ℕ
  pub s4 : ℕ
  pub h1 : HRange
  pub h2 : HRange
  pub h3 : HRange
  pub h4 : HRange
