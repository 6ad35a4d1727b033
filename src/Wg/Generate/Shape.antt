-- ===== src/Wg/Generate/Shape.antt =====
-- src/wg/params.rs: the shape of what the generator returns.
use awg_easy_rs.Prelude.{ℕ, ◌+◌, ◌≤◌, ◌<◌, ◌≡◌, ◌≢◌, refl, List, none, some, true, not, arith}
use awg_easy_rs.Prelude.Ints.{ℤ, pos, negsuc, eqz, ◌+ℤ◌}
use awg_easy_rs.Proxy.Params.{HRange}
use awg_easy_rs.Proxy.Params
use awg_easy_rs.Proxy.Supervisor.{printed_range}
use awg_easy_rs.Wg.Params.{AwgParams}
use awg_easy_rs.Wg.Generate.{is_apart, i1_text}
use awg_easy_rs.Wg.Generate.Draws.{Between, IsHex}
use awg_easy_rs.Wg.Generate.Headers.{AreWindows}

-- The parameters with these numbers, these header windows and these random digits.
abbrev pub printed_params : Params.AwgParams → List ℕ → AwgParams
printed_params q hex = record {
  jc = pos q.jc;
  jmin = pos q.jmin;
  jmax = pos q.jmax;
  s1 = pos q.s1;
  s2 = pos q.s2;
  s3 = some (pos q.s3);
  s4 = some (pos q.s4);
  h1 = printed_range q.h1.lo q.h1.hi;
  h2 = printed_range q.h2.lo q.h2.hi;
  h3 = printed_range q.h3.lo q.h3.hi;
  h4 = printed_range q.h4.lo q.h4.hi;
  i1 = some (i1_text hex);
  i2 = none;
  i3 = none;
  i4 = none;
  i5 = none;
}

-- The ranges that the generator draws from, and what it avoids.
pub record InRanges (q : Params.AwgParams) : Type 0 where
  pub jc : (4 ≤ q.jc) × (q.jc ≤ 12)
  pub jmin : (8 ≤ q.jmin) × (q.jmin ≤ 80)
  pub jmax : (q.jmin < q.jmax) × (q.jmax ≤ 1279)
  pub s1 : (15 ≤ q.s1) × (q.s1 ≤ 150)
  pub s2 : (15 ≤ q.s2) × (q.s2 ≤ 150) × (q.s2 ≢ q.s1 + 56)
  pub s3 : (15 ≤ q.s3) × (q.s3 ≤ 150) × (q.s3 + 56 ≢ q.s4)
  pub s4 : (15 ≤ q.s4) × (q.s4 ≤ 150) × (q.s4 + 56 ≢ q.s3)
  pub windows : AreWindows q.h1 q.h2 q.h3 q.h4

abbrev pub IsGenerated : AwgParams → Type 0
IsGenerated p =
    (q : Params.AwgParams) × (hex : List ℕ) × (p ≡ printed_params q hex) × InRanges q × IsHex 48 hex

-- The number that is not negative.
abbrev pub nat : ℤ → ℕ
nat (pos n) = n
nat (negsuc n) = 0

Between-nat :
    (lo hi : ℕ) (v : ℤ) → Between lo hi v → (v ≡ pos (nat v)) × (lo ≤ nat v) × (nat v ≤ hi)
Between-nat lo hi (pos n) b = (refl, b.0, b.1)
Between-nat lo hi (negsuc n) b = absurd b

-- The test of the loop for s2, and that for s3 and s4, on numbers.
s2_apart : (s1 s2 : ℕ) → not (eqz (pos s2) (pos s1 +ℤ pos 56)) ≡ true → s2 ≢ s1 + 56
s2_apart s1 s2 h e = ground arith

pair_apart : (a b : ℕ) → is_apart (pos a, pos b) ≡ true → (a + 56 ≢ b) × (b + 56 ≢ a)
unfolding is_apart
pair_apart a b h = (λ e. ground arith, λ e. ground arith)

abbrev pub IsHeader : HRange → List ℕ → Type 0
IsHeader r t = t ≡ printed_range r.lo r.hi

-- The generator's result, put together from what the draws returned.
pub assembled :
    (jc jmin jmax s1 s2 s3 s4 : ℤ) (a b c d : HRange) (h1 h2 h3 h4 hex : List ℕ)
    → Between 4 12 jc
    → Between 8 80 jmin
    → Between (nat jmin + 1) 1279 jmax
    → Between 15 150 s1
    → Between 15 150 s2 × (not (eqz s2 (s1 +ℤ pos 56)) ≡ true)
    → (Between 15 150 s3 × Between 15 150 s4) × (is_apart (s3, s4) ≡ true)
    → AreWindows a b c d
    → (IsHeader a h1 × IsHeader b h2 × IsHeader c h3 × IsHeader d h4)
    → IsHex 48 hex
    → IsGenerated (record {
      jc = jc;
      jmin = jmin;
      jmax = jmax;
      s1 = s1;
      s2 = s2;
      s3 = some s3;
      s4 = some s4;
      h1 = h1;
      h2 = h2;
      h3 = h3;
      h4 = h4;
      i1 = some (i1_text hex);
      i2 = none;
      i3 = none;
      i4 = none;
      i5 = none;
    })
assembled (pos jc) (pos jmin) (pos jmax) (pos s1) (pos s2) (pos s3) (pos s4) a b c d h1 h2 h3 h4 hex
      pjc pjmin pjmax p1 (p2, t2) ((p3, p4), t3) w (e1, e2, e3, e4) x =
    (
      record {
        jc = jc;
        jmin = jmin;
        jmax = jmax;
        s1 = s1;
        s2 = s2;
        s3 = s3;
        s4 = s4;
        h1 = a;
        h2 = b;
        h3 = c;
        h4 = d;
      },
      hex,
      rw (e1, e2, e3, e4) refl,
      record {
        jc = pjc;
        jmin = pjmin;
        jmax = (omega (arith, pjmax.0), pjmax.1);
        s1 = p1;
        s2 = (p2.0, p2.1, s2_apart s1 s2 t2);
        s3 = (p3.0, p3.1, (pair_apart s3 s4 t3).0);
        s4 = (p4.0, p4.1, (pair_apart s3 s4 t3).1);
        windows = w;
      },
      x,
    )
assembled (negsuc jc) jmin jmax s1 s2 s3 s4 a b c d h1 h2 h3 h4 hex pjc pjmin pjmax p1 p2 p3 w e x =
    absurd pjc
assembled (pos jc) (negsuc jmin) jmax s1 s2 s3 s4 a b c d h1 h2 h3 h4 hex pjc pjmin pjmax p1 p2 p3 w
      e x =
    absurd pjmin
assembled (pos jc) (pos jmin) (negsuc jmax) s1 s2 s3 s4 a b c d h1 h2 h3 h4 hex pjc pjmin pjmax p1
      p2 p3 w e x =
    absurd pjmax
assembled (pos jc) (pos jmin) (pos jmax) (negsuc s1) s2 s3 s4 a b c d h1 h2 h3 h4 hex pjc pjmin
      pjmax p1 p2 p3 w e x =
    absurd p1
assembled (pos jc) (pos jmin) (pos jmax) (pos s1) (negsuc s2) s3 s4 a b c d h1 h2 h3 h4 hex pjc
      pjmin pjmax p1 p2 p3 w e x =
    absurd p2.0
assembled (pos jc) (pos jmin) (pos jmax) (pos s1) (pos s2) (negsuc s3) s4 a b c d h1 h2 h3 h4 hex
      pjc pjmin pjmax p1 p2 p3 w e x =
    absurd p3.0.0
assembled (pos jc) (pos jmin) (pos jmax) (pos s1) (pos s2) (pos s3) (negsuc s4) a b c d h1 h2 h3 h4
      hex pjc pjmin pjmax p1 p2 p3 w e x =
    absurd p3.0.1
