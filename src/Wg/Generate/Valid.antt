-- ===== src/Wg/Generate/Valid.antt =====
-- src/wg/params.rs: what is generated passes the checks.
use awg_easy_rs.Prelude.{
  ℕ, ◌+◌, ◌≤◌, ◌<◌, ◌≡◌, ◌≢◌, refl, sym, ap, ◌∙◌, inl, inr, List, [], ◌∷◌, All, IsByte, some,
  Bool-cases, true, false, ◌||◌, arith,
}
use mathlib.Core.Path.{subst}
use awg_easy_rs.Prelude.Ints.{pos, ltz, lez, eqz, ◌+ℤ◌}
use awg_easy_rs.Prelude.Results.{ok, ok_inj}
use awg_easy_rs.Prelude.Strings.{same_text}
use awg_easy_rs.Prelude.Strings.Laws.{same_text_iff}
use awg_easy_rs.Proxy.Params.{HRange}
use awg_easy_rs.Proxy.Params
use awg_easy_rs.Proxy.Config.{key_h1, parse_h_range}
use awg_easy_rs.Proxy.Config.Words.{IsRange}
use awg_easy_rs.Proxy.Supervisor.{printed_range}
use awg_easy_rs.Proxy.Supervisor.Headers.{parse_h_range-printed}
use awg_easy_rs.Wg.Params.{
  AwgParams, within, is_outside, pair_meets, occurs, any_equal, validate_awg_params,
}
use awg_easy_rs.Wg.InitSpec.{validate_init_spec}
use awg_easy_rs.Wg.InitSpec.Grammar.{validate_init_spec_iff}
use awg_easy_rs.Wg.Generate.Init.{i1_text-IsSpec}
use awg_easy_rs.Wg.Generate.{i1_text, generate_awg_params}
use awg_easy_rs.Wg.Generate.Headers.{AreWindows}
use awg_easy_rs.Wg.Generate.Shape.{printed_params, InRanges}
use awg_easy_rs.Wg.Generate.Laws.{generate_awg_params-IsGenerated}

-- Printed ranges differ where the ranges begin at different values.
printed_range_differ :
    (a b : HRange)
    → IsRange a
    → IsRange b
    → a.lo < b.lo
    → same_text (printed_range a.lo a.hi) (printed_range b.lo b.hi) ≡ false
printed_range_differ a b r s h =
    elim (Bool-cases (same_text (printed_range a.lo a.hi) (printed_range b.lo b.hi))) [
      | inl y ↦ absurd (
          let e =
            same_range ((same_text_iff (printed_range a.lo a.hi) (printed_range b.lo b.hi)).0 y) in
          omega arith)
      | inr n ↦ n
    ]
  where
    same_range : printed_range a.lo a.hi ≡ printed_range b.lo b.hi → a.lo ≡ b.lo
    same_range e =
        ap (λ r. r.lo)
          (ok_inj a b (
            sym (parse_h_range-printed key_h1 a r)
            ∙ ap (parse_h_range key_h1) e
            ∙ parse_h_range-printed key_h1 b s))

no_headers_equal :
    (a b c d : HRange)
    → AreWindows a b c d
    → any_equal (
        printed_range a.lo a.hi
        ∷ printed_range b.lo b.hi
        ∷ printed_range c.lo c.hi
        ∷ printed_range d.lo d.hi
        ∷ [])
      ≡ false
unfolding any_equal occurs
no_headers_equal a b c d (w0, w1, w2, w3, w4, w5, w6, w7, w8) =
    let ra : IsRange a = (omega arith, omega arith) in
    let rb : IsRange b = (omega arith, omega arith) in
    let rc : IsRange c = (omega arith, omega arith) in
    let rd : IsRange d = (omega arith, omega arith) in
    rw
      (
        printed_range_differ a b ra rb (omega arith),
        printed_range_differ a c ra rc (omega arith),
        printed_range_differ a d ra rd (omega arith),
        printed_range_differ b c rb rc (omega arith),
        printed_range_differ b d rb rd (omega arith),
        printed_range_differ c d rc rd (omega arith),
      )
      refl

within_numbers : (lo hi n : ℕ) → lo ≤ n → n ≤ hi → within (pos lo) (pos hi) (pos n) ≡ true
unfolding within
within_numbers lo hi n h k = ground arith

-- The single tests.
jmin_fits : (n : ℕ) → n ≤ 1279 → (ltz (pos n) (pos 0) || lez (pos 1280) (pos n)) ≡ false
jmin_fits n h = ground arith

in_order : (a b : ℕ) → a < b → lez (pos b) (pos a) ≡ false
in_order a b h = ground arith

padding_fits : (most n : ℕ) → n ≤ most → (ltz (pos n) (pos 0) || ltz (pos most) (pos n)) ≡ false
padding_fits most n h = ground arith

keeps_apart : (a b : ℕ) → a + 56 ≢ b → eqz (pos a +ℤ pos 56) (pos b) ≡ false
keeps_apart a b h = ground arith

validate-printed_params :
    (q : Params.AwgParams) (hex : List ℕ)
    → InRanges q
    → validate_awg_params (printed_params q hex) ≡ ok tt
unfolding validate_awg_params is_outside pair_meets
validate-printed_params q hex r =
    rw
      (
        within_numbers 1 128 q.jc (omega (arith, r.jc)) (omega (arith, r.jc)),
        jmin_fits q.jmin (omega (arith, r.jmin)),
        within_numbers 1 1279 q.jmax (omega (arith, r.jmax)) (omega (arith, r.jmax)),
        in_order q.jmin q.jmax r.jmax.0,
        padding_fits 1132 q.s1 (omega (arith, r.s1)),
        padding_fits 1188 q.s2 (omega (arith, r.s2.1)),
        keeps_apart q.s1 q.s2 (λ e. r.s2.2 (sym e)),
        within_numbers 0 1132 q.s3 (omega arith) (omega (arith, r.s3.1)),
        within_numbers 0 1188 q.s4 (omega arith) (omega (arith, r.s4.1)),
        keeps_apart q.s3 q.s4 r.s3.2,
        keeps_apart q.s4 q.s3 r.s4.2,
        no_headers_equal q.h1 q.h2 q.h3 q.h4 r.windows,
      )
      refl

-- Parameters that the generator returns, from whatever random bytes, pass the check of the
-- parameters, and their init packet passes the check of the tags.
pub generate_awg_params_valid :
    (source : List ℕ) (p : AwgParams) (rest : List ℕ)
    → All IsByte source
    → generate_awg_params source ≡ ok (p, rest)
    → (validate_awg_params p ≡ ok tt)
      × ((spec : List ℕ) × (p.i1 ≡ some spec) × (validate_init_spec spec ≡ ok tt))
generate_awg_params_valid source p rest bytes e =
    let ((q, hex, shape, ranges, x), left) =
      generate_awg_params-IsGenerated source p rest bytes e in
    subst
      (λ p.
        (validate_awg_params p ≡ ok tt)
        × ((spec : List ℕ) × (p.i1 ≡ some spec) × (validate_init_spec spec ≡ ok tt)))
      (sym shape)
      (
        validate-printed_params q hex ranges,
        (i1_text hex, refl, (validate_init_spec_iff (i1_text hex)).1 (i1_text-IsSpec hex x)),
      )
