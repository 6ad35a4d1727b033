-- ===== src/Proxy/Supervisor/Params.antt =====
-- src/proxy/supervisor.rs: the parameters that the proxy gets from an interface.
use awg_easy_rs.Prelude.{
  ℕ, ◌≡◌, refl, ◌∙◌, ap, inl, inr, List, [], ◌∷◌, ◌++◌, All, none, some, false, codes, decimal,
  arith,
}
use awg_easy_rs.Prelude.Ints.{pos, decimal_int}
use awg_easy_rs.Prelude.Results.{ok, ◌>>=◌, Result-cases}
use awg_easy_rs.Prelude.Numerals.{parse_u32, u32_bound}
use awg_easy_rs.Prelude.Numerals.Laws.{IsDigit, decimal_digits, parse_decimal}
use awg_easy_rs.Db.{Interface}
use awg_easy_rs.Proxy.Params.{HRange, AwgParams}
use awg_easy_rs.Proxy.Config.{
  Key, key_jc, key_jmin, key_jmax, key_s1, key_s2, key_s3, key_s4, key_h1, key_h2, key_h3, key_h4,
  set_value, parse_number, parse_h_range, take_config_lines, finish, parse_awg_config, no_values,
  validate_awg_params,
}
use awg_easy_rs.Proxy.Config.Ranges.{IsValid, validate_awg_params_iff}
use awg_easy_rs.Proxy.Config.Words.{IsWord}
use awg_easy_rs.Proxy.Config.Text.{IsGraphic}
use awg_easy_rs.Proxy.Responder.Sip.Lines.{lines, lines_from}
use awg_easy_rs.Proxy.Supervisor.{
  entry_lines, awg_entries, awg_text, build_awg_params, accepted, norm_h, or_zero,
}
use awg_easy_rs.Proxy.Supervisor.Text.{
  printed, set_all, AreGraphic, take_config_lines-printed, take_config_lines-header,
}

-- A text that the parser reads as the range.
pub record Shows (text : List ℕ) (r : HRange) : Type 0 where
  pub graphic : All IsGraphic text
  pub reads : (k : Key) → parse_h_range k text ≡ ok r

-- The fields of the interface hold the parameters.
pub record Carries (iface : Interface) (p : AwgParams) : Type 0 where
  pub jc : (iface.j_c ≡ pos p.jc) × IsWord p.jc
  pub jmin : (iface.j_min ≡ pos p.jmin) × IsWord p.jmin
  pub jmax : (iface.j_max ≡ pos p.jmax) × IsWord p.jmax
  pub s1 : (iface.s1 ≡ pos p.s1) × IsWord p.s1
  pub s2 : (iface.s2 ≡ pos p.s2) × IsWord p.s2
  pub s3 : (or_zero iface.s3 ≡ pos p.s3) × IsWord p.s3
  pub s4 : (or_zero iface.s4 ≡ pos p.s4) × IsWord p.s4
  pub h1 : Shows (norm_h iface.h1) p.h1
  pub h2 : Shows (norm_h iface.h2) p.h2
  pub h3 : Shows (norm_h iface.h3) p.h3
  pub h4 : Shows (norm_h iface.h4) p.h4

digit-IsGraphic : (text : List ℕ) → All IsDigit text → All IsGraphic text
digit-IsGraphic [] d = tt
digit-IsGraphic (b ∷ text) (d, ds) =
    ((let l = d.0 in omega arith, let h = d.1 in omega arith), digit-IsGraphic text ds)

pub decimal-IsGraphic : (n : ℕ) → All IsGraphic (decimal n)
decimal-IsGraphic n = digit-IsGraphic (decimal n) (decimal_digits n)

-- The values of the eleven lines.
abbrev values : AwgParams → Interface → List (Key × List ℕ)
values p iface =
    (key_jc, decimal p.jc)
    ∷ (key_jmin, decimal p.jmin)
    ∷ (key_jmax, decimal p.jmax)
    ∷ (key_s1, decimal p.s1)
    ∷ (key_s2, decimal p.s2)
    ∷ (key_s3, decimal p.s3)
    ∷ (key_s4, decimal p.s4)
    ∷ (key_h1, norm_h iface.h1)
    ∷ (key_h2, norm_h iface.h2)
    ∷ (key_h3, norm_h iface.h3)
    ∷ (key_h4, norm_h iface.h4)
    ∷ []

awg_entries-printed :
    (iface : Interface) (p : AwgParams)
    → Carries iface p
    → awg_entries iface ≡ printed (values p iface)
unfolding awg_entries decimal_int
awg_entries-printed iface p c = rw (c.jc.0, c.jmin.0, c.jmax.0, c.s1.0, c.s2.0, c.s3.0, c.s4.0) refl

values-AreGraphic :
    (iface : Interface) (p : AwgParams) → Carries iface p → AreGraphic (values p iface)
values-AreGraphic iface p c = (
  decimal-IsGraphic p.jc,
  (
    decimal-IsGraphic p.jmin,
    (
      decimal-IsGraphic p.jmax,
      (
        decimal-IsGraphic p.s1,
        (
          decimal-IsGraphic p.s2,
          (
            decimal-IsGraphic p.s3,
            (
              decimal-IsGraphic p.s4,
              (c.h1.graphic, (c.h2.graphic, (c.h3.graphic, (c.h4.graphic, tt)))),
            ),
          ),
        ),
      ),
    ),
  ),
)

parse_number-decimal : (k : Key) (n : ℕ) → IsWord n → parse_number k (decimal n) ≡ ok n
unfolding parse_number parse_u32
parse_number-decimal k n h = rw (parse_decimal u32_bound n h) refl

set_all-values :
    (iface : Interface) (p : AwgParams)
    → Carries iface p
    → (set_all (values p iface) no_values >>= finish) ≡ (validate_awg_params p >>= λ t. ok p)
unfolding set_all set_value finish
set_all-values iface p c =
    rw
      (
        parse_number-decimal key_jc p.jc c.jc.1,
        parse_number-decimal key_jmin p.jmin c.jmin.1,
        parse_number-decimal key_jmax p.jmax c.jmax.1,
        parse_number-decimal key_s1 p.s1 c.s1.1,
        parse_number-decimal key_s2 p.s2 c.s2.1,
        parse_number-decimal key_s3 p.s3 c.s3.1,
        parse_number-decimal key_s4 p.s4 c.s4.1,
        c.h1.reads key_h1,
        c.h2.reads key_h2,
        c.h3.reads key_h3,
        c.h4.reads key_h4,
      )
      refl

-- The text that the supervisor prints for an interface is read as the parameters that the
-- interface carries, if they are valid, and refused by the check otherwise.
pub parse_awg_config-awg_text :
    (iface : Interface) (p : AwgParams)
    → Carries iface p
    → parse_awg_config (awg_text iface) ≡ (validate_awg_params p >>= λ t. ok p)
unfolding parse_awg_config awg_text lines
parse_awg_config-awg_text iface p c =
    ap
      (λ e.
        take_config_lines false (lines_from [] (codes "[Interface]" ++ (0x0A ∷ entry_lines e)))
          no_values
        >>= finish)
      (awg_entries-printed iface p c)
    ∙ ap (λ r. r >>= finish)
        (take_config_lines-header (entry_lines (printed (values p iface))) no_values
          ∙ take_config_lines-printed (values p iface) no_values (values-AreGraphic iface p c))
    ∙ set_all-values iface p c

-- With valid parameters in the interface, the proxy gets those parameters.
pub build_awg_params_valid :
    (iface : Interface) (p : AwgParams)
    → Carries iface p
    → IsValid p
    → build_awg_params iface ≡ some p
unfolding build_awg_params accepted
build_awg_params_valid iface p c v = ap accepted (
    parse_awg_config-awg_text iface p c
    ∙ ap (λ r. r >>= λ t. ok p) ((validate_awg_params_iff p).1 v))

-- With overlapping ranges or junk sizes out of order in it, the proxy runs with none.
pub build_awg_params_invalid :
    (iface : Interface) (p : AwgParams)
    → Carries iface p
    → ¬ (IsValid p)
    → build_awg_params iface ≡ none
unfolding build_awg_params accepted
build_awg_params_invalid iface p c v = elim (Result-cases (validate_awg_params p)) [
  | inl (t, e) ↦ absurd (v ((validate_awg_params_iff p).0 e))
  | inr (x, e) ↦ ap accepted (parse_awg_config-awg_text iface p c ∙ ap (λ r. r >>= λ t. ok p) e)
]
