-- ===== src/Wg/Store/Laws.antt =====
-- From the generator through the database to the proxy: src/wg/params.rs, src/db.rs and
-- src/proxy/supervisor.rs.
use awg_easy_rs.Prelude.{ℕ, ◌≡◌, refl, sym, inl, List, All, IsByte, some, arith}
use mathlib.Core.Path.{subst}
use awg_easy_rs.Prelude.Results.{ok}
use awg_easy_rs.Db.{Interface}
use awg_easy_rs.Proxy.Params.{HRange}
use awg_easy_rs.Proxy.Params
use awg_easy_rs.Proxy.Config.Ranges.{IsValid}
use awg_easy_rs.Proxy.Config.Words.{IsRange}
use awg_easy_rs.Proxy.Supervisor.{build_awg_params}
use awg_easy_rs.Proxy.Supervisor.Params.{Carries, build_awg_params_valid}
use awg_easy_rs.Proxy.Supervisor.Headers.{printed_range-Shows}
use awg_easy_rs.Wg.Params.{AwgParams}
use awg_easy_rs.Wg.Generate.{generate_awg_params}
use awg_easy_rs.Wg.Generate.Headers.{AreWindows}
use awg_easy_rs.Wg.Generate.Shape.{printed_params, InRanges}
use awg_easy_rs.Wg.Generate.Laws.{generate_awg_params-IsGenerated}
use awg_easy_rs.Wg.Store.{update_interface_awg_params}

windows-IsRange :
    (a b c d : HRange) → AreWindows a b c d → IsRange a × IsRange b × IsRange c × IsRange d
windows-IsRange a b c d (w0, w1, w2, w3, w4, w5, w6, w7, w8) = (
  (omega arith, omega arith),
  (omega arith, omega arith),
  (omega arith, omega arith),
  (omega arith, omega arith),
)

ranges-IsValid : (q : Params.AwgParams) → InRanges q → IsValid q
ranges-IsValid q r =
    let (w0, w1, w2, w3, w4, w5, w6, w7, w8) = r.windows in
    (
      omega (arith, r.jmax),
      (
        (inl w2, (inl (omega arith), (inl (omega arith), tt))),
        ((inl w4, (inl (omega arith), tt)), ((inl w6, tt), (tt, tt))),
      ),
    )

stored-Carries :
    (iface : Interface) (q : Params.AwgParams) (hex : List ℕ)
    → InRanges q
    → Carries (update_interface_awg_params (printed_params q hex) iface) q
unfolding update_interface_awg_params
stored-Carries iface q hex r =
    let (a, b, c, d) = windows-IsRange q.h1 q.h2 q.h3 q.h4 r.windows in
    record {
      jc = (refl, omega (arith, r.jc));
      jmin = (refl, omega (arith, r.jmin));
      jmax = (refl, omega (arith, r.jmax));
      s1 = (refl, omega (arith, r.s1));
      s2 = (refl, omega (arith, r.s2.1));
      s3 = (refl, omega (arith, r.s3.1));
      s4 = (refl, omega (arith, r.s4.1));
      h1 = printed_range-Shows q.h1 a;
      h2 = printed_range-Shows q.h2 b;
      h3 = printed_range-Shows q.h3 c;
      h4 = printed_range-Shows q.h4 d;
    }

-- Parameters that the generator returns and the database stores reach the proxy as they are: the
-- proxy reads the same numbers and header ranges back from the interface, and never drops them.
pub generated_round_trip :
    (iface : Interface) (source : List ℕ) (p : AwgParams) (rest : List ℕ)
    → All IsByte source
    → generate_awg_params source ≡ ok (p, rest)
    → (q : Params.AwgParams) × (hex : List ℕ) × (p ≡ printed_params q hex)
      × (build_awg_params (update_interface_awg_params p iface) ≡ some q)
generated_round_trip iface source p rest bytes e =
    let ((q, hex, shape, ranges, x), left) =
      generate_awg_params-IsGenerated source p rest bytes e in
    (
      q,
      hex,
      shape,
      subst (λ p. build_awg_params (update_interface_awg_params p iface) ≡ some q) (sym shape)
          (build_awg_params_valid (update_interface_awg_params (printed_params q hex) iface) q
            (stored-Carries iface q hex ranges) (ranges-IsValid q ranges)),
    )
