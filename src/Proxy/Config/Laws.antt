-- ===== src/Proxy/Config/Laws.antt =====
-- What a configuration that the parser accepts satisfies.
use awg_easy_rs.Prelude.{
  ℕ, ◌≡◌, refl, inl, inr, List, [], ◌∷◌, All, Option, none, some, true, false, arith,
}
use mathlib.Core.Path.{subst}
use awg_easy_rs.Prelude.Results.{ok_inj, ok_or, Result, ok, err, ◌>>◌, ◌>>=◌, Result-cases}
use awg_easy_rs.Proxy.Packet.{
  AwgPacketType, handshake_init, handshake_response, cookie_reply, transport_data,
}
use awg_easy_rs.Proxy.Packet.Laws.{header_range}
use awg_easy_rs.Proxy.Params.{contains, HRange, AwgParams}
use awg_easy_rs.Proxy.Responder.Sip.Lines.{lines}
use awg_easy_rs.Proxy.Config.{
  ConfigError, ranges, validate_awg_params, Draft, no_values, take_config_lines, finish,
  parse_awg_config,
}
use awg_easy_rs.Proxy.Config.Ranges.{Disjoint, Pairwise, IsValid, validate_awg_params_iff}
use awg_easy_rs.Proxy.Config.Words.{
  IsWord, IsRange, DraftHolds, OptAll, WhenOk, WhenOk_bind, take_config_lines-holds,
}

-- The values fit their machine words, and the ranges are not empty.
abbrev pub HoldsWords : AwgParams → Type 0
HoldsWords p =
    All IsWord (p.jc ∷ p.jmin ∷ p.jmax ∷ p.s1 ∷ p.s2 ∷ p.s3 ∷ p.s4 ∷ [])
    × All IsRange (p.h1 ∷ p.h2 ∷ p.h3 ∷ p.h4 ∷ [])

abbrev Accepted : AwgParams → Type 0
Accepted p = IsValid p × HoldsWords p

-- A value that is there, or the error.
WhenOk_ok_or {ℓ} :
    {A : Type ℓ} (P : A → Type 0) (Q : AwgParams → Type 0) (o : Option A) (e : ConfigError)
    (f : A → Result ConfigError AwgParams)
    → OptAll P o
    → ((a : A) → P a → WhenOk Q (f a))
    → WhenOk Q (ok_or o e >>= f)
WhenOk_ok_or P Q none e f h k = tt
WhenOk_ok_or P Q (some a) e f h k = k a h

checked : (p : AwgParams) → HoldsWords p → WhenOk Accepted (validate_awg_params p >> ok p)
checked p h = elim (Result-cases (validate_awg_params p)) [
  | inl (t, e) ↦ rw e ((validate_awg_params_iff p).0 e, h)
  | inr (x, e) ↦ rw e tt
]

finish-holds : (d : Draft) → DraftHolds d → WhenOk Accepted (finish d)
unfolding finish
finish-holds d ((a, (b, (c, (e, (f, (g, (i, is))))))), (w, (x, (y, (z, zs))))) =
    WhenOk_ok_or IsWord Accepted d.jc _ _ a (λ jc a'.
      WhenOk_ok_or IsWord Accepted d.jmin _ _ b (λ jmin b'.
        WhenOk_ok_or IsWord Accepted d.jmax _ _ c (λ jmax c'.
          WhenOk_ok_or IsWord Accepted d.s1 _ _ e (λ s1 e'.
            WhenOk_ok_or IsWord Accepted d.s2 _ _ f (λ s2 f'.
              WhenOk_ok_or IsWord Accepted d.s3 _ _ g (λ s3 g'.
                WhenOk_ok_or IsWord Accepted d.s4 _ _ i (λ s4 i'.
                  WhenOk_ok_or IsRange Accepted d.h1 _ _ w (λ h1 w'.
                    WhenOk_ok_or IsRange Accepted d.h2 _ _ x (λ h2 x'.
                      WhenOk_ok_or IsRange Accepted d.h3 _ _ y (λ h3 y'.
                        WhenOk_ok_or IsRange Accepted d.h4 _ _ z (λ h4 z'.
                          checked
                            (record {
                              jc = jc;
                              jmin = jmin;
                              jmax = jmax;
                              s1 = s1;
                              s2 = s2;
                              s3 = s3;
                              s4 = s4;
                              h1 = h1;
                              h2 = h2;
                              h3 = h3;
                              h4 = h4;
                            })
                            (
                              (a', (b', (c', (e', (f', (g', (i', tt))))))),
                              (w', (x', (y', (z', tt)))),
                            ))))))))))))

from_WhenOk {ℓ} :
    {A : Type 0} (P : A → Type ℓ) (r : Result ConfigError A) (a : A) → WhenOk P r → r ≡ ok a → P a
from_WhenOk P (ok b) a h e = subst P (ok_inj b a e) h
from_WhenOk P (err x) a h e = cc

-- Parameters that the parser returns, from any text, are valid: Jmin is at most Jmax, the four
-- header ranges are not empty and pairwise disjoint, and every number fits 32 bits.
pub parse_awg_config-IsValid :
    (text : List ℕ) (p : AwgParams) → parse_awg_config text ≡ ok p → IsValid p × HoldsWords p
unfolding parse_awg_config
parse_awg_config-IsValid text p e =
    from_WhenOk Accepted (parse_awg_config text) p
      (WhenOk_bind DraftHolds Accepted (take_config_lines false (lines text) no_values) finish
        (take_config_lines-holds false (lines text) no_values nothing) finish-holds)
      e
  where
    nothing : DraftHolds no_values
    nothing = ((tt, (tt, (tt, (tt, (tt, (tt, (tt, tt))))))), (tt, (tt, (tt, (tt, tt)))))

not_both : (a b : HRange) (v : ℕ) → Disjoint a b → contains a v ≡ true → contains b v ≡ true → ⊥
not_both a b v d h k = ground arith

disjoint_same :
    (p : AwgParams) (t u : AwgPacketType) (v : ℕ)
    → Pairwise (ranges p)
    → contains (header_range t p) v ≡ true
    → contains (header_range u p) v ≡ true
    → t ≡ u
disjoint_same p handshake_init handshake_init v d h k = refl
disjoint_same p handshake_init handshake_response v d h k = absurd (not_both p.h1 p.h2 v d.0.0 h k)
disjoint_same p handshake_init cookie_reply v d h k = absurd (not_both p.h1 p.h3 v d.0.1.0 h k)
disjoint_same p handshake_init transport_data v d h k = absurd (not_both p.h1 p.h4 v d.0.1.1.0 h k)
disjoint_same p handshake_response handshake_response v d h k = refl
disjoint_same p handshake_response cookie_reply v d h k = absurd (not_both p.h2 p.h3 v d.1.0.0 h k)
disjoint_same p handshake_response transport_data v d h k =
    absurd (not_both p.h2 p.h4 v d.1.0.1.0 h k)
disjoint_same p cookie_reply cookie_reply v d h k = refl
disjoint_same p cookie_reply transport_data v d h k = absurd (not_both p.h3 p.h4 v d.1.1.0.0 h k)
disjoint_same p transport_data transport_data v d h k = refl
disjoint_same p handshake_response handshake_init v d h k = absurd (not_both p.h1 p.h2 v d.0.0 k h)
disjoint_same p cookie_reply handshake_init v d h k = absurd (not_both p.h1 p.h3 v d.0.1.0 k h)
disjoint_same p cookie_reply handshake_response v d h k = absurd (not_both p.h2 p.h3 v d.1.0.0 k h)
disjoint_same p transport_data handshake_init v d h k = absurd (not_both p.h1 p.h4 v d.0.1.1.0 k h)
disjoint_same p transport_data handshake_response v d h k =
    absurd (not_both p.h2 p.h4 v d.1.0.1.0 k h)
disjoint_same p transport_data cookie_reply v d h k = absurd (not_both p.h3 p.h4 v d.1.1.0.0 k h)

-- A header value lies in at most one of the four ranges that the parser returns.
pub parse_awg_config_one_type :
    (text : List ℕ) (p : AwgParams) (t u : AwgPacketType) (v : ℕ)
    → parse_awg_config text ≡ ok p
    → contains (header_range t p) v ≡ true
    → contains (header_range u p) v ≡ true
    → t ≡ u
parse_awg_config_one_type text p t u v e h k =
    disjoint_same p t u v (parse_awg_config-IsValid text p e).0.1 h k
