-- ===== src/Wg/Generate/Laws.antt =====
-- src/wg/params.rs: what the generator returns.
use awg_easy_rs.Prelude.{ℕ, ◌+◌, ◌≤◌, ◌≡◌, List, true, not, arith}
use awg_easy_rs.Prelude.Ints.{ℤ, pos, negsuc, eqz, ◌+ℤ◌}
use awg_easy_rs.Rng.{Draw, ◌>>=◌, range_excl_i64}
use awg_easy_rs.Rng.Yields.{Yields, Yields-bind, Yields-return}
use awg_easy_rs.Proxy.Params.{HRange}
use awg_easy_rs.Wg.Params.{AwgParams}
use awg_easy_rs.Wg.Splits.{draw_splits}
use awg_easy_rs.Wg.Generate.{
  gen_incl, repeat, max_int, gen_pair, is_apart, window, random_hex, h_min, h_max,
  generate_awg_params,
}
use awg_easy_rs.Wg.Generate.Draws.{
  Between, Yields-gen_incl, Yields-repeat, Yields-pair, Yields-window, IsHex, Yields-random_hex,
}
use awg_easy_rs.Wg.Generate.Headers.{AreEight, AreWindows, Cut-windows, Yields-draw_splits}
use awg_easy_rs.Wg.Generate.Shape.{IsGenerated, nat, IsHeader, assembled}

max_int_above : (j : ℕ) → 8 ≤ j → max_int (pos j +ℤ pos 1) (pos 1) ≡ pos (j + 1)
unfolding max_int
max_int_above j h = ground arith

Yields-jmax :
    (jmin : ℤ)
    → Between 8 80 jmin
    → Yields (Between (nat jmin + 1) 1279) (gen_incl (max_int (jmin +ℤ pos 1) (pos 1)) (pos 1279))
Yields-jmax (pos j) b =
    rw (max_int_above j b.0)
      (Yields-gen_incl (j + 1) 1279 (let h = b.1 in omega arith) (omega arith))
Yields-jmax (negsuc j) b = absurd b

headers_after :
    (q : List ℤ)
    → AreEight q
    → (f : List ℕ → List ℕ → List ℕ → List ℕ → Draw AwgParams)
    → ((a b c d : HRange) (h1 h2 h3 h4 : List ℕ)
        → AreWindows a b c d
        → IsHeader a h1 × IsHeader b h2 × IsHeader c h3 × IsHeader d h4
        → Yields IsGenerated (f h1 h2 h3 h4))
    → Yields IsGenerated (
        window q 0 >>= λ h1.
        window q 1 >>= λ h2. window q 2 >>= λ h3. window q 3 >>= λ h4. f h1 h2 h3 h4)
headers_after q eight f k =
    let (a, b, c, d, w, ca, cb, cc', cd) = Cut-windows q eight in
    Yields-bind (IsHeader a) IsGenerated (window q 0) _ (Yields-window q 0 a.lo a.hi ca.0 ca.1)
      (λ h1 e1.
        Yields-bind (IsHeader b) IsGenerated (window q 1) _ (Yields-window q 1 b.lo b.hi cb.0 cb.1)
          (λ h2 e2.
            Yields-bind (IsHeader c) IsGenerated (window q 2) _
              (Yields-window q 2 c.lo c.hi cc'.0 cc'.1)
              (λ h3 e3.
                Yields-bind (IsHeader d) IsGenerated (window q 3) _
                  (Yields-window q 3 d.lo d.hi cd.0 cd.1)
                  (λ h4 e4. k a b c d h1 h2 h3 h4 w (e1, e2, e3, e4)))))

-- Parameters that the generator returns, from whatever random bytes, are in the ranges it
-- documents: junk counts and sizes, paddings that keep the distance of 56, four header ranges one
-- behind the other, and 48 bytes of random digits.
pub generate_awg_params-IsGenerated : Yields IsGenerated generate_awg_params
unfolding generate_awg_params
generate_awg_params-IsGenerated =
    Yields-bind (Between 4 12) IsGenerated (gen_incl (pos 4) (pos 12)) _
      (Yields-gen_incl 4 12 (omega arith) (omega arith))
      (λ jc pjc.
        Yields-bind (Between 8 80) IsGenerated (gen_incl (pos 8) (pos 80)) _
          (Yields-gen_incl 8 80 (omega arith) (omega arith))
          (λ jmin pjmin.
            Yields-bind (Between (nat jmin + 1) 1279) IsGenerated
              (gen_incl (max_int (jmin +ℤ pos 1) (pos 1)) (pos 1279)) _ (Yields-jmax jmin pjmin)
              (λ jmax pjmax.
                Yields-bind (Between 15 150) IsGenerated (gen_incl (pos 15) (pos 150)) _
                  (Yields-gen_incl 15 150 (omega arith) (omega arith))
                  (λ s1 p1.
                    Yields-bind (λ s2. Between 15 150 s2 × (not (eqz s2 (s1 +ℤ pos 56)) ≡ true))
                      IsGenerated
                      (repeat (gen_incl (pos 15) (pos 150)) (λ c. not (eqz c (s1 +ℤ pos 56)))) _
                      (Yields-repeat (Between 15 150) (gen_incl (pos 15) (pos 150))
                        (λ c. not (eqz c (s1 +ℤ pos 56)))
                        (Yields-gen_incl 15 150 (omega arith) (omega arith)))
                      (λ s2 p2.
                        Yields-bind
                          (λ s. (Between 15 150 s.0 × Between 15 150 s.1) × (is_apart s ≡ true))
                          IsGenerated (repeat gen_pair is_apart) _
                          (Yields-repeat (λ s. Between 15 150 s.0 × Between 15 150 s.1) gen_pair
                            is_apart Yields-pair)
                          (λ s p3.
                            Yields-bind AreEight IsGenerated
                              (draw_splits (range_excl_i64 h_min h_max)) _ Yields-draw_splits
                              (λ splits eight.
                                headers_after splits eight _ (λ a b c d h1 h2 h3 h4 w e.
                                  Yields-bind (IsHex 48) IsGenerated (random_hex 48) _
                                    (Yields-random_hex 48)
                                    (λ hex x. Yields-return IsGenerated _ (
                                      assembled jc jmin jmax s1 s2 s.0 s.1 a b c d h1 h2 h3 h4 hex
                                        pjc pjmin pjmax p1 p2 p3 w e x))))))))))
