-- ===== src/Wg/Generate/Init.antt =====
-- src/wg/params.rs: the init packet of the generator passes the check of the tags.
use awg_easy_rs.Prelude.{
  ℕ, suc, ◌/◌, ◌%◌, ◌≡◌, refl, ap, ◌∙◌, inl, inr, List, [], ◌∷◌, ◌++◌, All, some, Option-cases,
  true, false, ◌==◌, length, codes, arith,
}
use awg_easy_rs.Prelude.Numerals.{
  digit_value, parse_u64, from_str_radix, digits, digits_from, to_digit,
}
use awg_easy_rs.Prelude.Results.{ok}
use awg_easy_rs.Prelude.Strings.{same_text, split_once, strip_prefix}
use awg_easy_rs.Prelude.Strings.Laws.{Lacks}
use awg_easy_rs.Proxy.Config.Text.{IsGraphic, trim_graphic}
use awg_easy_rs.Proxy.Responder.Sip.Lines.{trim, trim_front, white_len, begins}
use awg_easy_rs.Wg.InitSpec.{
  kind_of, or_else, hex_body, all_hex, hex_size, count_size, tag_size, split_tag, validate_init_tag,
}
use awg_easy_rs.Wg.InitSpec.Grammar.{IsSpec}
use awg_easy_rs.Wg.InitSpec.Check.{validate_init_tag_iff}
use awg_easy_rs.Wg.Generate.{i1_text}
use awg_easy_rs.Wg.Generate.Draws.{IsHex}

-- A hexadecimal digit is visible and is not `>`.
hex-IsGraphic : (hex : List ℕ) → all_hex hex ≡ true → All IsGraphic hex × Lacks 0x3E hex
unfolding all_hex digit_value
hex-IsGraphic [] h = (tt, tt)
hex-IsGraphic (b ∷ hex) h = elim (Option-cases (digit_value b)) [
  | inl o ↦ absurd (impossible (rw (o, all_hex) at h))
  | inr (d, o) ↦
      let (g, l) = hex-IsGraphic hex (rw (o, all_hex) at h) in
      let (v, w) = visible b d o in ((v, g), (w, l))
]
  where
    impossible : false ≡ true → ⊥
    impossible q = cc

    visible : (b d : ℕ) → digit_value b ≡ some d → IsGraphic b × ((b == 0x3E) ≡ false)
    visible b d e = ground arith

tag_r : validate_init_tag (codes "r 2") ≡ ok 2
unfolding validate_init_tag split_once split_tag kind_of tag_size same_text count_size trim
    trim_front white_len begins parse_u64 from_str_radix digits digits_from to_digit digit_value
tag_r = refl

hex_size_even : (n : ℕ) (hex : List ℕ) → IsHex (suc n) hex → hex_size hex ≡ ok (suc n)
unfolding hex_size
hex_size_even n [] (l, h) = absurd (omega (arith, l))
hex_size_even n (b ∷ hex) (l, h) = rw (even_length, h) (ap ok half)
  where
    even_length : (suc (length hex) % 2 == 0) ≡ true
    even_length = let e : suc (length hex) % 2 ≡ 0 = omega (arith, l) in rw e refl

    half : suc (length hex) / 2 ≡ suc n
    half = omega (arith, l)

tag_b :
    (n : ℕ) (hex : List ℕ)
    → IsHex (suc n) hex
    → validate_init_tag (codes "b 0x" ++ hex) ≡ ok (suc n)
unfolding validate_init_tag split_once split_tag kind_of tag_size same_text hex_body strip_prefix
    or_else
tag_b n hex x =
    ap (λ t. hex_size (hex_body t))
      (trim_graphic (codes "0x" ++ hex)
        ((omega arith, omega arith), ((omega arith, omega arith), (hex-IsGraphic hex x.1).0)))
    ∙ hex_size_even n hex x

-- The generated init packet is made of two tags, of 2 and of 48 bytes.
pub i1_text-IsSpec : (hex : List ℕ) → IsHex 48 hex → IsSpec (i1_text hex)
i1_text-IsSpec hex x = (
  (codes "r 2", 2) ∷ (codes "b 0x" ++ hex, 48) ∷ [],
  refl,
  (
    ((refl, (refl, (refl, tt))), (validate_init_tag_iff (codes "r 2") 2).0 tag_r),
    (
      (
        (refl, (refl, (refl, (refl, (hex-IsGraphic hex x.1).1)))),
        (validate_init_tag_iff (codes "b 0x" ++ hex) 48).0 (tag_b 47 hex x),
      ),
      tt,
    ),
  ),
  omega arith,
)
