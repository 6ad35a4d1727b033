-- ===== src/Wg/InitSpec/Hex.antt =====
-- src/wg/params.rs: what the check of a tag takes for bytes in hexadecimal.
use awg_easy_rs.Prelude.{
  ℕ, suc, ◌-◌, ◌/◌, ◌%◌, ◌≡◌, refl, sym, ap, ◌∙◌, ◌⊎◌, inl, inr, List, [], ◌∷◌, ◌++◌, All, some,
  Option-cases, true, false, Bool-cases, ◌==◌, length, codes, arith,
}
use awg_easy_rs.Prelude.Results.{ok, err-ok, ok_inj}
use awg_easy_rs.Prelude.Numerals.{digit_value}
use awg_easy_rs.Prelude.Strings.{strip_prefix}
use awg_easy_rs.Wg.InitSpec.{or_else, hex_body, all_hex, hex_size}
use awg_easy_rs.Wg.InitSpec.Tags.{IsHexDigit, IsHexText}

all_hex-digits : (body : List ℕ) → all_hex body ≡ true → All IsHexDigit body
unfolding all_hex digit_value
all_hex-digits [] h = tt
all_hex-digits (b ∷ body) h = elim (Option-cases (digit_value b)) [
  | inl o ↦ absurd (impossible (rw (o, all_hex) at h))
  | inr (d, o) ↦ (digit b d o, all_hex-digits body (rw (o, all_hex) at h))
]
  where
    impossible : false ≡ true → ⊥
    impossible q = cc

    digit : (b d : ℕ) → digit_value b ≡ some d → IsHexDigit b
    digit b d e = ground arith

digits-all_hex : (body : List ℕ) → All IsHexDigit body → all_hex body ≡ true
unfolding all_hex digit_value
digits-all_hex [] h = refl
digits-all_hex (b ∷ body) (h, hs) =
    let (d, e) = value b h in rw (all_hex, e) (digits-all_hex body hs)
  where
    value : (b : ℕ) → IsHexDigit b → (d : ℕ) × (digit_value b ≡ some d)
    value b (inl (l, k)) = (b - 0x30, ground arith)
    value b (inr (inl (l, k))) = (b - 0x57, ground arith)
    value b (inr (inr (l, k))) = (b - 0x37, ground arith)

pub hex_size-ok : (body : List ℕ) (size : ℕ) → hex_size body ≡ ok size → IsHexText body size
unfolding hex_size
hex_size-ok [] size h = cc
hex_size-ok (b ∷ body) size h = elim (Bool-cases (suc (length body) % 2 == 0)) [
  | inr n ↦ absurd (err-ok _ size (rw n at h))
  | inl y ↦ elim (Bool-cases (all_hex (b ∷ body))) [
    | inr n ↦ absurd (err-ok _ size (rw (y, n) at h))
    | inl z ↦
        let half : suc (length body) / 2 ≡ size = ok_inj _ size (rw (y, z) at h) in
        let even = even_length (suc (length body)) y in
        (omega (arith, half, even), omega (arith, half, even), all_hex-digits (b ∷ body) z)
  ]
]
  where
    even_length : (n : ℕ) → (n % 2 == 0) ≡ true → n % 2 ≡ 0
    even_length n h = ground arith

pub hex_size-IsHexText : (body : List ℕ) (size : ℕ) → IsHexText body size → hex_size body ≡ ok size
unfolding hex_size
hex_size-IsHexText [] size (l, e, h) = absurd (omega (arith, l, e))
hex_size-IsHexText (b ∷ body) size (l, e, h) =
    let even : suc (length body) % 2 ≡ 0 = omega (arith, e) in
    let half : suc (length body) / 2 ≡ size = omega (arith, e) in
    rw (even, digits-all_hex (b ∷ body) h) (ap ok half)

strip_prefix-some :
    (word text rest : List ℕ) → strip_prefix word text ≡ some rest → text ≡ word ++ rest
unfolding strip_prefix
strip_prefix-some [] text rest h = cc
strip_prefix-some (w ∷ word) [] rest h = cc
strip_prefix-some (w ∷ word) (b ∷ text) rest h = ground (arith, strip_prefix-some word text rest)

-- The three spellings of the digits.
pub hex_body-cases :
    (hex : List ℕ)
    → (hex ≡ codes "0x" ++ hex_body hex)
      ⊎ ((hex ≡ codes "0X" ++ hex_body hex) ⊎ (hex ≡ hex_body hex))
unfolding hex_body or_else
hex_body-cases hex = elim (Option-cases (strip_prefix (codes "0x") hex)) [
  | inr (rest, o) ↦ inl (
      strip_prefix-some (codes "0x") hex rest o
      ∙ ap (λ r. codes "0x" ++ or_else r (or_else (strip_prefix (codes "0X") hex) hex)) (sym o))
  | inl n ↦ elim (Option-cases (strip_prefix (codes "0X") hex)) [
    | inr (rest, o) ↦ inr (inl (rw (n, o) (strip_prefix-some (codes "0X") hex rest o)))
    | inl m ↦ inr (inr (rw (n, m) refl))
  ]
]

-- No digit is an `x`, so digits have no prefix.
hex_body-digits : (body : List ℕ) → All IsHexDigit body → hex_body body ≡ body
unfolding hex_body or_else strip_prefix
hex_body-digits [] h = refl
hex_body-digits (b ∷ []) h = ground arith
hex_body-digits (b ∷ (c ∷ body)) (h, (k, hs)) = rw (lower c k, upper c k) (ground arith)
  where
    lower : (c : ℕ) → IsHexDigit c → (0x78 == c) ≡ false
    lower c k = ground arith

    upper : (c : ℕ) → IsHexDigit c → (0x58 == c) ≡ false
    upper c k = ground arith

pub hex_body-IsStatic :
    (hex body : List ℕ)
    → All IsHexDigit body
    → (hex ≡ codes "0x" ++ body) ⊎ ((hex ≡ codes "0X" ++ body) ⊎ (hex ≡ body))
    → hex_body hex ≡ body
unfolding hex_body or_else strip_prefix
hex_body-IsStatic hex body d (inl e) = rw e refl
hex_body-IsStatic hex body d (inr (inl e)) = rw e refl
hex_body-IsStatic hex body d (inr (inr e)) = ap hex_body e ∙ hex_body-digits body d
