-- ===== src/Proxy/Supervisor/Headers.antt =====
-- src/proxy/supervisor.rs: the header fields that `norm_h` makes readable for the parser.
use awg_easy_rs.Prelude.{
  ℕ, ◌≡◌, refl, ◌∙◌, ap, inl, inr, List, [], ◌∷◌, ◌++◌, All, none, some, Bool-cases, decimal,
  ==_iff, ◌==◌, ◌≢◌, arith,
}
use awg_easy_rs.Prelude.Results.{ok}
use awg_easy_rs.Prelude.Numerals.{parse_u32, u32_bound}
use awg_easy_rs.Prelude.Numerals.Laws.{
  IsDigit, decimal_digits, decimal_nonempty, parse_decimal, All-append,
}
use awg_easy_rs.Prelude.Strings.{split_once, strip_prefix}
use awg_easy_rs.Proxy.Params.{HRange}
use awg_easy_rs.Proxy.Config.{Key, parse_h_range, split_range, ordered_range}
use awg_easy_rs.Proxy.Config.Words.{IsWord, IsRange}
use awg_easy_rs.Proxy.Config.Text.{IsGraphic, trim_graphic}
use awg_easy_rs.Proxy.Responder.Sip.Lines.{trim}
use awg_easy_rs.Proxy.Supervisor.{
  norm_h, norm_split, norm_number, token_value, norm_trimmed, norm_range, printed_range, hex_prefix,
  parse_h_token,
}
use awg_easy_rs.Proxy.Supervisor.Params.{Shows, decimal-IsGraphic}

digits_split :
    (text rest : List ℕ)
    → All IsDigit text
    → split_once 0x2D (text ++ (0x2D ∷ rest)) ≡ some (text, rest)
unfolding split_once
digits_split [] rest d = refl
digits_split (b ∷ text) rest (d, ds) = elim (Bool-cases (b == 0x2D)) [
  | inl y ↦ absurd (let e = (==_iff b 0x2D).0 y in let l = d.0 in omega arith)
  | inr n ↦ rw (n, split_once, digits_split text rest ds) refl
]

digits_unsplit : (text : List ℕ) → All IsDigit text → split_once 0x2D text ≡ none
unfolding split_once
digits_unsplit [] d = refl
digits_unsplit (b ∷ text) (d, ds) = elim (Bool-cases (b == 0x2D)) [
  | inl y ↦ absurd (let e = (==_iff b 0x2D).0 y in let l = d.0 in omega arith)
  | inr n ↦ rw (n, split_once, digits_unsplit text ds) refl
]

digits-hex_prefix : (text : List ℕ) → All IsDigit text → hex_prefix text ≡ none
unfolding hex_prefix strip_prefix
digits-hex_prefix [] d = refl
digits-hex_prefix (a ∷ []) d = ground arith
digits-hex_prefix (a ∷ b ∷ text) (d, (e, es)) = ground arith

parse_h_token-decimal : (n : ℕ) → IsWord n → parse_h_token (decimal n) ≡ some n
unfolding parse_h_token parse_u32 token_value
parse_h_token-decimal n h =
    ap (λ t. token_value t (hex_prefix t)) (trim_graphic (decimal n) (decimal-IsGraphic n))
    ∙ ap (token_value (decimal n)) (digits-hex_prefix (decimal n) (decimal_digits n))
    ∙ parse_decimal u32_bound n h

printed_range-IsGraphic : (a b : ℕ) → All IsGraphic (printed_range a b)
printed_range-IsGraphic a b =
    All-append IsGraphic (decimal a) (0x2D ∷ decimal b) (decimal-IsGraphic a)
      ((omega arith, omega arith), decimal-IsGraphic b)

norm_trimmed_nonempty : (h : List ℕ) → h ≢ [] → norm_trimmed h ≡ norm_split h (split_once 0x2D h)
unfolding norm_trimmed
norm_trimmed_nonempty [] n = absurd (n refl)
norm_trimmed_nonempty (b ∷ h) n = refl

append_nonempty : (xs : List ℕ) (y : ℕ) (ys : List ℕ) → xs ++ (y ∷ ys) ≢ []
append_nonempty [] y ys h = cc
append_nonempty (x ∷ xs) y ys h = cc

-- A printed range, or a printed number, is left as it is.
norm_h-range : (a b : ℕ) → IsWord a → IsWord b → norm_h (printed_range a b) ≡ printed_range a b
unfolding norm_h norm_split norm_range
norm_h-range a b h k =
    ap norm_trimmed (trim_graphic (printed_range a b) (printed_range-IsGraphic a b))
    ∙ norm_trimmed_nonempty (printed_range a b) (append_nonempty (decimal a) 0x2D (decimal b))
    ∙ ap (norm_split (printed_range a b)) (digits_split (decimal a) (decimal b) (decimal_digits a))
    ∙ ap (λ o. norm_range (printed_range a b) o (parse_h_token (decimal b)))
        (parse_h_token-decimal a h)
    ∙ ap (λ o. norm_range (printed_range a b) (some a) o) (parse_h_token-decimal b k)

norm_h-number : (a : ℕ) → IsWord a → norm_h (decimal a) ≡ decimal a
unfolding norm_h norm_split norm_number
norm_h-number a h =
    ap norm_trimmed (trim_graphic (decimal a) (decimal-IsGraphic a))
    ∙ norm_trimmed_nonempty (decimal a) (decimal_nonempty a)
    ∙ ap (norm_split (decimal a)) (digits_unsplit (decimal a) (decimal_digits a))
    ∙ ap (norm_number (decimal a)) (parse_h_token-decimal a h)

parse_trimmed : (a : ℕ) → IsWord a → parse_u32 (trim (decimal a)) ≡ some a
unfolding parse_u32
parse_trimmed a h =
    ap parse_u32 (trim_graphic (decimal a) (decimal-IsGraphic a)) ∙ parse_decimal u32_bound a h

pub parse_h_range-printed :
    (k : Key) (r : HRange) → IsRange r → parse_h_range k (printed_range r.lo r.hi) ≡ ok r
unfolding parse_h_range split_range ordered_range
parse_h_range-printed k r (h, w) =
    ap (split_range k (printed_range r.lo r.hi))
      (digits_split (decimal r.lo) (decimal r.hi) (decimal_digits r.lo))
    ∙ rw (parse_trimmed r.lo (omega arith), parse_trimmed r.hi w) (ground arith)

-- A header field with a printed range shows that range.
pub printed_range-Shows : (r : HRange) → IsRange r → Shows (norm_h (printed_range r.lo r.hi)) r
printed_range-Shows r (h, w) = rw (norm_h-range r.lo r.hi (omega arith) w) (record {
  graphic = printed_range-IsGraphic r.lo r.hi;
  reads = λ k. parse_h_range-printed k r (h, w);
})

parse_h_range-number :
    (k : Key) (a : ℕ) → IsWord a → parse_h_range k (decimal a) ≡ ok (record { lo = a; hi = a })
unfolding parse_h_range split_range parse_u32
parse_h_range-number k a h =
    ap (split_range k (decimal a)) (digits_unsplit (decimal a) (decimal_digits a))
    ∙ rw (parse_decimal u32_bound a h) refl

pub decimal-Shows : (a : ℕ) → IsWord a → Shows (norm_h (decimal a)) (record { lo = a; hi = a })
decimal-Shows a h =
    rw (norm_h-number a h)
      (record { graphic = decimal-IsGraphic a; reads = λ k. parse_h_range-number k a h })
