-- ===== src/Proxy/Config/Words.antt =====
-- src/proxy/config.rs: what the parser has read so far fits its machine words.
use awg_easy_rs.Prelude.{
  ℕ, ◌≤◌, ◌<◌, ◌≡◌, inl, inr, List, [], ◌∷◌, All, Option, none, some, Bool-cases, Option-cases, map,
  ◌==◌, ◌||◌, Bool, codes, true, false, arith,
}
use awg_easy_rs.Prelude.Results.{Result, ok, err, ◌>>=◌, Result-cases}
use awg_easy_rs.Prelude.Numerals.{parse_u32, u32_bound}
use awg_easy_rs.Prelude.Numerals.Laws.{from_str_radix-lt}
use awg_easy_rs.Prelude.Strings.{split_once}
use awg_easy_rs.Proxy.Params.{HRange}
use awg_easy_rs.Proxy.Responder.Sip.Lines.{trim}
use awg_easy_rs.Proxy.Responder.Detect.{to_ascii_lowercase}
use awg_easy_rs.Proxy.Responder.Sip.Request.{eq_ignore_ascii_case}
use awg_easy_rs.Proxy.Config.{
  Key, key_jc, key_jmin, key_jmax, key_s1, key_s2, key_s3, key_s4, key_h1, key_h2, key_h3, key_h4,
  ConfigError, parse_number, parse_h_range, split_range, ordered_range, Draft, set_value, set_entry,
  take_entry, take_config_lines, find_key, key_names, starts_with_bracket,
}

abbrev pub IsWord : ℕ → Type 0
IsWord n = n < u32_bound

abbrev pub IsRange : HRange → Type 0
IsRange r = (r.lo ≤ r.hi) × IsWord r.hi

parse_u32-IsWord : (text : List ℕ) (n : ℕ) → parse_u32 text ≡ some n → IsWord n
unfolding parse_u32
parse_u32-IsWord text n h = from_str_radix-lt 10 u32_bound n text (ground arith) h

parse_number-IsWord : (k : Key) (text : List ℕ) (n : ℕ) → parse_number k text ≡ ok n → IsWord n
unfolding parse_number
parse_number-IsWord k text n h = elim (Option-cases (parse_u32 text)) [
  | inl e ↦ ground arith
  | inr (m, e) ↦ ground (arith, parse_u32-IsWord text m e)
]

parse_h_range-IsRange :
    (k : Key) (text : List ℕ) (r : HRange) → parse_h_range k text ≡ ok r → IsRange r
unfolding parse_h_range split_range ordered_range
parse_h_range-IsRange k text r h = elim (Option-cases (split_once 0x2D text)) [
  | inl e ↦ elim (Option-cases (parse_u32 text)) [
    | inl n ↦ ground arith
    | inr (v, n) ↦ ground (arith, parse_u32-IsWord text v n)
  ]
  | inr ((a, b), e) ↦ elim (Option-cases (parse_u32 (trim a))) [
    | inl n ↦ ground arith
    | inr (v, n) ↦ elim (Option-cases (parse_u32 (trim b))) [
      | inl o ↦ ground arith
      | inr (w, o) ↦ ground (arith, parse_u32-IsWord (trim b) w o)
    ]
  ]
]

-- What the loop has read so far.
abbrev pub OptAll {ℓ κ} : {A : Type ℓ} → (A → Type κ) → Option A → Type κ
OptAll P none = Unit
OptAll P (some a) = P a

abbrev pub DraftHolds : Draft → Type 0
DraftHolds d =
    All (OptAll IsWord) (d.jc ∷ d.jmin ∷ d.jmax ∷ d.s1 ∷ d.s2 ∷ d.s3 ∷ d.s4 ∷ [])
    × All (OptAll IsRange) (d.h1 ∷ d.h2 ∷ d.h3 ∷ d.h4 ∷ [])

-- The result of a step, where there is one.
abbrev pub WhenOk {ℓ κ} : {E : Type 0} {A : Type ℓ} → (A → Type κ) → Result E A → Type κ
WhenOk P (ok a) = P a
WhenOk P (err e) = Unit

when_number :
    (k : Key) (v : List ℕ) (f : ℕ → Draft)
    → ((n : ℕ) → IsWord n → DraftHolds (f n))
    → WhenOk DraftHolds (parse_number k v >>= λ n. ok (f n))
when_number k v f h = elim (Result-cases (parse_number k v)) [
  | inl (n, e) ↦ rw e (h n (parse_number-IsWord k v n e))
  | inr (x, e) ↦ rw e tt
]

when_range :
    (k : Key) (v : List ℕ) (f : HRange → Draft)
    → ((r : HRange) → IsRange r → DraftHolds (f r))
    → WhenOk DraftHolds (parse_h_range k v >>= λ r. ok (f r))
when_range k v f h = elim (Result-cases (parse_h_range k v)) [
  | inl (r, e) ↦ rw e (h r (parse_h_range-IsRange k v r e))
  | inr (x, e) ↦ rw e tt
]

set_value-holds :
    (k : Key) (v : List ℕ) (d : Draft) → DraftHolds d → WhenOk DraftHolds (set_value k v d)
unfolding set_value
set_value-holds key_jc v d ((a, as'), hs) =
    when_number key_jc v (λ n. record d { jc = some n }) (λ n w. ((w, as'), hs))
set_value-holds key_jmin v d ((a, (b, bs)), hs) =
    when_number key_jmin v (λ n. record d { jmin = some n }) (λ n w. ((a, (w, bs)), hs))
set_value-holds key_jmax v d ((a, (b, (c, cs))), hs) =
    when_number key_jmax v (λ n. record d { jmax = some n }) (λ n w. ((a, (b, (w, cs))), hs))
set_value-holds key_s1 v d ((a, (b, (c, (e, es)))), hs) =
    when_number key_s1 v (λ n. record d { s1 = some n }) (λ n w. ((a, (b, (c, (w, es)))), hs))
set_value-holds key_s2 v d ((a, (b, (c, (e, (f, fs))))), hs) =
    when_number key_s2 v (λ n. record d { s2 = some n }) (λ n w. ((a, (b, (c, (e, (w, fs))))), hs))
set_value-holds key_s3 v d ((a, (b, (c, (e, (f, (g, gs)))))), hs) =
    when_number key_s3 v (λ n. record d { s3 = some n })
      (λ n w. ((a, (b, (c, (e, (f, (w, gs)))))), hs))
set_value-holds key_s4 v d ((a, (b, (c, (e, (f, (g, (i, is))))))), hs) =
    when_number key_s4 v (λ n. record d { s4 = some n })
      (λ n w. ((a, (b, (c, (e, (f, (g, (w, is))))))), hs))
set_value-holds key_h1 v d (as', (h, hs)) =
    when_range key_h1 v (λ r. record d { h1 = some r }) (λ r w. (as', (w, hs)))
set_value-holds key_h2 v d (as', (h, (i, is))) =
    when_range key_h2 v (λ r. record d { h2 = some r }) (λ r w. (as', (h, (w, is))))
set_value-holds key_h3 v d (as', (h, (i, (j, js)))) =
    when_range key_h3 v (λ r. record d { h3 = some r }) (λ r w. (as', (h, (i, (w, js)))))
set_value-holds key_h4 v d (as', (h, (i, (j, (k, ks))))) =
    when_range key_h4 v (λ r. record d { h4 = some r }) (λ r w. (as', (h, (i, (j, (w, ks))))))

pub WhenOk_bind {ℓ} :
    {A B : Type 0} (P : A → Type ℓ) (Q : B → Type ℓ) (r : Result ConfigError A)
    (f : A → Result ConfigError B)
    → WhenOk P r
    → ((a : A) → P a → WhenOk Q (f a))
    → WhenOk Q (r >>= f)
WhenOk_bind P Q (ok a) f h k = k a h
WhenOk_bind P Q (err e) f h k = tt

set_entry-holds :
    (entry : List ℕ × List ℕ) (d : Draft) → DraftHolds d → WhenOk DraftHolds (set_entry entry d)
unfolding set_entry
set_entry-holds (key, value) d h =
    elim (Option-cases (find_key key_names (map to_ascii_lowercase (trim key)))) [
      | inl n ↦ rw (n, set_entry) h
      | inr (k, e) ↦ rw (e, set_entry) (set_value-holds k (trim value) d h)
    ]

take_entry-holds :
    (line : List ℕ) (d : Draft) → DraftHolds d → WhenOk DraftHolds (take_entry line d)
unfolding take_entry
take_entry-holds [] d h = h
take_entry-holds (b ∷ line) d h = elim (Bool-cases (b == 0x23 || b == 0x3B)) [
  | inl y ↦ rw y h
  | inr n ↦ rw n (elim (Option-cases (split_once 0x3D (b ∷ line))) [
    | inl o ↦ rw o h
    | inr (entry, o) ↦ rw o (set_entry-holds entry d h)
  ])
]

pub take_config_lines-holds :
    (flag : Bool) (ls : List (List ℕ)) (d : Draft)
    → DraftHolds d
    → WhenOk DraftHolds (take_config_lines flag ls d)
unfolding take_config_lines
take_config_lines-holds flag [] d h = h
take_config_lines-holds false (l ∷ ls) d h = elim (Bool-cases (starts_with_bracket (trim l))) [
  | inl y ↦
      rw (y, take_config_lines)
        (take_config_lines-holds (eq_ignore_ascii_case (codes "[interface]") (trim l)) ls d h)
  | inr n ↦ rw (n, take_config_lines) (take_config_lines-holds false ls d h)
]
take_config_lines-holds true (l ∷ ls) d h = elim (Bool-cases (starts_with_bracket (trim l))) [
  | inl y ↦
      rw (y, take_config_lines)
        (take_config_lines-holds (eq_ignore_ascii_case (codes "[interface]") (trim l)) ls d h)
  | inr n ↦
      rw (n, take_config_lines)
        (WhenOk_bind DraftHolds DraftHolds (take_entry (trim l) d) (take_config_lines true ls)
          (take_entry-holds (trim l) d h) (take_config_lines-holds true ls))
]
