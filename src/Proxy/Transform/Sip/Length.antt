-- ===== src/Proxy/Transform/Sip/Length.antt =====
-- The Content-Length line: the length that it declares is the length of the body.
use awg_easy_rs.Prelude.{
  ℕ, zero, suc, ◌+◌, ◌-◌, ◌/◌, ◌%◌, ◌≤◌, ◌<◌, ◌≡◌, ◌≢◌, ◌⊎◌, inl, inr, [], ◌∷◌, none, some, ltb,
  if◌then◌else◌, length, arith, length-append, decimal, decimal_loop,
}
use awg_easy_rs.Proxy.Transform.Sip.{digits_loop, decimal_digits, find_width}

-- The printed number has the counted digits.
length-decimal_loop : (f n k : ℕ) → n < f → length (decimal_loop f n) + k ≡ digits_loop f n (k + 1)
unfolding decimal_loop digits_loop
length-decimal_loop zero n k h = absurd (omega arith)
length-decimal_loop (suc f) n k h = ground (
  arith,
  length-append (decimal_loop f (n / 10)) ((0x30 + n % 10) ∷ []),
  length-decimal_loop f (n / 10) (k + 1),
)

pub length-decimal : (n : ℕ) → length (decimal n) ≡ decimal_digits n
unfolding decimal decimal_digits
length-decimal n = omega (arith, length-decimal_loop (suc n) n 0)

-- One to five digits.
digits_1 : (f v k : ℕ) → v < f → v < 10 → digits_loop f v k ≡ k
unfolding digits_loop
digits_1 zero v k h w = absurd (omega arith)
digits_1 (suc f) v k h w = ground arith

digits_more :
    (f v k d : ℕ)
    → v < suc f
    → 10 ≤ v
    → digits_loop f (v / 10) (k + 1) ≡ d
    → digits_loop (suc f) v k ≡ d
unfolding digits_loop
digits_more f v k d h w e = ground arith

digits_2 : (f v k : ℕ) → v < f → 10 ≤ v → v < 100 → digits_loop f v k ≡ k + 1
digits_2 zero v k h l w = absurd (omega arith)
digits_2 (suc f) v k h l w =
    digits_more f v k _ h l (digits_1 f (v / 10) (k + 1) (omega arith) (omega arith))

digits_3 : (f v k : ℕ) → v < f → 100 ≤ v → v < 1000 → digits_loop f v k ≡ k + 2
digits_3 zero v k h l w = absurd (omega arith)
digits_3 (suc f) v k h l w =
    digits_more f v k _ h (omega arith)
      (omega (arith, digits_2 f (v / 10) (k + 1) (omega arith) (omega arith) (omega arith)))

digits_4 : (f v k : ℕ) → v < f → 1000 ≤ v → v < 10000 → digits_loop f v k ≡ k + 3
digits_4 zero v k h l w = absurd (omega arith)
digits_4 (suc f) v k h l w =
    digits_more f v k _ h (omega arith)
      (omega (arith, digits_3 f (v / 10) (k + 1) (omega arith) (omega arith) (omega arith)))

digits_5 : (f v k : ℕ) → v < f → 10000 ≤ v → v < 100000 → digits_loop f v k ≡ k + 4
digits_5 zero v k h l w = absurd (omega arith)
digits_5 (suc f) v k h l w =
    digits_more f v k _ h (omega arith)
      (omega (arith, digits_4 f (v / 10) (k + 1) (omega arith) (omega arith) (omega arith)))

-- `decimal_digits` by ranges, below 100000.
abbrev pub Ranges : ℕ → ℕ → Type 0
Ranges v d =
    ((v < 10) × (d ≡ 1))
    ⊎ ((10 ≤ v) × (v < 100) × (d ≡ 2))
    ⊎ ((100 ≤ v) × (v < 1000) × (d ≡ 3))
    ⊎ ((1000 ≤ v) × (v < 10000) × (d ≡ 4))
    ⊎ ((10000 ≤ v) × (d ≡ 5))

pub decimal_digits-Ranges : (v : ℕ) → v < 100000 → Ranges v (decimal_digits v)
unfolding decimal_digits
decimal_digits-Ranges v h = grind (
  arith,
  λ (w : v < 10). digits_1 (suc v) v 1 (omega arith) w,
  λ (l : 10 ≤ v) (w : v < 100). digits_2 (suc v) v 1 (omega arith) l w,
  λ (l : 100 ≤ v) (w : v < 1000). digits_3 (suc v) v 1 (omega arith) l w,
  λ (l : 1000 ≤ v) (w : v < 10000). digits_4 (suc v) v 1 (omega arith) l w,
  λ (l : 10000 ≤ v). digits_5 (suc v) v 1 (omega arith) l h,
)

-- A width that is found agrees with the length that it declares.
pub find_width_sound :
    (rounds digits sws pos len total header_end : ℕ)
    → find_width rounds digits sws pos len total ≡ some header_end
    → (header_end ≤ len) × (header_end ≡ pos + 19 + sws + decimal_digits (total - header_end))
unfolding find_width
find_width_sound zero digits sws pos len total he e = cc
find_width_sound (suc rounds) digits sws pos len total he e =
    ground (arith, find_width_sound rounds (digits + 1) sws pos len total he)

-- A width that agrees is found, this one or an earlier one.
find_width_complete :
    (rounds digits d sws pos len total : ℕ)
    → digits ≤ d
    → d < digits + rounds
    → pos + 19 + sws + d ≤ len
    → decimal_digits (total - (pos + 19 + sws + d)) ≡ d
    → find_width rounds digits sws pos len total ≢ none
unfolding find_width
find_width_complete zero digits d sws pos len total h k room e = absurd (omega arith)
find_width_complete (suc rounds) digits d sws pos len total h k room e =
    let same : d ≡ digits → pos + 15 + sws + digits + 4 ≡ pos + 19 + sws + d = λ q. omega arith in
    ground (arith, find_width_complete rounds (digits + 1) d sws pos len total)

-- The width to look for when t bytes stand behind the name of the header and the two line ends:
-- how many spaces, and how many digits.
pick : ℕ → ℕ × ℕ
pick t =
    if ltb t 12
    then (1, 1)
    else if ltb t 13
    then (2, 1)
    else if ltb t 103
    then (1, 2)
    else if ltb t 104
    then (2, 2)
    else if ltb t 1004
    then (1, 3)
    else if ltb t 1005
    then (2, 3)
    else if ltb t 10005
    then (1, 4)
    else if ltb t 10006
    then (2, 4)
    else (1, 5)

record IsWidth (t sws d : ℕ) : Type 0 where
  spaces : (sws ≡ 1) ⊎ (sws ≡ 2)
  some_digits : 1 ≤ d
  five_at_most : d ≤ 5
  agrees : Ranges (t - (sws + d)) d

pick-IsWidth : (t : ℕ) → 7 ≤ t → IsWidth t (pick t).0 (pick t).1
unfolding pick
pick-IsWidth t h = ground arith

Ranges-unique : (v d e : ℕ) → Ranges v d → Ranges v e → d ≡ e
Ranges-unique v d e p q = ground arith

-- With 26 bytes left in the padding, one of the two widths is found.
pub find_width_finds :
    (pos len total : ℕ)
    → pos + 26 ≤ len
    → len ≤ total
    → total < 65536
    → (find_width (decimal_digits total) 1 1 pos len total ≢ none)
      ⊎ (find_width (decimal_digits total) 1 2 pos len total ≢ none)
find_width_finds pos len total h k small =
    let t = total - (pos + 19) in
    let w = pick-IsWidth t (omega arith) in
    let d = (pick t).1 in
    let body = total - (pos + 19 + (pick t).0 + d) in
    let same : body ≡ t - ((pick t).0 + d) = omega arith in
    let e : decimal_digits body ≡ d =
      Ranges-unique body _ d (decimal_digits-Ranges body (omega arith)) (rw same w.agrees) in
    let many : d < 1 + decimal_digits total =
      ground (arith, decimal_digits-Ranges total (omega arith), w.agrees) in
    elim w.spaces [
      | inl one ↦ inl (
          find_width_complete _ 1 d 1 pos len total w.some_digits many
            (omega (arith, w.five_at_most)) (rw one at e))
      | inr two ↦ inr (
          find_width_complete _ 1 d 2 pos len total w.some_digits many
            (omega (arith, w.five_at_most)) (rw two at e))
    ]
