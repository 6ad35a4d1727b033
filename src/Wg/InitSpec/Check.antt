-- ===== src/Wg/InitSpec/Check.antt =====
-- src/wg/params.rs: the check of a tag accepts the tags.
use awg_easy_rs.Prelude.{
  ℕ, ◌≤◌, ◌≡◌, refl, sym, ap, ◌∙◌, ◌↔◌, ◌⊎◌, inl, inr, List, ◌∷◌, ◌++◌, none, some, Option-cases,
  false, Bool-cases, ltb, ◌==◌, codes, arith,
}
use mathlib.Core.Path.{subst}
use awg_easy_rs.Prelude.Results.{ok, err-ok, ok_inj}
use awg_easy_rs.Prelude.Numerals.{parse_u64}
use awg_easy_rs.Prelude.Strings.{same_text, split_once}
use awg_easy_rs.Prelude.Strings.Laws.{split_once-IsSplit, same_text_iff}
use awg_easy_rs.Proxy.Responder.Sip.Lines.{trim}
use awg_easy_rs.Wg.InitSpec.{
  Kind, four_bytes, static_bytes, random_bytes, other_kind, kind_of, hex_body, hex_size, count_size,
  tag_size, split_tag, validate_init_tag,
}
use awg_easy_rs.Wg.InitSpec.Tags.{IsTag}
use awg_easy_rs.Wg.InitSpec.Hex.{hex_size-ok, hex_size-IsHexText, hex_body-cases, hex_body-IsStatic}

-- The words of each kind of the match.
abbrev IsWord : List ℕ → Kind → Type 0
IsWord kind four_bytes = (codes "t" ≡ kind) ⊎ (codes "c" ≡ kind)
IsWord kind static_bytes = codes "b" ≡ kind
IsWord kind random_bytes = (codes "r" ≡ kind) ⊎ ((codes "rc" ≡ kind) ⊎ (codes "rd" ≡ kind))
IsWord kind other_kind = Unit {0}

kind_of-IsWord : (kind : List ℕ) → IsWord kind (kind_of kind)
unfolding kind_of
kind_of-IsWord kind = elim (Bool-cases (same_text (codes "t") kind)) [
  | inl y ↦ rw y (inl ((same_text_iff (codes "t") kind).0 y))
  | inr t ↦ elim (Bool-cases (same_text (codes "c") kind)) [
    | inl y ↦ rw (t, y) (inr ((same_text_iff (codes "c") kind).0 y))
    | inr c ↦ elim (Bool-cases (same_text (codes "b") kind)) [
      | inl y ↦ rw (t, c, y) ((same_text_iff (codes "b") kind).0 y)
      | inr b ↦ elim (Bool-cases (same_text (codes "r") kind)) [
        | inl y ↦ rw (t, c, b, y) (inl ((same_text_iff (codes "r") kind).0 y))
        | inr r ↦ elim (Bool-cases (same_text (codes "rc") kind)) [
          | inl y ↦ rw (t, c, b, r, y) (inr (inl ((same_text_iff (codes "rc") kind).0 y)))
          | inr rc ↦ elim (Bool-cases (same_text (codes "rd") kind)) [
            | inl y ↦ rw (t, c, b, r, rc, y) (inr (inr ((same_text_iff (codes "rd") kind).0 y)))
            | inr rd ↦ rw (t, c, b, r, rc, rd) tt
          ]
        ]
      ]
    ]
  ]
]

count_size-ok :
    (num : List ℕ) (size : ℕ)
    → count_size num ≡ ok size
    → (parse_u64 num ≡ some size) × (1 ≤ size) × (size ≤ 1000)
unfolding count_size
count_size-ok num size h = elim (Option-cases (parse_u64 num)) [
  | inl o ↦ absurd (err-ok _ size (rw o at h))
  | inr (n, o) ↦ elim (Bool-cases (n == 0)) [
    | inl y ↦ absurd (err-ok _ size (rw (o, y) at h))
    | inr z ↦ elim (Bool-cases (ltb 1000 n)) [
      | inl y ↦ absurd (err-ok _ size (rw (o, z, y) at h))
      | inr l ↦
          let e : n ≡ size = ok_inj n size (rw (o, z, l) at h) in
          (o ∙ ap some e, subst (λ k. 1 ≤ k) e (positive n z), subst (λ k. k ≤ 1000) e (small n l))
    ]
  ]
]
  where
    positive : (n : ℕ) → (n == 0) ≡ false → 1 ≤ n
    positive n h = ground arith

    small : (n : ℕ) → ltb 1000 n ≡ false → n ≤ 1000
    small n h = ground arith

-- What follows the word.
bare :
    (inner : List ℕ) (size : ℕ) (k : Kind)
    → IsWord inner k
    → tag_size inner k none ≡ ok size
    → IsTag inner size
unfolding tag_size
bare inner size four_bytes (inl w) h = inl (inl (sym w), sym (ok_inj 4 size h))
bare inner size four_bytes (inr w) h = inl (inr (sym w), sym (ok_inj 4 size h))
bare inner size static_bytes w h = absurd (err-ok _ size h)
bare inner size random_bytes w h = absurd (err-ok _ size h)
bare inner size other_kind w h = absurd (err-ok _ size h)

with_arg :
    (inner kind arg : List ℕ) (size : ℕ) (k : Kind)
    → inner ≡ kind ++ (0x20 ∷ arg)
    → IsWord kind k
    → tag_size kind k (some (trim arg)) ≡ ok size
    → IsTag inner size
unfolding tag_size
with_arg inner kind arg size four_bytes e w h = absurd (err-ok _ size h)
with_arg inner kind arg size static_bytes e w h = inr (
    inl (
      arg,
      hex_body (trim arg),
      e ∙ ap (λ t. t ++ (0x20 ∷ arg)) (sym w),
      hex_body-cases (trim arg),
      hex_size-ok (hex_body (trim arg)) size h,
    ))
with_arg inner kind arg size random_bytes e w h =
    let (n, l, k) = count_size-ok (trim arg) size h in inr (inr (arg, word w, n, l, k))
  where
    word :
        IsWord kind random_bytes
        → (inner ≡ codes "r " ++ arg)
          ⊎ ((inner ≡ codes "rc " ++ arg) ⊎ (inner ≡ codes "rd " ++ arg))
    word (inl w) = inl (e ∙ ap (λ t. t ++ (0x20 ∷ arg)) (sym w))
    word (inr (inl w)) = inr (inl (e ∙ ap (λ t. t ++ (0x20 ∷ arg)) (sym w)))
    word (inr (inr w)) = inr (inr (e ∙ ap (λ t. t ++ (0x20 ∷ arg)) (sym w)))
with_arg inner kind arg size other_kind e w h = absurd (err-ok _ size h)

validate_init_tag-IsTag :
    (inner : List ℕ) (size : ℕ) → validate_init_tag inner ≡ ok size → IsTag inner size
unfolding validate_init_tag split_tag
validate_init_tag-IsTag inner size h = elim (Option-cases (split_once 0x20 inner)) [
  | inl o ↦ bare inner size (kind_of inner) (kind_of-IsWord inner) (rw o at h)
  | inr ((kind, arg), o) ↦
      with_arg inner kind arg size (kind_of kind) (split_once-IsSplit 0x20 inner (kind, arg) o).0
        (kind_of-IsWord kind) (rw o at h)
]

count_size-IsRandom :
    (num : List ℕ) (size : ℕ)
    → parse_u64 num ≡ some size
    → 1 ≤ size
    → size ≤ 1000
    → count_size num ≡ ok size
unfolding count_size
count_size-IsRandom num size e l k = rw e (ground arith)

IsTag-validate_init_tag :
    (inner : List ℕ) (size : ℕ) → IsTag inner size → validate_init_tag inner ≡ ok size
unfolding validate_init_tag split_tag split_once kind_of same_text tag_size
IsTag-validate_init_tag inner size (inl (inl e, n)) = rw (e, n) refl
IsTag-validate_init_tag inner size (inl (inr e, n)) = rw (e, n) refl
IsTag-validate_init_tag inner size (inr (inl (arg, body, e, s, h))) =
    rw e (ap hex_size (hex_body-IsStatic (trim arg) body h.2 s) ∙ hex_size-IsHexText body size h)
IsTag-validate_init_tag inner size (inr (inr (arg, inl e, n, l, k))) =
    rw e (count_size-IsRandom (trim arg) size n l k)
IsTag-validate_init_tag inner size (inr (inr (arg, inr (inl e), n, l, k))) =
    rw e (count_size-IsRandom (trim arg) size n l k)
IsTag-validate_init_tag inner size (inr (inr (arg, inr (inr e), n, l, k))) =
    rw e (count_size-IsRandom (trim arg) size n l k)

-- The check of a tag accepts the tags, and gives the number of their bytes.
pub validate_init_tag_iff :
    (inner : List ℕ) (size : ℕ) → (validate_init_tag inner ≡ ok size) ↔ IsTag inner size
validate_init_tag_iff inner size =
    (validate_init_tag-IsTag inner size, IsTag-validate_init_tag inner size)
