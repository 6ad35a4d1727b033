-- ===== src/Wg/InitSpec/Grammar.antt =====
-- src/wg/params.rs: the texts of tags that the check of an init packet accepts.
use awg_easy_rs.Prelude.{
  ℕ, zero, suc, ◌+◌, ◌-◌, ◌^◌, ◌≤◌, ◌<◌, ◌≡◌, refl, sym, ap, ◌∙◌, ◌↔◌, inl, inr, List, [], ◌∷◌,
  ◌++◌, All, some, Option-cases, false, not, ltb, ◌==◌, length, length-append, min, arith,
}
use mathlib.Core.Path.{subst}
use awg_easy_rs.Prelude.Results.{
  Result, ok, err, ◌>>=◌, ◌>>◌, fail_if, ok_inj, bind_ok, fail_if-ok, err-ok,
}
use awg_easy_rs.Prelude.Strings.{split_once}
use awg_easy_rs.Prelude.Strings.Laws.{Lacks, split_once-append, split_once-IsSplit}
use awg_easy_rs.Wg.InitSpec.Tags.{IsTag}
use awg_easy_rs.Wg.InitSpec.Check.{validate_init_tag_iff}
use awg_easy_rs.Wg.InitSpec.{
  TagError, unexpected, unclosed, validate_init_tag, named_tag, message_max_size, saturating_add,
  take_tag, spec_loop, validate_init_spec, too_large,
}

-- Tags, each with its size: `<` and `>` around the text between them.
abbrev pub spec_text : List (List ℕ × ℕ) → List ℕ
spec_text [] = []
spec_text ((inner, size) ∷ tags) = 0x3C ∷ (inner ++ (0x3E ∷ spec_text tags))

abbrev pub AreTags : List (List ℕ × ℕ) → Type 0
AreTags tags = All (λ (inner, size). Lacks 0x3E inner × IsTag inner size) tags

abbrev pub total_size : List (List ℕ × ℕ) → ℕ
total_size [] = 0
total_size ((inner, size) ∷ tags) = size + total_size tags

-- Texts of tags whose sizes together are at most 65535.
abbrev pub IsSpec : List ℕ → Type 0
IsSpec spec =
    (tags : List (List ℕ × ℕ)) × (spec ≡ spec_text tags)
    × AreTags tags
    × (total_size tags ≤ message_max_size)

saturating_add_small : (a b : ℕ) → a + b ≤ message_max_size → saturating_add a b ≡ a + b
unfolding saturating_add
saturating_add_small a b h = omega arith

-- A round at a tag.
take_tag-tag :
    (i total : ℕ) (inner : List ℕ) (size : ℕ) (behind : List ℕ)
    → validate_init_tag inner ≡ ok size
    → total + size ≤ message_max_size
    → take_tag i total (some (inner, behind)) ≡ ok (i + length inner + 2, total + size, behind)
unfolding take_tag named_tag saturating_add
take_tag-tag i total inner size behind v h =
    rw (v, saturating_add_small total size h) (ground arith)

spec_loop-tags :
    (fuel i total : ℕ) (tags : List (List ℕ × ℕ))
    → length (spec_text tags) ≤ fuel
    → AreTags tags
    → total + total_size tags ≤ message_max_size
    → spec_loop fuel i total (spec_text tags) ≡ ok tt
unfolding spec_loop
spec_loop-tags fuel i total [] h t s = refl
spec_loop-tags zero i total ((inner, size) ∷ tags) h t s = absurd (omega arith)
spec_loop-tags (suc fuel) i total ((inner, size) ∷ tags) h ((l, v), ts) s =
    rw
      (
        split_once-append 0x3E inner (spec_text tags) l,
        take_tag-tag i total inner size (spec_text tags) ((validate_init_tag_iff inner size).1 v)
            (omega arith),
      )
      (spec_loop-tags fuel (i + length inner + 2) (total + size) tags
        (omega (arith, length-append inner (0x3E ∷ spec_text tags))) ts (omega arith))

named_tag-ok :
    (inner : List ℕ) (r : Result TagError ℕ) (n : ℕ) → named_tag inner r ≡ ok n → r ≡ ok n
unfolding named_tag
named_tag-ok inner (ok m) n h = cc
named_tag-ok inner (err e) n h = cc

saturating_add_le :
    (a b : ℕ) → ltb message_max_size (saturating_add a b) ≡ false → saturating_add a b ≡ a + b
unfolding saturating_add
saturating_add_le a b h =
    let l : ¬ (message_max_size < min (a + b) (2 ^ 64 - 1)) = ground arith in omega arith

-- What a round that goes on has found.
abbrev Round : ℕ → ℕ → List ℕ → ℕ → List ℕ → Type 0
Round i total text total' text' =
    (inner : List ℕ) × (size : ℕ) × (text ≡ inner ++ (0x3E ∷ text'))
    × Lacks 0x3E inner
    × (validate_init_tag inner ≡ ok size)
    × (total' ≡ total + size)
    × (total' ≤ message_max_size)

take_tag-Round :
    (i total : ℕ) (text : List ℕ) (i' total' : ℕ) (text' : List ℕ)
    → take_tag i total (split_once 0x3E text) ≡ ok (i', total', text')
    → Round i total text total' text'
unfolding take_tag
take_tag-Round i total text i' total' text' h = elim (Option-cases (split_once 0x3E text)) [
  | inl o ↦ absurd (err-ok (unclosed i) (i', total', text') (rw o at h))
  | inr ((inner, behind), o) ↦
      let (size, v, k) =
        bind_ok (named_tag inner (validate_init_tag inner))
          (λ size.
            fail_if (ltb message_max_size (saturating_add total size))
              (too_large (saturating_add total size))
            >> ok (i + length inner + 2, saturating_add total size, behind))
          (i', total', text') (rw o at h) in
      let (u, f, e) =
        bind_ok
          (fail_if (ltb message_max_size (saturating_add total size))
            (too_large (saturating_add total size)))
          (λ t. ok (i + length inner + 2, saturating_add total size, behind)) (i', total', text')
          k in
      let q =
        ok_inj (i + length inner + 2, saturating_add total size, behind) (i', total', text') e in
      let sum : saturating_add total size ≡ total' = ap (λ t. t.1) q in
      let rest : behind ≡ text' = ap (λ t. t.2) q in
      let small =
        fail_if-ok (ltb message_max_size (saturating_add total size))
          (too_large (saturating_add total size)) u f in
      let exact = saturating_add_le total size small in
      let (t, l) = split_once-IsSplit 0x3E text (inner, behind) o in
      (
        inner,
        size,
        t ∙ ap (λ r. inner ++ (0x3E ∷ r)) rest,
        l,
        named_tag-ok inner (validate_init_tag inner) size v,
        sym sum ∙ exact,
        subst (λ k. k ≤ message_max_size) sum (not_above (saturating_add total size) small),
      )
]
  where
    not_above : (a : ℕ) → ltb message_max_size a ≡ false → a ≤ message_max_size
    not_above a h = ground arith

-- What is left of the text is made of tags that fit what is left of the size.
abbrev IsRest : ℕ → List ℕ → Type 0
IsRest total text =
    (tags : List (List ℕ × ℕ)) × (text ≡ spec_text tags)
    × AreTags tags
    × (total + total_size tags ≤ message_max_size)

one_more :
    (total total' : ℕ) (text text' : List ℕ)
    → (i : ℕ) → Round i total text total' text'
    → IsRest total' text'
    → IsRest total (0x3C ∷ text)
one_more total total' text text' i (inner, size, t, l, v, e, k) (tags, r, a, s) = (
  (inner, size) ∷ tags,
  ap (λ w. 0x3C ∷ w) (t ∙ ap (λ w. inner ++ (0x3E ∷ w)) r),
  ((l, (validate_init_tag_iff inner size).0 v), a),
  omega (arith, e, s),
)

spec_loop-IsRest :
    (fuel i total : ℕ) (text : List ℕ)
    → total ≤ message_max_size
    → spec_loop fuel i total text ≡ ok tt
    → IsRest total text
unfolding spec_loop
spec_loop-IsRest fuel i total [] k h = ([], refl, tt, omega arith)
spec_loop-IsRest zero i total (b ∷ text) k h = absurd (err-ok (unexpected b i) tt h)
spec_loop-IsRest (suc fuel) i total (b ∷ text) k h =
    let (u, f, g) =
      bind_ok (fail_if (not (b == 0x3C)) (unexpected b i))
        (λ t. take_tag i total (split_once 0x3E text) >>= λ (i', total', text').
          spec_loop fuel i' total' text')
        tt h in
    let ((i', total', text'), r, n) =
      bind_ok (take_tag i total (split_once 0x3E text))
        (λ (i', total', text'). spec_loop fuel i' total' text') tt g in
    let round = take_tag-Round i total text i' total' text' r in
    let rest = spec_loop-IsRest fuel i' total' text' round.6 n in
    subst (λ c. IsRest total (c ∷ text))
      (sym (is_open b (fail_if-ok (not (b == 0x3C)) (unexpected b i) u f)))
      (one_more total total' text text' i round rest)
  where
    is_open : (b : ℕ) → not (b == 0x3C) ≡ false → b ≡ 0x3C
    is_open b h = ground arith

-- The check accepts a text exactly where it is a row of `<…>` tags, nothing between them, with sizes
-- that together are at most 65535: `t` or `c` of four bytes, `b` and the bytes as pairs of
-- hexadecimal digits behind `0x`, `0X` or neither, and `r`, `rc` or `rd` with a number of bytes that
-- `u64` reads, of 1 to 1000.
pub validate_init_spec_iff : (spec : List ℕ) → (validate_init_spec spec ≡ ok tt) ↔ IsSpec spec
unfolding validate_init_spec
validate_init_spec_iff spec = (
  (λ h.
      let (tags, t, a, s) = spec_loop-IsRest (length spec) 0 0 spec (omega arith) h in
      (tags, t, a, omega (arith, s))),
  (λ (tags, t, a, s).
      subst (λ w. spec_loop (length w) 0 0 w ≡ ok tt) (sym t)
        (spec_loop-tags (length (spec_text tags)) 0 0 tags (omega arith) a (omega (arith, s)))),
)
