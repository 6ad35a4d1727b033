-- ===== src/Prelude/Buffers.antt =====
-- Writes into a byte slice. A slice expression out of range panics in Rust, and is `none` here.
use Prim.Native.Nat.{ℕ, ◌+◌, ◌-◌, ◌≤◌}
use mathlib.Core.Path.{refl, ◌≡◌, ap, ◌∙◌}
use mathlib.Core.List.{append_assoc, [], List, ◌++◌}
use mathlib.Core.Option.{Option, none, some}
use native.Mathlib.Omega.{arith}
use awg_easy_rs.Prelude.Options.{◌>>=◌}
use awg_easy_rs.Prelude.Tests.{leb, if◌then◌else◌}
use awg_easy_rs.Prelude.Lists.{
  length, take, drop, replicate, length-append, length-take, length-drop, length-replicate,
  take-append, drop-append_add,
}

-- `buf[o..o + src.len()].copy_from_slice(src)`
unfoldable pub copy_at : ℕ → List ℕ → List ℕ → Option (List ℕ)
copy_at o src buf =
    if leb (o + length src) (length buf)
    then some (take o buf ++ (src ++ drop (o + length src) buf))
    else none

-- `for b in buf[o..].iter_mut() { *b = v; }`
unfoldable pub fill_from : ℕ → ℕ → List ℕ → Option (List ℕ)
fill_from o v buf =
    if leb o (length buf) then some (take o buf ++ replicate (length buf - o) v) else none

-- `&data[lo..hi]`
unfoldable pub slice : ℕ → ℕ → List ℕ → Option (List ℕ)
slice lo hi xs =
    if leb lo hi
    then (if leb hi (length xs) then some (take (hi - lo) (drop lo xs)) else none)
    else none

-- Within range a copy keeps what stands before it and the length.
pub copy_at-append :
    (o : ℕ) (src pre rest : List ℕ)
    → o ≡ length pre
    → length src ≤ length rest
    → copy_at o src (pre ++ rest) ≡ some (pre ++ (src ++ drop (length src) rest))
unfolding copy_at
copy_at-append o src pre rest ho hl = ground (
  arith,
  length-append pre rest,
  take-append o pre rest ho,
  drop-append_add (o + length src) (length src) pre rest (omega arith),
)

pub fill_from-append :
    (o v : ℕ) (pre rest : List ℕ)
    → o ≡ length pre
    → fill_from o v (pre ++ rest) ≡ some (pre ++ replicate (length rest) v)
unfolding fill_from
fill_from-append o v pre rest ho = ground (
  arith,
  length-append pre rest,
  take-append o pre rest ho,
  ap (λ n. replicate n v) (the_rest (length pre) (length rest)),
)
  where
    the_rest : (a b : ℕ) → a + b - a ≡ b
    the_rest a b = omega arith

pub copy_at-length :
    (o : ℕ) (src buf : List ℕ)
    → o + length src ≤ length buf
    → (out : List ℕ) × (copy_at o src buf ≡ some out) × (length out ≡ length buf)
unfolding copy_at
copy_at-length o src buf h = (
  take o buf ++ (src ++ drop (o + length src) buf),
  ground arith,
  omega (
    arith,
    length-append (take o buf) (src ++ drop (o + length src) buf),
    length-append src (drop (o + length src) buf),
    length-take o buf,
    length-drop (o + length src) buf,
  ),
)

pub fill_from-length :
    (o v : ℕ) (buf : List ℕ)
    → o ≤ length buf
    → (out : List ℕ) × (fill_from o v buf ≡ some out) × (length out ≡ length buf)
unfolding fill_from
fill_from-length o v buf h = (
  take o buf ++ replicate (length buf - o) v,
  ground arith,
  omega (
    arith,
    length-append (take o buf) (replicate (length buf - o) v),
    length-take o buf,
    length-replicate (length buf - o) v,
  ),
)

-- The same with the written part gathered on the left.
copy_at_next :
    (o : ℕ) (src pre rest : List ℕ)
    → o ≡ length pre
    → length src ≤ length rest
    → copy_at o src (pre ++ rest) ≡ some ((pre ++ src) ++ drop (length src) rest)
copy_at_next o src pre rest ho hl = rw (append_assoc pre src) (copy_at-append o src pre rest ho hl)

-- Three pieces written one behind the other, and zeros behind them.
pub copy_three :
    (o₂ o₃ o₄ : ℕ) (a b c buf : List ℕ)
    → o₂ ≡ length a
    → o₃ ≡ length a + length b
    → o₄ ≡ length a + length b + length c
    → o₄ ≤ length buf
    → (copy_at 0 a buf >>= λ p. copy_at o₂ b p >>= λ q. copy_at o₃ c q >>= λ r. fill_from o₄ 0 r)
      ≡ some (a ++ (b ++ (c ++ replicate (length buf - o₄) 0)))
copy_three o₂ o₃ o₄ a b c buf h₂ h₃ h₄ h =
    let r₁ = drop (length a) buf in
    let r₂ = drop (length b) r₁ in
    let r₃ = drop (length c) r₂ in
    let l₁ = length-drop (length a) buf in
    let l₂ = length-drop (length b) r₁ in
    let l₃ = length-drop (length c) r₂ in
    let e₁ = copy_at_next 0 a [] buf refl (omega arith) in
    let e₂ = copy_at_next o₂ b a r₁ h₂ (omega arith) in
    let e₃ = copy_at_next o₃ c (a ++ b) r₂ (omega (arith, length-append a b)) (omega arith) in
    let e₄ =
      fill_from-append o₄ 0 ((a ++ b) ++ c) r₃
        (omega (arith, length-append (a ++ b) c, length-append a b)) in
    let same : length r₃ ≡ length buf - o₄ = omega arith in
    rw (e₁, e₂, e₃, e₄, same) (simp append_assoc)

-- One piece written at the start, and a fill behind it.
pub copy_one :
    (o v : ℕ) (a buf : List ℕ)
    → o ≡ length a
    → o ≤ length buf
    → (copy_at 0 a buf >>= λ p. fill_from o v p) ≡ some (a ++ replicate (length buf - o) v)
copy_one o v a buf ho h =
    let r = drop (length a) buf in
    let l = length-drop (length a) buf in
    let same : length r ≡ length buf - o = omega arith in
    rw (copy_at_next 0 a [] buf refl (omega arith), fill_from-append o v a r ho, same)

-- A slice that is the first part of what is behind its start.
pub slice-drop :
    (lo hi : ℕ) (xs ys zs : List ℕ)
    → drop lo xs ≡ ys ++ zs
    → hi ≡ lo + length ys
    → hi ≤ length xs
    → slice lo hi xs ≡ some ys
unfolding slice
slice-drop lo hi xs ys zs e h inside =
    let whole : take (hi - lo) (drop lo xs) ≡ ys =
      ap (take (hi - lo)) e ∙ take-append (hi - lo) ys zs (omega arith) in
    ground (arith, whole)
