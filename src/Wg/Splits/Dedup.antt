-- ===== src/Wg/Splits/Dedup.antt =====
-- src/wg/params.rs: sorting and removing repetitions leaves a strictly ascending list.
use awg_easy_rs.Prelude.{
  ◌≡◌, sym, ap, ◌∙◌, ◌⊎◌, inl, inr, List, [], ◌∷◌, All, Bool-cases, true, false, arith,
}
use mathlib.Core.Path.{subst}
use awg_easy_rs.Prelude.Ints.{ℤ, pos, negsuc, lez, eqz}
use awg_easy_rs.Wg.Splits.{insert, sort, dedup_from, dedup}
use awg_easy_rs.Wg.Splits.Order.{
  Below, Below-trans, lez-Below, lez-Above, All_map, All-insert, Ascending,
}

eqz-eq : (x y : ℤ) → eqz x y ≡ true → x ≡ y
eqz-eq (pos a) (pos b) h = ground arith
eqz-eq (pos a) (negsuc b) h = cc
eqz-eq (negsuc a) (pos b) h = cc
eqz-eq (negsuc a) (negsuc b) h = ground arith

eqz_self : (x : ℤ) → eqz x x ≡ true
eqz_self (pos a) = ground arith
eqz_self (negsuc a) = ground arith

not_self : (x y : ℤ) → x ≡ y → eqz x y ≡ false → ⊥
not_self x y e n = no_bool (sym (eqz_self x) ∙ ap (eqz x) e ∙ n)
  where
    no_bool : true ≡ false → ⊥
    no_bool q = cc

abbrev NotAbove : ℤ → ℤ → Type 0
NotAbove x y = (x ≡ y) ⊎ Below x y

NotAbove-trans : (x y z : ℤ) → NotAbove x y → NotAbove y z → NotAbove x z
NotAbove-trans x y z (inl e) k = subst (λ w. NotAbove w z) (sym e) k
NotAbove-trans x y z (inr h) (inl e) = inr (subst (Below x) e h)
NotAbove-trans x y z (inr h) (inr k) = inr (Below-trans x y z h k)

lez-NotAbove : (x y : ℤ) → lez x y ≡ true → NotAbove x y
lez-NotAbove x y h = elim (Bool-cases (eqz x y)) [
  | inl e ↦ inl (eqz-eq x y e)
  | inr n ↦ inr (lez-Below x y h n)
]

abbrev Weak : List ℤ → Type 0
Weak [] = Unit
Weak (x ∷ xs) = All (NotAbove x) xs × Weak xs

insert-Weak : (x : ℤ) (ys : List ℤ) → Weak ys → Weak (insert x ys)
unfolding insert
insert-Weak x [] w = (tt, tt)
insert-Weak x (y ∷ ys) (w, ws) = elim (Bool-cases (lez x y)) [
  | inl h ↦
      rw (h, insert)
        (let b = lez-NotAbove x y h in ((b, All_map ys (λ z. NotAbove-trans x y z b) w), (w, ws)))
  | inr h ↦
      rw (h, insert) (All-insert (NotAbove y) x ys (inr (lez-Above x y h)) w, insert-Weak x ys ws)
]

sort-Weak : (xs : List ℤ) → Weak (sort xs)
unfolding sort
sort-Weak [] = tt
sort-Weak (x ∷ xs) = insert-Weak x (sort xs) (sort-Weak xs)

dedup_from-All : (P : ℤ → Type 0) (x : ℤ) (ys : List ℤ) → All P ys → All P (dedup_from x ys)
unfolding dedup_from
dedup_from-All P x [] ps = tt
dedup_from-All P x (y ∷ ys) (p, ps) = elim (Bool-cases (eqz x y)) [
  | inl e ↦ rw (e, dedup_from) (dedup_from-All P x ys ps)
  | inr n ↦ rw (n, dedup_from) (p, dedup_from-All P y ys ps)
]

dedup_from-Ascending :
    (x : ℤ) (ys : List ℤ) → All (NotAbove x) ys → Weak ys → Ascending (x ∷ dedup_from x ys)
unfolding dedup_from
dedup_from-Ascending x [] a w = (tt, tt)
dedup_from-Ascending x (y ∷ ys) (a, as') (w, ws) = elim (Bool-cases (eqz x y)) [
  | inl e ↦ rw (e, dedup_from) (dedup_from-Ascending x ys as' ws)
  | inr n ↦ rw (n, dedup_from) (behind n a (dedup_from-Ascending y ys w ws))
]
  where
    behind :
        eqz x y ≡ false
        → NotAbove x y
        → Ascending (y ∷ dedup_from y ys)
        → Ascending (x ∷ y ∷ dedup_from y ys)
    behind n (inl e) (h, hs) = absurd (not_self x y e n)
    behind n (inr b) (h, hs) =
        ((b, All_map (dedup_from y ys) (λ z. Below-trans x y z b) h), (h, hs))

dedup-Ascending : (ys : List ℤ) → Weak ys → Ascending (dedup ys)
unfolding dedup
dedup-Ascending [] w = tt
dedup-Ascending (y ∷ ys) (w, ws) = dedup_from-Ascending y ys w ws

pub dedup-sort-Ascending : (xs : List ℤ) → Ascending (dedup (sort xs))
dedup-sort-Ascending xs = dedup-Ascending (sort xs) (sort-Weak xs)

pub dedup-All : (P : ℤ → Type 0) (xs : List ℤ) → All P xs → All P (dedup xs)
unfolding dedup
dedup-All P [] ps = tt
dedup-All P (x ∷ xs) (p, ps) = (p, dedup_from-All P x xs ps)
