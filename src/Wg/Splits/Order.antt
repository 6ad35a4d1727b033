-- ===== src/Wg/Splits/Order.antt =====
-- src/wg/params.rs: the numbers are eight, in strictly ascending order.
use awg_easy_rs.Prelude.{
  ◌<◌, ◌≡◌, refl, inl, inr, List, [], ◌∷◌, ◌++◌, All, Bool-cases, true, false, arith,
}
use awg_easy_rs.Prelude.Ints.{ℤ, pos, negsuc, lez, eqz}
use awg_easy_rs.Prelude.Numerals.Laws.{All-append}
use awg_easy_rs.Wg.Splits.{insert, sort, contains, push_split}

abbrev pub Below : ℤ → ℤ → Type 0
Below (pos a) (pos b) = a < b
Below (pos a) (negsuc b) = ⊥
Below (negsuc a) (pos b) = Unit
Below (negsuc a) (negsuc b) = b < a

pub Below-trans : (x y z : ℤ) → Below x y → Below y z → Below x z
Below-trans (pos a) (pos b) (pos c) h k = omega arith
Below-trans (pos a) (pos b) (negsuc c) h k = k
Below-trans (pos a) (negsuc b) z h k = absurd h
Below-trans (negsuc a) (pos b) (pos c) h k = tt
Below-trans (negsuc a) (pos b) (negsuc c) h k = absurd k
Below-trans (negsuc a) (negsuc b) (pos c) h k = tt
Below-trans (negsuc a) (negsuc b) (negsuc c) h k = omega arith

-- Two numbers that differ are in one of the two orders, and `lez` finds which.
abbrev pub Differ : ℤ → ℤ → Type 0
Differ x y = eqz x y ≡ false

pub lez-Below : (x y : ℤ) → lez x y ≡ true → Differ x y → Below x y
lez-Below (pos a) (pos b) h k = ground arith
lez-Below (pos a) (negsuc b) h k = cc
lez-Below (negsuc a) (pos b) h k = tt
lez-Below (negsuc a) (negsuc b) h k = ground arith

pub lez-Above : (x y : ℤ) → lez x y ≡ false → Below y x
lez-Above (pos a) (pos b) h = ground arith
lez-Above (pos a) (negsuc b) h = tt
lez-Above (negsuc a) (pos b) h = cc
lez-Above (negsuc a) (negsuc b) h = ground arith

Below-Differ : (x y : ℤ) → Below x y → Differ x y
Below-Differ (pos a) (pos b) h = ground arith
Below-Differ (pos a) (negsuc b) h = absurd h
Below-Differ (negsuc a) (pos b) h = refl
Below-Differ (negsuc a) (negsuc b) h = ground arith

pub All_map {ℓ κ} :
    {A : Type ℓ} {P Q : A → Type κ} (xs : List A) → ((a : A) → P a → Q a) → All P xs → All Q xs
All_map [] f ps = tt
All_map (x ∷ xs) f (p, ps) = (f x p, All_map xs f ps)

-- Each number is below all that stand behind it.
abbrev pub Ascending : List ℤ → Type 0
Ascending [] = Unit
Ascending (x ∷ xs) = All (Below x) xs × Ascending xs

pub All-insert : (P : ℤ → Type 0) (x : ℤ) (ys : List ℤ) → P x → All P ys → All P (insert x ys)
unfolding insert
All-insert P x [] p ps = (p, tt)
All-insert P x (y ∷ ys) p (q, ps) = elim (Bool-cases (lez x y)) [
  | inl h ↦ rw (h, insert) (p, (q, ps))
  | inr h ↦ rw (h, insert) (q, All-insert P x ys p ps)
]

pub All-sort : (P : ℤ → Type 0) (xs : List ℤ) → All P xs → All P (sort xs)
unfolding sort
All-sort P [] ps = tt
All-sort P (x ∷ xs) (p, ps) = All-insert P x (sort xs) p (All-sort P xs ps)

insert-Ascending :
    (x : ℤ) (ys : List ℤ) → All (Differ x) ys → Ascending ys → Ascending (insert x ys)
unfolding insert
insert-Ascending x [] d a = (tt, tt)
insert-Ascending x (y ∷ ys) (d, ds) (a, as') = elim (Bool-cases (lez x y)) [
  | inl h ↦
      rw (h, insert)
        (let b = lez-Below x y h d in ((b, All_map ys (λ z. Below-trans x y z b) a), (a, as')))
  | inr h ↦
      rw (h, insert) (All-insert (Below y) x ys (lez-Above x y h) a, insert-Ascending x ys ds as')
]

abbrev AllDistinct : List ℤ → Type 0
AllDistinct [] = Unit
AllDistinct (x ∷ xs) = All (Differ x) xs × AllDistinct xs

sort-Ascending : (xs : List ℤ) → AllDistinct xs → Ascending (sort xs)
unfolding sort
sort-Ascending [] d = tt
sort-Ascending (x ∷ xs) (d, ds) =
    insert-Ascending x (sort xs) (All-sort (Differ x) xs d) (sort-Ascending xs ds)

contains-Differ : (v : ℤ) (xs : List ℤ) → contains v xs ≡ false → All (Differ v) xs
unfolding contains
contains-Differ v [] h = tt
contains-Differ v (x ∷ xs) h = elim (Bool-cases (eqz v x)) [
  | inl y ↦ absurd (not_both (rw (y, contains) at h))
  | inr n ↦ (n, contains-Differ v xs (rw (n, contains) at h))
]
  where
    not_both : true ≡ false → ⊥
    not_both q = cc

Differ-sym : (x y : ℤ) → Differ x y → Differ y x
Differ-sym (pos a) (pos b) h = ground arith
Differ-sym (pos a) (negsuc b) h = refl
Differ-sym (negsuc a) (pos b) h = refl
Differ-sym (negsuc a) (negsuc b) h = ground arith

append-AllDistinct :
    (v : ℤ) (xs : List ℤ) → All (Differ v) xs → Ascending xs → AllDistinct (xs ++ (v ∷ []))
append-AllDistinct v [] d a = (tt, tt)
append-AllDistinct v (x ∷ xs) (d, ds) (a, as') = (
  All-append (Differ x) xs (v ∷ []) (All_map xs (Below-Differ x) a) (Differ-sym v x d, tt),
  append-AllDistinct v xs ds as',
)

-- A number that is pushed keeps the order.
pub push_split-Ascending : (v : ℤ) (xs : List ℤ) → Ascending xs → Ascending (push_split v xs)
unfolding push_split
push_split-Ascending v xs a = elim (Bool-cases (contains v xs)) [
  | inl y ↦ rw y a
  | inr n ↦
      rw n (sort-Ascending (xs ++ (v ∷ [])) (append-AllDistinct v xs (contains-Differ v xs n) a))
]

pub push_split-All :
    (P : ℤ → Type 0) (v : ℤ) (xs : List ℤ) → P v → All P xs → All P (push_split v xs)
unfolding push_split
push_split-All P v xs p ps = elim (Bool-cases (contains v xs)) [
  | inl y ↦ rw y ps
  | inr n ↦ rw n (All-sort P (xs ++ (v ∷ [])) (All-append P xs (v ∷ []) ps (p, tt)))
]
