-- ===== src/Prelude/Strings/Laws.antt =====
-- What `split_once` and equality of text decide.
use Prim.Native.Nat.{ℕ}
use mathlib.Core.Path.{◌≡◌, refl, ap, subst}
use mathlib.Core.Logic.{◌↔◌, inl, inr}
use mathlib.Core.Bool.{true, false}
use mathlib.Core.List.{List, [], ◌∷◌, ◌++◌}
use mathlib.Core.Option.{none, some}
use native.Mathlib.Omega.{arith}
use awg_easy_rs.Prelude.Tests.{◌==◌, Bool-cases, Option-cases, ==_iff}
use awg_easy_rs.Prelude.Lists.{All}
use awg_easy_rs.Prelude.Strings.{same_text, split_once}

-- No character of the text is c.
abbrev pub Lacks : ℕ → List ℕ → Type 0
Lacks c text = All (λ b. (b == c) ≡ false) text

pub split_once-append :
    (c : ℕ) (before behind : List ℕ)
    → Lacks c before
    → split_once c (before ++ (c ∷ behind)) ≡ some (before, behind)
unfolding split_once
split_once-append c [] behind l = ground arith
split_once-append c (b ∷ before) behind (l, ls) =
    rw (l, split_once, split_once-append c before behind ls) refl

abbrev pub IsSplit : ℕ → List ℕ → List ℕ × List ℕ → Type 0
IsSplit c text (before, behind) = (text ≡ before ++ (c ∷ behind)) × Lacks c before

pub some_inj {ℓ} : {A : Type ℓ} (a b : A) → some a ≡ some b → a ≡ b
some_inj a b h = cc

pub split_once-IsSplit :
    (c : ℕ) (text : List ℕ) (parts : List ℕ × List ℕ)
    → split_once c text ≡ some parts
    → IsSplit c text parts
unfolding split_once
split_once-IsSplit c [] parts h = cc
split_once-IsSplit c (b ∷ text) parts h = elim (Bool-cases (b == c)) [
  | inl y ↦
      subst (IsSplit c (b ∷ text)) (some_inj ([], text) parts (rw (y, split_once) at h))
        (ap (λ k. k ∷ text) ((==_iff b c).0 y), tt)
  | inr n ↦ elim (Option-cases (split_once c text)) [
    | inl o ↦ absurd (not_some (rw (n, split_once, o) at h))
    | inr ((a, e), o) ↦
        let (t, l) = split_once-IsSplit c text (a, e) o in
        subst (IsSplit c (b ∷ text)) (some_inj (b ∷ a, e) parts (rw (n, split_once, o) at h))
          (ap (λ k. b ∷ k) t, (n, l))
  ]
]
  where
    not_some : none ≡ some parts → ⊥
    not_some q = cc

pub split_once-Lacks : (c : ℕ) (text : List ℕ) → Lacks c text → split_once c text ≡ none
unfolding split_once
split_once-Lacks c [] l = refl
split_once-Lacks c (b ∷ text) (l, ls) = rw (l, split_once, split_once-Lacks c text ls) refl

same_text-eq : (x y : List ℕ) → same_text x y ≡ true → x ≡ y
unfolding same_text
same_text-eq [] [] h = refl
same_text-eq [] (b ∷ y) h = cc
same_text-eq (a ∷ x) [] h = cc
same_text-eq (a ∷ x) (b ∷ y) h = ground (arith, same_text-eq x y)

same_text_self : (x : List ℕ) → same_text x x ≡ true
unfolding same_text
same_text_self [] = refl
same_text_self (a ∷ x) = ground (arith, same_text_self x)

pub same_text_iff : (x y : List ℕ) → (same_text x y ≡ true) ↔ (x ≡ y)
same_text_iff x y = (same_text-eq x y, λ e. subst (λ t. same_text x t ≡ true) e (same_text_self x))
