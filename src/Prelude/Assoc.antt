-- ===== src/Prelude/Assoc.antt =====
-- Maps as association lists with distinct keys. A key is a number that stands for a value of the
-- program that is only ever compared, such as a socket address.
use Prim.Native.Nat.{ℕ, ◌+◌, ◌≤◌}
use mathlib.Core.Path.{◌≡◌, refl, ap}
use mathlib.Core.Bool.{true, false}
use mathlib.Core.Logic.{◌≢◌, inl, inr}
use mathlib.Core.Option.{Option, none, some}
use mathlib.Core.List.{List, [], ◌∷◌}
use native.Mathlib.Omega.{arith}
use awg_easy_rs.Prelude.Tests.{◌==◌, if◌then◌else◌, Bool-cases, ==_iff}
use awg_easy_rs.Prelude.Lists.{length}

module _ {ℓ} {V : Type ℓ} where
  unfoldable pub lookup : ℕ → List (ℕ × V) → Option V
  lookup k [] = none
  lookup k ((j, v) ∷ m) = if j == k then some v else lookup k m

  unfoldable pub update : ℕ → (V → V) → List (ℕ × V) → List (ℕ × V)
  update k f [] = []
  update k f ((j, v) ∷ m) = if j == k then (j, f v) ∷ m else (j, v) ∷ update k f m

  unfoldable pub erase : ℕ → List (ℕ × V) → List (ℕ × V)
  erase k [] = []
  erase k ((j, v) ∷ m) = if j == k then m else (j, v) ∷ erase k m

  -- No key stands twice.
  abbrev pub Distinct : List (ℕ × V) → Type ℓ
  Distinct [] = Unit
  Distinct ((j, v) ∷ m) = (lookup j m ≡ none) × Distinct m

  pub lookup_hit :
      (k j : ℕ) (v : V) (m : List (ℕ × V)) → (j == k) ≡ true → lookup k ((j, v) ∷ m) ≡ some v
  unfolding lookup
  lookup_hit k j v m h = rw h

  pub lookup_miss :
      (k j : ℕ) (v : V) (m : List (ℕ × V)) → (j == k) ≡ false → lookup k ((j, v) ∷ m) ≡ lookup k m
  unfolding lookup
  lookup_miss k j v m h = rw h

  -- The key of the first entry is not behind it.
  pub lookup_hit_rest :
      (k j : ℕ) (v : V) (m : List (ℕ × V))
      → Distinct ((j, v) ∷ m)
      → (j == k) ≡ true
      → lookup k m ≡ none
  lookup_hit_rest k j v m d h = rw ((==_iff j k).0 h) at d.0

  pub length-update : (k : ℕ) (f : V → V) (m : List (ℕ × V)) → length (update k f m) ≡ length m
  unfolding update
  length-update k f [] = refl
  length-update k f ((j, v) ∷ m) = ground (arith, length-update k f m)

  pub length-erase :
      (k : ℕ) (m : List (ℕ × V)) → lookup k m ≢ none → length (erase k m) + 1 ≡ length m
  unfolding lookup erase
  length-erase k [] h = absurd (h refl)
  length-erase k ((j, v) ∷ m) h = elim (Bool-cases (j == k)) [
    | inl hit ↦ rw hit (omega arith)
    | inr miss ↦ rw miss (omega (arith, length-erase k m (rw (miss, lookup) at h)))
  ]

  pub lookup-update_self :
      (k : ℕ) (f : V → V) (m : List (ℕ × V)) (v : V)
      → lookup k m ≡ some v
      → lookup k (update k f m) ≡ some (f v)
  unfolding lookup update
  lookup-update_self k f [] v h = cc
  lookup-update_self k f ((j, w) ∷ m) v h = ground (arith, lookup-update_self k f m v, ap f)

  pub lookup-update_ne :
      (k j : ℕ) (f : V → V) (m : List (ℕ × V)) → j ≢ k → lookup j (update k f m) ≡ lookup j m
  unfolding lookup update
  lookup-update_ne k j f [] h = refl
  lookup-update_ne k j f ((i, w) ∷ m) h = ground (arith, lookup-update_ne k j f m)

  pub lookup-update-none :
      (k j : ℕ) (f : V → V) (m : List (ℕ × V)) → lookup j m ≡ none → lookup j (update k f m) ≡ none
  unfolding lookup update
  lookup-update-none k j f [] h = refl
  lookup-update-none k j f ((i, w) ∷ m) h = ground (arith, lookup-update-none k j f m)

  pub lookup-erase-none :
      (k j : ℕ) (m : List (ℕ × V)) → lookup j m ≡ none → lookup j (erase k m) ≡ none
  unfolding lookup erase
  lookup-erase-none k j [] h = refl
  lookup-erase-none k j ((i, w) ∷ m) h = ground (arith, lookup-erase-none k j m)

  pub lookup-erase_ne : (k j : ℕ) (m : List (ℕ × V)) → j ≢ k → lookup j (erase k m) ≡ lookup j m
  unfolding lookup erase
  lookup-erase_ne k j [] h = refl
  lookup-erase_ne k j ((i, w) ∷ m) h = ground (arith, lookup-erase_ne k j m)

  pub update-Distinct :
      (k : ℕ) (f : V → V) (m : List (ℕ × V)) → Distinct m → Distinct (update k f m)
  unfolding update
  update-Distinct k f [] d = tt
  update-Distinct k f ((j, v) ∷ m) d = elim (Bool-cases (j == k)) [
    | inl hit ↦ rw hit d
    | inr miss ↦ rw miss (lookup-update-none k j f m d.0, update-Distinct k f m d.1)
  ]

  pub erase-Distinct : (k : ℕ) (m : List (ℕ × V)) → Distinct m → Distinct (erase k m)
  unfolding erase
  erase-Distinct k [] d = tt
  erase-Distinct k ((j, v) ∷ m) d = elim (Bool-cases (j == k)) [
    | inl hit ↦ rw hit d.1
    | inr miss ↦ rw miss (lookup-erase-none k j m d.0, erase-Distinct k m d.1)
  ]

  pub lookup-erase_self : (k : ℕ) (m : List (ℕ × V)) → Distinct m → lookup k (erase k m) ≡ none
  unfolding lookup erase
  lookup-erase_self k [] d = refl
  lookup-erase_self k ((j, v) ∷ m) d = elim (Bool-cases (j == k)) [
    | inl hit ↦ rw hit (rw ((==_iff j k).0 hit) at d.0)
    | inr miss ↦ rw (miss, lookup, miss) (lookup-erase_self k m d.1)
  ]

  pub lookup-update_some :
      (k j : ℕ) (f : V → V) (m : List (ℕ × V)) → lookup j m ≢ none → lookup j (update k f m) ≢ none
  unfolding lookup update
  lookup-update_some k j f [] h = h
  lookup-update_some k j f ((i, w) ∷ m) h = ground (arith, lookup-update_some k j f m)

-- Keys that all stand in a map are at most as many.
module _ {ℓ κ} {V : Type ℓ} {W : Type κ} where
  pub length-le_of_keys :
      (l : List (ℕ × W)) (m : List (ℕ × V))
      → Distinct l
      → ((k : ℕ) → lookup k l ≢ none → lookup k m ≢ none)
      → length l ≤ length m
  length-le_of_keys [] m d h = omega arith
  length-le_of_keys ((j, w) ∷ l) m d h =
      let first : lookup j ((j, w) ∷ l) ≢ none =
        λ e. absurd (some_first (lookup_hit j j w l ((==_iff j j).1 refl)) e) in
      omega (arith, length-erase j m (h j first), length-le_of_keys l (erase j m) d.1 others)
    where
      some_first : lookup j ((j, w) ∷ l) ≡ some w → lookup j ((j, w) ∷ l) ≡ none → ⊥
      some_first p q = cc

      others : (k : ℕ) → lookup k l ≢ none → lookup k (erase j m) ≢ none
      others k p = elim (Bool-cases (j == k)) [
        | inl hit ↦ absurd (p (lookup_hit_rest k j w l d hit))
        | inr miss ↦
            let ne : k ≢ j = λ e. ground (arith, miss, e) in
            rw (lookup-erase_ne j k m ne) (h k (rw (lookup_miss k j w l miss) p))
      ]
