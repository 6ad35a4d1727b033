-- ===== src/Api/Login/Store.antt =====
-- src/api/session.rs: the windows of the map of attempts.
use awg_easy_rs.Prelude.{
  ℕ, ◌-◌, ◌≤◌, ◌≡◌, refl, sym, ap, ◌∙◌, inl, inr, List, [], ◌∷◌, ◌++◌, Bool, Bool-cases, true,
  false, ◌||◌, ltb, length, arith,
}
use mathlib.Core.Path.{subst}
use awg_easy_rs.Prelude.Strings.{same_text}
use awg_easy_rs.Prelude.Strings.Laws.{same_text_iff}
use awg_easy_rs.Api.Login.{AttemptStore, recent, window_of, put}

older : (now later t : ℕ) → now ≤ later → ltb (now - t) 60 ≡ false → ltb (later - t) 60 ≡ false
older now later t h n = ground arith

-- What is recent later was recent before.
pub recent-recent :
    (now later : ℕ) (ws : List ℕ) → now ≤ later → recent later (recent now ws) ≡ recent later ws
unfolding recent
recent-recent now later [] h = refl
recent-recent now later (t ∷ ws) h = elim (Bool-cases (ltb (now - t) 60)) [
  | inl y ↦
      rw (y, recent)
        (elim (Bool-cases (ltb (later - t) 60)) [
          | inl z ↦ rw (z, recent) (ap (λ l. t ∷ l) (recent-recent now later ws h))
          | inr z ↦ rw (z, recent) (recent-recent now later ws h)
        ])
  | inr n ↦ rw (n, recent, older now later t h n) (recent-recent now later ws h)
]

pub recent-append :
    (now : ℕ) (ws vs : List ℕ) → recent now (ws ++ vs) ≡ recent now ws ++ recent now vs
unfolding recent
recent-append now [] vs = refl
recent-append now (t ∷ ws) vs = elim (Bool-cases (ltb (now - t) 60)) [
  | inl y ↦ rw (y, recent) (ap (λ l. t ∷ l) (recent-append now ws vs))
  | inr n ↦ rw (n, recent) (recent-append now ws vs)
]

pub length-recent : (now : ℕ) (ws : List ℕ) → length (recent now ws) ≤ length ws
unfolding recent
length-recent now [] = omega arith
length-recent now (t ∷ ws) = ground (arith, length-recent now ws)

unfoldable pub has : List ℕ → AttemptStore → Bool
has key [] = false
has key ((k, window) ∷ attempts) = same_text k key || has key attempts

-- No key stands twice.
abbrev pub Distinct : AttemptStore → Type 0
Distinct [] = Unit
Distinct ((k, window) ∷ attempts) = (has k attempts ≡ false) × Distinct attempts

different : (a b : List ℕ) → same_text a b ≡ false → same_text b a ≡ false
different a b h = elim (Bool-cases (same_text b a)) [
  | inl y ↦ absurd (no_bool (sym ((same_text_iff a b).1 (sym ((same_text_iff b a).0 y))) ∙ h))
  | inr n ↦ n
]
  where
    no_bool : true ≡ false → ⊥
    no_bool q = cc

module _ (key k window : List ℕ) (s : AttemptStore) where
  pub window_hit : same_text k key ≡ true → window_of key ((k, window) ∷ s) ≡ window
  unfolding window_of
  window_hit h = rw h refl

  pub window_miss : same_text k key ≡ false → window_of key ((k, window) ∷ s) ≡ window_of key s
  unfolding window_of
  window_miss h = rw h refl

  pub has_miss : same_text k key ≡ false → has key ((k, window) ∷ s) ≡ has key s
  unfolding has
  has_miss h = rw h refl

  -- The key of the first entry is not behind it.
  pub hit_rest : same_text k key ≡ true → has k s ≡ false → has key s ≡ false
  hit_rest h d = subst (λ t. has t s ≡ false) ((same_text_iff k key).0 h) d

  pub not_first :
      has key ((k, window) ∷ s) ≡ false → (same_text k key ≡ false) × (has key s ≡ false)
  unfolding has
  not_first h = ground arith

pub window_of_absent : (key : List ℕ) (s : AttemptStore) → has key s ≡ false → window_of key s ≡ []
unfolding window_of
window_of_absent key [] h = refl
window_of_absent key ((k, w) ∷ s) h =
    let (n, r) = not_first key k w s h in window_miss key k w s n ∙ window_of_absent key s r

pub window_of-put : (key new : List ℕ) (s : AttemptStore) → window_of key (put key new s) ≡ new
unfolding put
window_of-put key new [] = window_hit key key new [] ((same_text_iff key key).1 refl)
window_of-put key new ((k, w) ∷ s) = elim (Bool-cases (same_text k key)) [
  | inl y ↦ rw (y, put) (window_hit key k new s y)
  | inr n ↦ rw (n, put) (window_miss key k w (put key new s) n ∙ window_of-put key new s)
]

pub window_of-put_other :
    (key other new : List ℕ) (s : AttemptStore)
    → same_text other key ≡ false
    → window_of key (put other new s) ≡ window_of key s
unfolding put
window_of-put_other key other new [] h = window_miss key other new [] h
window_of-put_other key other new ((k, w) ∷ s) h = elim (Bool-cases (same_text k other)) [
  | inl y ↦
      rw (y, put)
        (let n = subst (λ t. same_text t key ≡ false) (sym ((same_text_iff k other).0 y)) h in
          window_miss key k new s n ∙ sym (window_miss key k w s n))
  | inr n ↦
      rw (n, put)
        (elim (Bool-cases (same_text k key)) [
          | inl z ↦ window_hit key k w (put other new s) z ∙ sym (window_hit key k w s z)
          | inr m ↦
              window_miss key k w (put other new s) m
              ∙ window_of-put_other key other new s h
              ∙ sym (window_miss key k w s m)
        ])
]

has-put :
    (key other new : List ℕ) (s : AttemptStore)
    → same_text other key ≡ false
    → has key s ≡ false
    → has key (put other new s) ≡ false
unfolding put
has-put key other new [] h a = has_miss key other new [] h ∙ a
has-put key other new ((k, w) ∷ s) h a =
    let (m, r) = not_first key k w s a in
    elim (Bool-cases (same_text k other)) [
      | inl y ↦ rw (y, put) (has_miss key k new s m ∙ r)
      | inr n ↦ rw (n, put) (has_miss key k w (put other new s) m ∙ has-put key other new s h r)
    ]

pub Distinct-put : (key new : List ℕ) (s : AttemptStore) → Distinct s → Distinct (put key new s)
unfolding put has
Distinct-put key new [] d = (refl, tt)
Distinct-put key new ((k, w) ∷ s) (d, ds) = elim (Bool-cases (same_text k key)) [
  | inl y ↦ rw (y, put) (d, ds)
  | inr n ↦ rw (n, put) (has-put k key new s (different k key n) d, Distinct-put key new s ds)
]
