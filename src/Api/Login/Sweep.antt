-- ===== src/Api/Login/Sweep.antt =====
-- src/api/session.rs: what the sweep and the removal leave of the map.
use awg_easy_rs.Prelude.{
  ℕ, ◌≤◌, ◌≡◌, refl, sym, ap, ◌∙◌, inl, inr, List, [], ◌∷◌, Bool-cases, true, false, length, arith,
}
use awg_easy_rs.Prelude.Strings.{same_text}
use awg_easy_rs.Proxy.Responder.Sip.Lines.{is_empty}
use awg_easy_rs.Api.Login.{AttemptStore, recent, sweep, window_of, remove_if_empty}
use awg_easy_rs.Api.Login.Store.{
  recent-recent, has, Distinct, window_hit, window_miss, has_miss, hit_rest, not_first,
  window_of_absent,
}

is_empty-nil : (ws : List ℕ) → is_empty ws ≡ true → ws ≡ []
is_empty-nil [] h = refl
is_empty-nil (w ∷ ws) h = cc

has-sweep :
    (key : List ℕ) (now : ℕ) (s : AttemptStore) → has key s ≡ false → has key (sweep now s) ≡ false
unfolding sweep
has-sweep key now [] h = h
has-sweep key now ((k, w) ∷ s) h =
    let (m, r) = not_first key k w s h in
    elim (Bool-cases (is_empty (recent now w))) [
      | inl y ↦ rw (y, sweep) (has-sweep key now s r)
      | inr n ↦
          rw (n, sweep) (has_miss key k (recent now w) (sweep now s) m ∙ has-sweep key now s r)
    ]

pub Distinct-sweep : (now : ℕ) (s : AttemptStore) → Distinct s → Distinct (sweep now s)
unfolding sweep
Distinct-sweep now [] d = tt
Distinct-sweep now ((k, w) ∷ s) (d, ds) = elim (Bool-cases (is_empty (recent now w))) [
  | inl y ↦ rw (y, sweep) (Distinct-sweep now s ds)
  | inr n ↦ rw (n, sweep) (has-sweep k now s d, Distinct-sweep now s ds)
]

pub window_of-sweep :
    (key : List ℕ) (now later : ℕ) (s : AttemptStore)
    → now ≤ later
    → Distinct s
    → recent later (window_of key (sweep now s)) ≡ recent later (window_of key s)
unfolding sweep
window_of-sweep key now later [] h d = refl
window_of-sweep key now later ((k, w) ∷ s) h (d, ds) = elim (Bool-cases (same_text k key)) [
  | inl y ↦ elim (Bool-cases (is_empty (recent now w))) [
    | inl e ↦
        rw (e, sweep)
          (ap (recent later)
              (window_of_absent key (sweep now s) (has-sweep key now s (hit_rest key k w s y d)))
            ∙ ap (recent later) (sym (is_empty-nil (recent now w) e))
            ∙ recent-recent now later w h
            ∙ ap (recent later) (sym (window_hit key k w s y)))
    | inr n ↦
        rw (n, sweep)
          (ap (recent later) (window_hit key k (recent now w) (sweep now s) y)
            ∙ recent-recent now later w h
            ∙ ap (recent later) (sym (window_hit key k w s y)))
  ]
  | inr m ↦ elim (Bool-cases (is_empty (recent now w))) [
    | inl e ↦
        rw (e, sweep)
          (window_of-sweep key now later s h ds ∙ ap (recent later) (sym (window_miss key k w s m)))
    | inr n ↦
        rw (n, sweep)
          (ap (recent later) (window_miss key k (recent now w) (sweep now s) m)
            ∙ window_of-sweep key now later s h ds
            ∙ ap (recent later) (sym (window_miss key k w s m)))
  ]
]

pub length-sweep : (now : ℕ) (s : AttemptStore) → length (sweep now s) ≤ length s
unfolding sweep
length-sweep now [] = omega arith
length-sweep now ((k, w) ∷ s) = ground (arith, length-sweep now s)

has-remove_if_empty :
    (key k : List ℕ) (s : AttemptStore) → has key s ≡ false → has key (remove_if_empty k s) ≡ false
unfolding remove_if_empty
has-remove_if_empty key k [] h = h
has-remove_if_empty key k ((j, w) ∷ s) h =
    let (m, r) = not_first key j w s h in
    elim (Bool-cases (same_text j k)) [
      | inl y ↦ elim (Bool-cases (is_empty w)) [
        | inl e ↦ rw (y, e, remove_if_empty) r
        | inr n ↦ rw (y, n, remove_if_empty) h
      ]
      | inr n ↦
          rw (n, remove_if_empty)
            (has_miss key j w (remove_if_empty k s) m ∙ has-remove_if_empty key k s r)
    ]

pub Distinct-remove_if_empty :
    (k : List ℕ) (s : AttemptStore) → Distinct s → Distinct (remove_if_empty k s)
unfolding remove_if_empty
Distinct-remove_if_empty k [] d = tt
Distinct-remove_if_empty k ((j, w) ∷ s) (d, ds) = elim (Bool-cases (same_text j k)) [
  | inl y ↦ elim (Bool-cases (is_empty w)) [
    | inl e ↦ rw (y, e, remove_if_empty) ds
    | inr n ↦ rw (y, n, remove_if_empty) (d, ds)
  ]
  | inr n ↦ rw (n, remove_if_empty) (has-remove_if_empty j k s d, Distinct-remove_if_empty k s ds)
]

pub window_of-remove_if_empty :
    (key k : List ℕ) (s : AttemptStore)
    → Distinct s
    → window_of key (remove_if_empty k s) ≡ window_of key s
unfolding remove_if_empty
window_of-remove_if_empty key k [] d = refl
window_of-remove_if_empty key k ((j, w) ∷ s) (d, ds) = elim (Bool-cases (same_text j k)) [
  | inl y ↦ elim (Bool-cases (is_empty w)) [
    | inl e ↦
        rw (y, e, remove_if_empty)
          (elim (Bool-cases (same_text j key)) [
            | inl z ↦
                window_of_absent key s (hit_rest key j w s z d)
                ∙ sym (is_empty-nil w e)
                ∙ sym (window_hit key j w s z)
            | inr m ↦ sym (window_miss key j w s m)
          ])
    | inr n ↦ rw (y, n, remove_if_empty) refl
  ]
  | inr n ↦
      rw (n, remove_if_empty)
        (elim (Bool-cases (same_text j key)) [
          | inl z ↦ window_hit key j w (remove_if_empty k s) z ∙ sym (window_hit key j w s z)
          | inr m ↦
              window_miss key j w (remove_if_empty k s) m
              ∙ window_of-remove_if_empty key k s ds
              ∙ sym (window_miss key j w s m)
        ])
]

pub length-remove_if_empty :
    (k : List ℕ) (s : AttemptStore) → length (remove_if_empty k s) ≤ length s
unfolding remove_if_empty
length-remove_if_empty k [] = omega arith
length-remove_if_empty k ((j, w) ∷ s) = ground (arith, length-remove_if_empty k s)
