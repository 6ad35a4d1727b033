-- ===== src/Db/Addresses/Laws.antt =====
-- src/db.rs: what the choice of an address returns.
use awg_easy_rs.Prelude.{
  ℕ, suc, ◌≡◌, ◌≢◌, refl, inl, inr, List, [], ◌∷◌, ◌++◌, Option, none, some, Bool, true, false,
  ◌&&◌, ◌||◌, not, Bool-cases,
}
use mathlib.Core.Path.{subst}
use awg_easy_rs.Prelude.Results.{ok, ok_or, bind_ok, ok_inj}
use awg_easy_rs.Prelude.Strings.{same_text}
use awg_easy_rs.Prelude.Strings.Laws.{same_text_iff}
use awg_easy_rs.Db.Addresses.{
  Net, AddressError, is_used, first_host, server_v4, free_v4, next_ipv4, IsHost,
}

module _ (to_string : ℕ → List ℕ) (free : List ℕ → Bool) where
  pub first_host-IsHost :
      (hosts : List ℕ) (ip : List ℕ)
      → first_host to_string free hosts ≡ ok ip
      → IsHost to_string hosts ip × (free ip ≡ true)
  unfolding first_host IsHost
  first_host-IsHost [] ip h = cc
  first_host-IsHost (host ∷ hosts) ip h = elim (Bool-cases (free (to_string host))) [
    | inl y ↦
        let e : to_string host ≡ ip = ok_inj _ _ (rw (y, first_host) at h) in
        ((0, host, refl, e), subst (λ t. free t ≡ true) e y)
    | inr n ↦
        let r = first_host-IsHost hosts ip (rw (n, first_host) at h) in
        ((suc r.0.0, r.0.1, r.0.2, r.0.3), r.1)
  ]

and_true : (a b : Bool) → (not a && not b) ≡ true → (a ≡ false) × (b ≡ false)
and_true true b h = cc
and_true false true h = cc
and_true false false h = (refl, refl)

-- An address that a client of the network may get, beside those that are used.
abbrev pub IsFree : (List ℕ → Option Net) → (ℕ → List ℕ) → List ℕ → List (List ℕ) → List ℕ → Type 0
IsFree parse to_string cidr used ip =
    (net : Net) × (parse cidr ≡ some net)
    × IsHost to_string net.hosts ip
    × (ip ≢ to_string (server_v4 net))
    × (is_used used ip ≡ false)

pub next_ipv4-IsFree :
    (parse : List ℕ → Option Net) (to_string : ℕ → List ℕ) (cidr : List ℕ) (used : List (List ℕ))
    (ip : List ℕ)
    → next_ipv4 parse to_string cidr used ≡ ok ip
    → IsFree parse to_string cidr used ip
unfolding next_ipv4 free_v4
next_ipv4-IsFree parse to_string cidr used ip h =
    let (net, p, f) = bind_ok (ok_or (parse cidr) AddressError.invalid_cidr) _ ip h in
    let (i, t) = first_host-IsHost to_string (free_v4 to_string net used) net.hosts ip f in
    let (s, u) = and_true _ _ t in (net, ok_or-some (parse cidr) net p, i, not_server net s, u)
  where
    ok_or-some :
        (o : Option Net) (net : Net) → ok_or o AddressError.invalid_cidr ≡ ok net → o ≡ some net
    ok_or-some none net h = cc
    ok_or-some (some m) net h = cc

    not_server :
        (net : Net)
        → same_text ip (to_string (server_v4 net)) ≡ false
        → ip ≢ to_string (server_v4 net)
    not_server net s e = let y = (same_text_iff _ _).1 e in cc

pub is_used-append :
    (xs ys : List (List ℕ)) (ip : List ℕ) → is_used (xs ++ ys) ip ≡ (is_used xs ip || is_used ys ip)
unfolding is_used
is_used-append [] ys ip = refl
is_used-append (x ∷ xs) ys ip = rw (is_used-append xs ys ip) (or_assoc (same_text x ip) _ _)
  where
    or_assoc : (a b c : Bool) → (a || (b || c)) ≡ ((a || b) || c)
    or_assoc true b c = refl
    or_assoc false b c = refl
