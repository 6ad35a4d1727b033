-- ===== src/Api/Cidr/Laws.antt =====
-- src/api/admin.rs: the addresses that a change of the networks gives to the clients.
use awg_easy_rs.Prelude.{
  ℕ, ◌≡◌, ◌≢◌, refl, sym, ap, ◌∙◌, inl, inr, List, [], ◌∷◌, ◌++◌, All, Option, Bool, true, false,
  ◌||◌,
}
use mathlib.Core.Path.{subst}
use awg_easy_rs.Prelude.Ints.{ℤ}
use awg_easy_rs.Prelude.Results.{Result, ok, err, bind_ok, Result-cases}
use awg_easy_rs.Prelude.Strings.{same_text}
use awg_easy_rs.Prelude.Strings.Laws.{same_text_iff}
use awg_easy_rs.Db.{Client}
use awg_easy_rs.Db.Addresses.{Net, AddressError, is_used, next_ipv4}
use awg_easy_rs.Db.Addresses.Laws.{IsFree, next_ipv4-IsFree, is_used-append}
use awg_easy_rs.Api.Cidr.{
  ChangeCidrRequest, ClientUpdate, Outcome, ChangeError, address, update_of, written, then_save,
  choose, choose_v6, reassign, change_cidr, push_some,
}

-- No two of the addresses are the same.
abbrev pub AreDifferent : List (List ℕ) → Type 0
AreDifferent [] = Unit {0}
AreDifferent (ip ∷ ips) = All (λ other. ip ≢ other) ips × AreDifferent ips

abbrev pub v4_addresses : List ClientUpdate → List (List ℕ)
v4_addresses [] = []
v4_addresses (u ∷ updates) = u.ipv4_address ∷ v4_addresses updates

abbrev pub update_ids : List ClientUpdate → List ℤ
update_ids [] = []
update_ids (u ∷ updates) = u.id ∷ update_ids updates

abbrev pub client_ids : List Client → List ℤ
client_ids [] = []
client_ids (c ∷ clients) = c.id ∷ client_ids clients

All-map {ℓ κ μ} :
    {A : Type ℓ} {P : A → Type κ} {Q : A → Type μ} (xs : List A)
    → ((a : A) → P a → Q a)
    → All P xs
    → All Q xs
All-map [] f ps = tt
All-map (x ∷ xs) f (p, ps) = (f x p, All-map xs f ps)

or_false : (a b : Bool) → (a || b) ≡ false → (a ≡ false) × (b ≡ false)
or_false true b h = cc
or_false false b h = (refl, h)

not_both : true ≡ false → ⊥
not_both h = cc

the_same : (v ip : List ℕ) → same_text v ip ≡ true → is_used (v ∷ []) ip ≡ false → ⊥
unfolding is_used
the_same v ip y n = not_both (rw (y, is_used) at n)

-- What is free beside more addresses is free beside fewer, and is none of the new ones.
split_used :
    (used : List (List ℕ)) (v4 ip : List ℕ)
    → is_used (used ++ (v4 ∷ [])) ip ≡ false
    → (is_used used ip ≡ false) × (v4 ≢ ip)
unfolding is_used
split_used used v4 ip h =
    let (a, b) = or_false _ _ (sym (is_used-append used (v4 ∷ []) ip) ∙ h) in
    (a, λ e. the_same v4 ip ((same_text_iff v4 ip).1 e) b)

module _ (parse_v4 parse_v6 : List ℕ → Option Net) (text_v4 text_v6 : ℕ → List ℕ) where
  abbrev Free : ChangeCidrRequest → List (List ℕ) → List ℕ → Type 0
  Free body used ip = IsFree parse_v4 text_v4 body.ipv4_cidr used ip

  choose-IsFree :
      (body : ChangeCidrRequest) (used_v4 used_v6 : List (List ℕ)) (v4 : List ℕ)
      (v6 : Option (List ℕ))
      → choose parse_v4 parse_v6 text_v4 text_v6 body used_v4 used_v6 ≡ ok (v4, v6)
      → Free body used_v4 v4
  unfolding choose
  choose-IsFree body used_v4 used_v6 v4 v6 h =
      let (ip, n, rest) = bind_ok (next_ipv4 parse_v4 text_v4 body.ipv4_cidr used_v4) _ _ h in
      let (w, o, e) =
        bind_ok (choose_v6 parse_v4 parse_v6 text_v4 text_v6 body.ipv6_cidr used_v6) _ _ rest in
      let same : ip ≡ v4 = cc in
      subst (Free body used_v4) same (next_ipv4-IsFree parse_v4 text_v4 body.ipv4_cidr used_v4 ip n)

  -- The addresses of the updates are different, and free beside those that are used.
  abbrev IsGood : ChangeCidrRequest → List (List ℕ) → List ClientUpdate → Type 0
  IsGood body used updates =
      AreDifferent (v4_addresses updates) × All (Free body used) (v4_addresses updates)

  Free-split :
      (body : ChangeCidrRequest) (used : List (List ℕ)) (v4 ip : List ℕ)
      → Free body (used ++ (v4 ∷ [])) ip
      → Free body used ip × (v4 ≢ ip)
  Free-split body used v4 ip (net, p, host, server, u) =
      let (a, b) = split_used used v4 ip u in ((net, p, host, server, a), b)

  written-IsGood :
      (body : ChangeCidrRequest) (used : List (List ℕ)) (t : Bool) (u : ClientUpdate)
      (rest : Outcome)
      → Free body used u.ipv4_address
      → IsGood body (used ++ (u.ipv4_address ∷ [])) rest.0
      → IsGood body used (written t u rest).0
  unfolding written
  written-IsGood body used false u (updates, r) f g = (tt, tt)
  written-IsGood body used true u (updates, r) f (d, a) = (
    (All-map (v4_addresses updates) (λ ip x. (Free-split body used u.ipv4_address ip x).1) a, d),
    (f, All-map (v4_addresses updates) (λ ip x. (Free-split body used u.ipv4_address ip x).0) a),
  )

  reassign-IsGood :
      (accepts : ClientUpdate → Bool) (body : ChangeCidrRequest) (used_v4 used_v6 : List (List ℕ))
      (clients : List Client)
      → IsGood body used_v4
          (reassign parse_v4 parse_v6 text_v4 text_v6 accepts body used_v4 used_v6 clients).0
  unfolding reassign update_of
  reassign-IsGood accepts body used_v4 used_v6 [] = (tt, tt)
  reassign-IsGood accepts body used_v4 used_v6 (c ∷ clients) =
      elim (Result-cases (choose parse_v4 parse_v6 text_v4 text_v6 body used_v4 used_v6)) [
        | inr (e, n) ↦ rw (n, reassign) (tt, tt)
        | inl ((v4, v6), y) ↦
            rw (y, reassign)
              (written-IsGood body used_v4 (accepts (update_of c v4 v6)) (update_of c v4 v6) _
                (choose-IsFree body used_v4 used_v6 v4 v6 y)
                (reassign-IsGood accepts body (used_v4 ++ (v4 ∷ [])) (push_some v6 used_v6)
                  clients))
      ]

  written-ids :
      (t : Bool) (u : ClientUpdate) (rest : Outcome) (updates : List ClientUpdate) (ids : List ℤ)
      → ((v : List ClientUpdate) → rest ≡ (v, ok tt) → update_ids v ≡ ids)
      → written t u rest ≡ (updates, ok tt)
      → update_ids updates ≡ u.id ∷ ids
  unfolding written
  written-ids false u (v, r) updates ids h e = cc
  written-ids true u (v, r) updates ids h e =
      let b : r ≡ ok tt = ap (λ o. o.1) e in
      let a : u ∷ v ≡ updates = ap (λ o. o.0) e in
      let i = h v (ap (λ x. (v, x)) b) in sym (ap update_ids a) ∙ ap (λ x. u.id ∷ x) i

  reassign-ids :
      (accepts : ClientUpdate → Bool) (body : ChangeCidrRequest) (used_v4 used_v6 : List (List ℕ))
      (clients : List Client) (updates : List ClientUpdate)
      → reassign parse_v4 parse_v6 text_v4 text_v6 accepts body used_v4 used_v6 clients
        ≡ (updates, ok tt)
      → update_ids updates ≡ client_ids clients
  unfolding reassign update_of
  reassign-ids accepts body used_v4 used_v6 [] updates h = sym (ap (λ o. update_ids o.0) h)
  reassign-ids accepts body used_v4 used_v6 (c ∷ clients) updates h =
      elim (Result-cases (choose parse_v4 parse_v6 text_v4 text_v6 body used_v4 used_v6)) [
        | inr (e, n) ↦ failed e updates (rw (n, reassign) at h)
        | inl ((v4, v6), y) ↦
            written-ids (accepts (update_of c v4 v6)) (update_of c v4 v6) _ updates
              (client_ids clients)
              (λ v e.
                reassign-ids accepts body (used_v4 ++ (v4 ∷ [])) (push_some v6 used_v6) clients v e)
              (rw (y, reassign) at h)
      ]
    where
      failed :
          {A : Type 0} (e : AddressError) (v : List ClientUpdate)
          → ◌≡◌ {A = Outcome} ([], err (address e)) (v, ok tt)
          → A
      failed e v q =
          let b : ◌≡◌ {A = Result ChangeError (Unit {0})} (err (address e)) (ok tt) =
            ap (λ o. o.1) q in
          cc

  then_save-ok :
      (saved : Bool) (o : Outcome) (updates : List ClientUpdate)
      → then_save saved o ≡ (updates, ok tt)
      → o ≡ (updates, ok tt)
  unfolding then_save
  then_save-ok saved (v, err e) updates h = h
  then_save-ok true (v, ok u) updates h = h
  then_save-ok false (v, ok u) updates h = cc

  -- Where the change of the networks succeeds, every client gets a new IPv4 address, in the clients'
  -- order; no two of the addresses are the same, and each is the text of a host of the new network
  -- that is not the server's address.
  pub change_cidr-AreDifferent :
      (admin stored saved : Bool) (accepts : ClientUpdate → Bool) (body : ChangeCidrRequest)
      (clients : List Client) (updates : List ClientUpdate)
      → change_cidr parse_v4 parse_v6 text_v4 text_v6 admin stored saved accepts body clients
        ≡ (updates, ok tt)
      → (update_ids updates ≡ client_ids clients)
        × AreDifferent (v4_addresses updates)
        × All (IsFree parse_v4 text_v4 body.ipv4_cidr []) (v4_addresses updates)
  unfolding change_cidr
  change_cidr-AreDifferent false stored saved accepts body clients updates h = cc
  change_cidr-AreDifferent true false saved accepts body clients updates h = cc
  change_cidr-AreDifferent true true saved accepts body clients updates h =
      let e = then_save-ok saved _ updates h in
      let (d, a) =
        subst (IsGood body []) (ap (λ o. o.0) e) (reassign-IsGood accepts body [] [] clients) in
      (reassign-ids accepts body [] [] clients updates e, d, a)
