-- ===== src/Proxy/Session/Race/Laws.antt =====
-- The counter under every interleaving.
use awg_easy_rs.Prelude.{
  ℕ, ◌+◌, ◌≤◌, ◌≡◌, ◌≢◌, refl, ap, ◌∙◌, inl, inr, List, [], ◌∷◌, Option, none, some, length, arith,
  Bool-cases, ◌==◌, ==_iff,
}
use awg_easy_rs.Prelude.Assoc.{
  lookup, update, erase, Distinct, length-update, length-erase, update-Distinct, erase-Distinct,
  lookup-update-none, lookup-update_some, lookup-erase-none, lookup-erase_self, lookup-erase_ne,
  lookup_hit, lookup_miss, length-le_of_keys,
}
use awg_easy_rs.Proxy.Session.{Session, SessionTable, new}
use awg_easy_rs.Proxy.Session.Race.{
  Shared, Step, stores, reserves, inserts, removes, subtracts, expires, erases, Reach, here, next,
  Inv, with_sessions,
}

module _ {ℓ} {V : Type ℓ} where
  -- What an erasure leaves is another key that was there.
  left_by-erase :
      (k j : ℕ) (m : List (ℕ × V))
      → Distinct m
      → lookup k (erase j m) ≢ none
      → (k ≢ j) × (lookup k m ≢ none)
  left_by-erase k j m d h =
      (λ e. h (rw e (lookup-erase_self j m d)), λ e. h (lookup-erase-none j k m e))

  -- A key of an extended map is the new one or an old one.
  of_cons :
      (P : ℕ → Type 0) (k j : ℕ) (v : V) (m : List (ℕ × V))
      → lookup k ((j, v) ∷ m) ≢ none
      → P j
      → (lookup k m ≢ none → P k)
      → P k
  of_cons P k j v m h new old = elim (Bool-cases (j == k)) [
    | inl hit ↦ rw (← (==_iff j k).0 hit) new
    | inr miss ↦ old (rw (lookup_miss k j v m miss) at h)
  ]

stores-Inv :
    (addr : ℕ) (f : Session → Session) (s : Shared)
    → Inv s
    → Inv (with_sessions (update addr f s.table.sessions) s)
stores-Inv addr f s v = record {
  balance = omega (arith, v.balance, length-update addr f s.table.sessions);
  within = v.within;
  distinct = update-Distinct addr f s.table.sessions v.distinct;
  guards = v.guards;
  vacant = λ k h. lookup-update-none addr k f s.table.sessions (v.vacant k h);
  present = λ k h. lookup-update_some addr k f s.table.sessions (v.present k h);
  leavers = v.leavers;
}

ne_none : {A : Type 0} (o : Option A) (a : A) → o ≡ some a → o ≢ none
ne_none o a e = λ h. cc

-- Each step keeps the balance.
Step-Inv : {s s' : Shared} → Step s s' → Inv s → Inv s'
Step-Inv {s} (stores addr f) v = stores-Inv addr f s v
Step-Inv {s} (reserves addr absent unguarded stays room e) v = rw e (record {
  balance = omega (arith, v.balance);
  within = omega arith;
  distinct = v.distinct;
  guards = (unguarded, v.guards);
  vacant = λ k h.
      of_cons (λ j. lookup j s.table.sessions ≡ none) k addr tt s.reserved h absent (v.vacant k);
  present = v.present;
  leavers = v.leavers;
})
Step-Inv {s} (inserts addr sock now held e) v =
    let found = ne_none _ tt held in
    rw e (record {
      balance = omega (arith, v.balance, length-erase addr s.reserved found);
      within = v.within;
      distinct = (v.vacant addr found, v.distinct);
      guards = erase-Distinct addr s.reserved v.guards;
      vacant = λ k h.
          let (ne, old) = left_by-erase k addr s.reserved v.guards h in
          lookup_miss k addr _ s.table.sessions (ground (arith, ne)) ∙ v.vacant k old;
      present = λ k h. elim (Bool-cases (addr == k)) [
        | inl hit ↦ ne_none _ _ (lookup_hit k addr _ s.table.sessions hit)
        | inr miss ↦ rw (lookup_miss k addr _ s.table.sessions miss) (v.present k h)
      ];
      leavers = v.leavers;
    })
Step-Inv {s} (removes addr found stays e) v = rw e (record {
  balance = omega (arith, v.balance, length-erase addr s.table.sessions found);
  within = v.within;
  distinct = erase-Distinct addr s.table.sessions v.distinct;
  guards = v.guards;
  vacant = λ k h. lookup-erase-none addr k s.table.sessions (v.vacant k h);
  present =
      λ k h. rw (lookup-erase_ne addr k s.table.sessions (λ q. h (rw q stays))) (v.present k h);
  leavers = v.leavers;
})
Step-Inv {s} (subtracts some_dropped e) v =
    let few = length-le_of_keys s.leaving s.table.sessions v.leavers v.present in
    rw e (record {
      balance = omega (arith, v.balance, few);
      within = omega (arith, v.within);
      distinct = v.distinct;
      guards = v.guards;
      vacant = v.vacant;
      present = v.present;
      leavers = v.leavers;
    })
Step-Inv {s} (expires addr found stays e) v =
    let still = λ (k : ℕ) (h : lookup k ((addr, tt) ∷ s.leaving) ≢ none).
      of_cons (λ j. lookup j s.table.sessions ≢ none) k addr tt s.leaving h found (v.present k) in
    let few =
      length-le_of_keys ((addr, tt) ∷ s.leaving) s.table.sessions (stays, v.leavers) still in
    rw e (record {
      balance = omega (arith, v.balance, few);
      within = omega (arith, v.within);
      distinct = v.distinct;
      guards = v.guards;
      vacant = v.vacant;
      present = still;
      leavers = (stays, v.leavers);
    })
Step-Inv {s} (erases addr gone e) v =
    let found = ne_none _ tt gone in
    rw e (record {
      balance = omega (
        arith,
        v.balance,
        length-erase addr s.leaving found,
        length-erase addr s.table.sessions (v.present addr found),
      );
      within = v.within;
      distinct = erase-Distinct addr s.table.sessions v.distinct;
      guards = v.guards;
      vacant = λ k h. lookup-erase-none addr k s.table.sessions (v.vacant k h);
      present = λ k h.
          let (ne, old) = left_by-erase k addr s.leaving v.leavers h in
          rw (lookup-erase_ne addr k s.table.sessions ne) (v.present k old);
      leavers = erase-Distinct addr s.leaving v.leavers;
    })

abbrev pub start : SessionTable → Shared
start t = record { table = t; reserved = []; dropped = 0; leaving = [] }

new-Inv : (addr ttl most : ℕ) → Inv (start (new addr ttl most))
unfolding new lookup
new-Inv addr ttl most = record {
  balance = refl;
  within = omega arith;
  distinct = tt;
  guards = tt;
  vacant = λ k h. refl;
  present = λ k h. absurd (h refl);
  leavers = tt;
}

Reach-Inv : {s t : Shared} → Inv s → Reach s t → Inv t
Reach-Inv v here = v
Reach-Inv v (next r st) = Step-Inv st (Reach-Inv v r)

Step-limit : {s t : Shared} → Step s t → t.table.max_sessions ≡ s.table.max_sessions
Step-limit (stores addr f) = refl
Step-limit (reserves addr a u l c e) = rw e
Step-limit (inserts addr sock now h e) = rw e
Step-limit (removes addr f l e) = rw e
Step-limit (subtracts h e) = rw e
Step-limit (expires addr f l e) = rw e
Step-limit (erases addr h e) = rw e

Reach-limit : {s t : Shared} → Reach s t → t.table.max_sessions ≡ s.table.max_sessions
Reach-limit here = refl
Reach-limit (next r st) = Step-limit st ∙ Reach-limit r

-- Under every interleaving of the calls on a new table the sessions, with the slots reserved for
-- others, exceed the configured limit by no more than the expired sessions that a sweep has
-- already subtracted from the counter and not yet erased.
pub Reach-bounded :
    (addr ttl most : ℕ) (s : Shared)
    → Reach (start (new addr ttl most)) s
    → length s.table.sessions + length s.reserved + s.dropped ≤ most + length s.leaving
Reach-bounded addr ttl most s r =
    let v = Reach-Inv (new-Inv addr ttl most) r in
    let limit : (new addr ttl most).max_sessions ≡ most = unfold new in refl in
    omega (arith, v.balance, v.within, Reach-limit r)

-- When no call is under way the counter is the number of sessions, and it is within the limit.
pub Reach-settled :
    (addr ttl most : ℕ) (s : Shared)
    → Reach (start (new addr ttl most)) s
    → s.reserved ≡ []
    → s.dropped ≡ 0
    → s.leaving ≡ []
    → (s.table.session_count ≡ length s.table.sessions) × (length s.table.sessions ≤ most)
Reach-settled addr ttl most s r none_reserved none_dropped none_leaving =
    let v = Reach-Inv (new-Inv addr ttl most) r in
    let limit : (new addr ttl most).max_sessions ≡ most = unfold new in refl in
    omega
      (arith, v.balance, v.within, Reach-limit r, ap length none_reserved, ap length none_leaving)
