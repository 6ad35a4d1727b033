-- ===== src/Proxy/Session/Laws.antt =====
-- The invariant of the session table, and what `get_or_create` answers.
use awg_easy_rs.Prelude.{
  ℕ, ◌+◌, ◌≤◌, ◌<◌, ◌≡◌, refl, inl, inr, ◌∷◌, Option, none, some, true, false, Bool-cases,
  Option-cases, leb, arith,
}
use awg_easy_rs.Prelude.Assoc.{
  lookup, update, Distinct, length-update, length-erase, update-Distinct, erase-Distinct,
}
use awg_easy_rs.Proxy.Session.{
  Session, SessionTable, new, touched, touch, set_relay_generation, with_generation, Answer, socket,
  limit_reached, io_error, fresh_session, get_or_create, len, remove,
}

pub record IsValid (t : SessionTable) : Type 0 where
  pub counted : t.session_count ≡ len t
  pub bounded : len t ≤ t.max_sessions
  pub distinct : Distinct t.sessions

pub new-IsValid : (addr ttl most : ℕ) → IsValid (new addr ttl most)
unfolding new
new-IsValid addr ttl most = record { counted = refl; bounded = omega arith; distinct = tt }

update-IsValid :
    (addr : ℕ) (f : Session → Session) (t : SessionTable)
    → IsValid t
    → IsValid (record t { sessions = update addr f t.sessions })
update-IsValid addr f t v = record {
  counted = omega (arith, v.counted, length-update addr f t.sessions);
  bounded = omega (arith, v.bounded, length-update addr f t.sessions);
  distinct = update-Distinct addr f t.sessions v.distinct;
}

pub touch-IsValid : (now addr : ℕ) (t : SessionTable) → IsValid t → IsValid (touch now addr t)
unfolding touch
touch-IsValid now addr t v = update-IsValid addr (touched now) t v

pub set_relay_generation-IsValid :
    (addr g : ℕ) (t : SessionTable) → IsValid t → IsValid (set_relay_generation addr g t)
unfolding set_relay_generation
set_relay_generation-IsValid addr g t v = update-IsValid addr (with_generation g) t v

-- The outcomes of `get_or_create`. A known client gets its socket and is touched; a new one gets
-- the bound socket in a session without a relay if there is room; else nothing changes.
pub data Obtained (now addr : ℕ) (bound : Option ℕ) (t : SessionTable) (r : SessionTable × Answer)
    : Type 0 where
  known :
      (s : Session)
      → lookup addr t.sessions ≡ some s
      → r ≡ (touch now addr t, socket s.backend_sock false)
      → Obtained now addr bound t r
  full :
      lookup addr t.sessions ≡ none
      → t.max_sessions ≤ t.session_count
      → r ≡ (t, limit_reached t.session_count t.max_sessions)
      → Obtained now addr bound t r
  no_socket :
      lookup addr t.sessions ≡ none
      → t.session_count < t.max_sessions
      → bound ≡ none
      → r ≡ (t, io_error)
      → Obtained now addr bound t r
  created :
      (sock : ℕ)
      → lookup addr t.sessions ≡ none
      → t.session_count < t.max_sessions
      → bound ≡ some sock
      → r ≡ (
        record t {
          session_count = t.session_count + 1;
          sessions = (addr, fresh_session sock now addr) ∷ t.sessions;
        },
        socket sock true,
      )
      → Obtained now addr bound t r

-- Every call of `get_or_create` has exactly the outcome that its table and its socket call for.
pub get_or_create-Obtained :
    (now addr : ℕ) (bound : Option ℕ) (t : SessionTable)
    → Obtained now addr bound t (get_or_create now addr bound t)
unfolding get_or_create
get_or_create-Obtained now addr bound t = elim (Option-cases (lookup addr t.sessions)) [
  | inr (s, e) ↦ known s e (rw (e, get_or_create))
  | inl e ↦ elim (Bool-cases (leb t.max_sessions t.session_count)) [
    | inl y ↦ full e (ground arith) (ground arith)
    | inr n ↦ elim (Option-cases bound) [
      | inl b ↦ no_socket e (ground arith) b (ground arith)
      | inr (sock, b) ↦ created sock e (ground arith) b (ground arith)
    ]
  ]
]

Obtained-IsValid :
    (now addr : ℕ) (bound : Option ℕ) (t : SessionTable) (r : SessionTable × Answer)
    → IsValid t
    → Obtained now addr bound t r
    → IsValid r.0
Obtained-IsValid now addr bound t r v (known s e q) = rw q (touch-IsValid now addr t v)
Obtained-IsValid now addr bound t r v (full e c q) = rw q v
Obtained-IsValid now addr bound t r v (no_socket e c b q) = rw q v
Obtained-IsValid now addr bound t r v (created sock e c b q) = rw q (record {
  counted = omega (arith, v.counted);
  bounded = omega (arith, v.counted);
  distinct = (e, v.distinct);
})

pub get_or_create-IsValid :
    (now addr : ℕ) (bound : Option ℕ) (t : SessionTable)
    → IsValid t
    → IsValid (get_or_create now addr bound t).0
get_or_create-IsValid now addr bound t v =
    Obtained-IsValid now addr bound t _ v (get_or_create-Obtained now addr bound t)

pub remove-IsValid : (addr : ℕ) (t : SessionTable) → IsValid t → IsValid (remove addr t)
unfolding remove
remove-IsValid addr t v = elim (Option-cases (lookup addr t.sessions)) [
  | inl e ↦ rw (e, remove) v
  | inr (s, e) ↦
      let l = length-erase addr t.sessions (λ q. cc) in
      rw (e, remove)
        (record {
          counted = omega (arith, l, v.counted);
          bounded = omega (arith, l, v.bounded);
          distinct = erase-Distinct addr t.sessions v.distinct;
        })
]
