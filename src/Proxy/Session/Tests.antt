-- ===== src/Proxy/Session/Tests.antt =====
-- Runs of the session table.
use awg_easy_rs.Prelude.{
  ℕ, ◌+◌, ◌≤◌, ◌≡◌, refl, List, [], ◌∷◌, Option, none, some, true, false, length, arith,
}
use awg_easy_rs.Prelude.Assoc.{lookup, Distinct}
use awg_easy_rs.Proxy.Session.{
  Session, SessionTable, new, fresh_session, Answer, socket, limit_reached, get_or_create,
  cleanup_expired, set_relay_generation, len,
}
use awg_easy_rs.Proxy.Session.Laws.{IsValid, Obtained, get_or_create-Obtained}
use awg_easy_rs.Proxy.Session.Expiry.{
  survivor, casualty, ttl_cut, cleanup_expired-exact, Call, obtains, registers, sweeps, step, run,
  run-new-IsValid,
}
use awg_easy_rs.Proxy.Session.Race.{Shared, reserves, inserts, expires, Reach, here, next}
use awg_easy_rs.Proxy.Session.Race.Laws.{start, Reach-bounded, Reach-settled}

abbrev empty : SessionTable
empty = new 1 100 1

abbrev calls : List Call
calls = obtains 5 7 (some 70) ∷ registers 7 3 ∷ obtains 6 8 (some 80) ∷ sweeps 200 ∷ []

-- One session is the limit, so client 8 is refused; client 7 then expires.
run-calls : (run calls empty).session_count ≡ 0
unfolding run step cleanup_expired awg_easy_rs.Proxy.Session.retain get_or_create lookup
    set_relay_generation awg_easy_rs.Prelude.Assoc.update new
run-calls = refl

second_refused :
    (get_or_create 6 8 (some 80) (run (obtains 5 7 (some 70) ∷ []) empty)).1 ≡ limit_reached 1 1
unfolding get_or_create lookup run step new
second_refused = refl

expiry_report :
    (cleanup_expired 200 (run (obtains 5 7 (some 70) ∷ registers 7 3 ∷ []) empty)).1 ≡ (7, 3) ∷ []
unfolding cleanup_expired awg_easy_rs.Proxy.Session.retain run step set_relay_generation
    awg_easy_rs.Prelude.Assoc.update get_or_create lookup new
expiry_report = refl

-- Exactly the time to live is not yet expired.
not_expired : (cleanup_expired 105 (run (obtains 5 7 (some 70) ∷ []) empty)).1 ≡ []
unfolding cleanup_expired awg_easy_rs.Proxy.Session.retain run step get_or_create lookup new
not_expired = refl

get_or_create-Obtained_example : Obtained 5 7 (some 70) empty (get_or_create 5 7 (some 70) empty)
get_or_create-Obtained_example = get_or_create-Obtained 5 7 (some 70) empty

run-new-IsValid_example : IsValid (run calls empty) × (len (run calls empty) ≤ 1)
run-new-IsValid_example = run-new-IsValid calls 1 100 1

abbrev one : SessionTable
one = record {
  sessions = (7, fresh_session 70 5 7) ∷ [];
  backend_addr = 1;
  ttl_ms = 100;
  max_sessions = 1;
  session_count = 1;
  socket_buffer_bytes = 0;
}

cleanup_expired-exact_example :
    (lookup 7 (cleanup_expired 200 one).0.sessions
      ≡ survivor 200 (ttl_cut one) (lookup 7 one.sessions))
    × (lookup 7 (cleanup_expired 200 one).1 ≡ casualty 200 (ttl_cut one) (lookup 7 one.sessions))
    × ((cleanup_expired 200 one).0.session_count + length (cleanup_expired 200 one).1 ≡ 1)
cleanup_expired-exact_example =
    cleanup_expired-exact 200 7 one
      (record { counted = refl; bounded = omega arith; distinct = (unfold lookup in refl, tt) })

-- The schedule: client 7 enters; the sweep subtracts it; client 8 enters before it is erased.
abbrev entered : Shared
entered = record (start one) { table = one }

abbrev crowded : Shared
crowded = record {
  table = record one { sessions = (8, fresh_session 80 9 8) ∷ (7, fresh_session 70 5 7) ∷ [] };
  reserved = [];
  dropped = 0;
  leaving = (7, tt) ∷ [];
}

entering : Reach (start empty) entered
unfolding new lookup awg_easy_rs.Prelude.Assoc.erase
entering =
    next (next here (reserves 7 refl refl refl (omega arith) refl)) (inserts 7 70 5 refl refl)

crowding : Reach (start empty) crowded
unfolding new lookup awg_easy_rs.Prelude.Assoc.erase
crowding =
    next
      (next (next entering (expires 7 (λ e. cc) refl refl))
        (reserves 8 refl refl refl (omega arith) refl))
      (inserts 8 80 9 refl refl)

-- Two sessions under a limit of one, while one of them is being erased.
Reach-bounded_example : 2 + 0 + 0 ≤ 1 + 1
Reach-bounded_example = Reach-bounded 1 100 1 crowded crowding

Reach-settled_example : (entered.table.session_count ≡ 1) × (1 ≤ 1)
Reach-settled_example = Reach-settled 1 100 1 entered entering refl refl refl
