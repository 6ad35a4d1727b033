-- ===== src/Proxy/Session.antt =====
-- src/proxy/session.rs: the table of client sessions. Each call runs alone here; Session/Race has
-- the interleavings. An address and a socket are numbers that stand for them, the clock is an
-- argument in milliseconds, and the order of the map is that of a list.
pub mod Laws
pub mod Expiry
pub mod Race
mod Tests
use awg_easy_rs.Prelude.{
  ℕ, ◌+◌, ◌-◌, ◌*◌, ◌^◌, List, [], ◌∷◌, Option, none, some, Bool, true, false, ltb, leb, ◌==◌,
  if◌then◌else◌, length, map, min,
}
use awg_easy_rs.Prelude.Assoc.{lookup, update, erase}

-- `u64::MAX`
abbrev pub no_relay_generation : ℕ
no_relay_generation = 2 ^ 64 - 1

pub record Session : Type 0 where
  pub backend_sock : ℕ
  pub last_active : ℕ
  pub relay_generation : ℕ
  pub client_addr : ℕ

pub record SessionTable : Type 0 where
  pub sessions : List (ℕ × Session)
  pub backend_addr : ℕ
  pub ttl_ms : ℕ
  pub max_sessions : ℕ
  pub session_count : ℕ
  pub socket_buffer_bytes : ℕ

unfoldable pub new : ℕ → ℕ → ℕ → SessionTable
new backend_addr ttl_ms max_sessions = record {
  sessions = [];
  backend_addr = backend_addr;
  ttl_ms = ttl_ms;
  max_sessions = max_sessions;
  session_count = 0;
  socket_buffer_bytes = 0;
}

unfoldable pub with_socket_buffer_bytes : ℕ → SessionTable → SessionTable
with_socket_buffer_bytes bytes t = record t { socket_buffer_bytes = bytes }

-- `Session::touch`
abbrev pub touched : ℕ → Session → Session
touched now s = record s { last_active = now }

unfoldable pub touch : ℕ → ℕ → SessionTable → SessionTable
touch now addr t = record t { sessions = update addr (touched now) t.sessions }

abbrev pub with_generation : ℕ → Session → Session
with_generation generation s = record s { relay_generation = generation }

unfoldable pub set_relay_generation : ℕ → ℕ → SessionTable → SessionTable
set_relay_generation addr generation t = record t {
  sessions = update addr (with_generation generation) t.sessions;
}

unfoldable pub contains : ℕ → SessionTable → Bool
contains addr t = elim (lookup addr t.sessions) [ none ↦ false | some s ↦ true ]

-- What `get_or_create` answers: a socket and whether it is new, or one of its two errors.
pub data Answer : Type 0 where
  socket : ℕ → Bool → Answer
  limit_reached : ℕ → ℕ → Answer
  io_error : Answer

abbrev pub fresh_session : ℕ → ℕ → ℕ → Session
fresh_session sock now addr = record {
  backend_sock = sock;
  last_active = now;
  relay_generation = no_relay_generation;
  client_addr = addr;
}

-- The vacant arm: a slot is reserved, then the session inserted. No other call interferes, so the
-- first compare-and-exchange succeeds.
unfoldable pub insert_vacant : ℕ → ℕ → ℕ → SessionTable → SessionTable × Answer
insert_vacant now addr sock t =
    if leb t.max_sessions t.session_count
    then (t, limit_reached t.session_count t.max_sessions)
    else (
      record t {
        session_count = t.session_count + 1;
        sessions = (addr, fresh_session sock now addr) ∷ t.sessions;
      },
      socket sock true,
    )

-- The match on the entry, once the socket is bound.
unfoldable pub enter : ℕ → ℕ → ℕ → SessionTable → SessionTable × Answer
unfolding touch insert_vacant
enter now addr sock t = elim (lookup addr t.sessions) [
  | some s ↦ (touch now addr t, socket s.backend_sock false)
  | none ↦ insert_vacant now addr sock t
]

-- The slow path. `bound` is what binding and connecting the socket gives, `none` an error.
unfoldable pub create : ℕ → ℕ → Option ℕ → SessionTable → SessionTable × Answer
unfolding enter
create now addr bound t =
    if leb t.max_sessions t.session_count
    then elim (lookup addr t.sessions) [
      | some s ↦ (touch now addr t, socket s.backend_sock false)
      | none ↦ (t, limit_reached t.session_count t.max_sessions)
    ]
    else elim bound [ none ↦ (t, io_error) | some sock ↦ enter now addr sock t ]

unfoldable pub get_or_create : ℕ → ℕ → Option ℕ → SessionTable → SessionTable × Answer
unfolding create
get_or_create now addr bound t = elim (lookup addr t.sessions) [
  | some s ↦ (touch now addr t, socket s.backend_sock false)
  | none ↦ create now addr bound t
]

-- `now.saturating_sub(last) > ttl_ms`
abbrev pub is_expired : ℕ → ℕ → Session → Bool
is_expired now ttl_ms s = ltb ttl_ms (now - s.last_active)

-- The pass of `retain`: what is kept, what is reported, and the count.
pub record Sweep : Type 0 where
  pub kept : List (ℕ × Session)
  pub expired : List (ℕ × ℕ)
  pub count : ℕ

unfoldable pub retain : ℕ → ℕ → List (ℕ × Session) → ℕ → Sweep
retain now ttl_ms [] count = record { kept = []; expired = []; count = count }
retain now ttl_ms ((addr, s) ∷ rest) count =
    let gone = is_expired now ttl_ms s in
    let r = retain now ttl_ms rest (if gone then count - 1 else count) in
    if gone
    then record r { expired = (addr, s.relay_generation) ∷ r.expired }
    else record r { kept = (addr, s) ∷ r.kept }

-- The durations are `u128` milliseconds cut to a u64.
unfoldable pub cleanup_expired : ℕ → SessionTable → SessionTable × List (ℕ × ℕ)
cleanup_expired now t =
    let r = retain now (min t.ttl_ms (2 ^ 64 - 1)) t.sessions t.session_count in
    (record t { sessions = r.kept; session_count = r.count }, r.expired)

-- `local_addr` of a socket is the operating system's; `none` is its error.
unfoldable pub find_client : (ℕ → Option ℕ) → ℕ → List (ℕ × Session) → Option ℕ
find_client local_addr addr [] = none
find_client local_addr addr ((k, s) ∷ rest) =
    let later = find_client local_addr addr rest in
    elim (local_addr s.backend_sock) [
      | none ↦ later
      | some a ↦ if a == addr then some s.client_addr else later
    ]

unfoldable pub find_client_by_backend_local_addr : (ℕ → Option ℕ) → ℕ → SessionTable → Option ℕ
unfolding find_client
find_client_by_backend_local_addr local_addr addr t = find_client local_addr addr t.sessions

unfoldable pub all_backend_sockets : SessionTable → List (ℕ × ℕ)
all_backend_sockets t = map (λ e. (e.1.client_addr, e.1.backend_sock)) t.sessions

abbrev pub len : SessionTable → ℕ
len t = length t.sessions

abbrev pub is_empty : SessionTable → Bool
is_empty t = len t == 0

unfoldable pub remove : ℕ → SessionTable → SessionTable
remove addr t = elim (lookup addr t.sessions) [
  | none ↦ t
  | some s ↦ record t { sessions = erase addr t.sessions; session_count = t.session_count - 1 }
]
