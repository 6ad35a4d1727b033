-- ===== src/Proxy/Session/Race.antt =====
-- The interleavings of the calls on a session table: the steps that other threads can come
-- between. A map entry's guard is held from the test for a vacant entry to the insertion, and
-- around the erasure of an entry; the counter is a separate atomic.
pub mod Laws
use awg_easy_rs.Prelude.{
  ℕ, ◌+◌, ◌-◌, ◌≤◌, ◌<◌, ◌≡◌, ◌≢◌, refl, sym, ap, ◌∙◌, inl, inr, List, [], ◌∷◌, Option, none, some,
  length, arith,
}
use awg_easy_rs.Prelude.Assoc.{
  lookup, update, erase, Distinct, length-update, length-erase, update-Distinct, erase-Distinct,
  lookup-update-none, lookup-erase-none,
}
use awg_easy_rs.Proxy.Session.{Session, SessionTable, new, touched, with_generation, fresh_session}

-- The table, the guarded addresses with a slot reserved and no session yet, how many removed
-- sessions are not yet subtracted from the counter, and the guarded addresses that the sweep has
-- subtracted and not yet erased.
pub record Shared : Type 0 where
  pub table : SessionTable
  pub reserved : List (ℕ × Unit {0})
  pub dropped : ℕ
  pub leaving : List (ℕ × Unit {0})

abbrev pub with_sessions : List (ℕ × Session) → Shared → Shared
with_sessions m s = record s { table = record s.table { sessions = m } }

abbrev pub counted_up : Shared → Shared
counted_up s = record s { table = record s.table { session_count = s.table.session_count + 1 } }

abbrev pub counted_down : Shared → Shared
counted_down s = record s { table = record s.table { session_count = s.table.session_count - 1 } }

-- One atomic step of some thread.
pub data Step : Shared → Shared → Type 0 where
  -- `entry.touch()` and the store of a generation, under a read guard.
  stores :
      (addr : ℕ) (f : Session → Session) {s : Shared}
      → Step s (with_sessions (update addr f s.table.sessions) s)
  -- In the vacant arm: the compare-and-exchange that reserves a slot.
  reserves :
      (addr : ℕ) {s s' : Shared}
      → lookup addr s.table.sessions ≡ none
      → lookup addr s.reserved ≡ none
      → lookup addr s.leaving ≡ none
      → s.table.session_count < s.table.max_sessions
      → s' ≡ record (counted_up s) { reserved = (addr, tt) ∷ s.reserved }
      → Step s s'
  -- `vac.insert(session)`.
  inserts :
      (addr sock now : ℕ) {s s' : Shared}
      → lookup addr s.reserved ≡ some tt
      → s' ≡ record (with_sessions ((addr, fresh_session sock now addr) ∷ s.table.sessions) s) {
        reserved = erase addr s.reserved;
      }
      → Step s s'
  -- `self.sessions.remove(addr)` that found a session.
  removes :
      (addr : ℕ) {s s' : Shared}
      → lookup addr s.table.sessions ≢ none
      → lookup addr s.leaving ≡ none
      → s' ≡ record (with_sessions (erase addr s.table.sessions) s) { dropped = s.dropped + 1 }
      → Step s s'
  -- The `fetch_sub` behind it.
  subtracts :
      {s s' : Shared}
      → 1 ≤ s.dropped
      → s' ≡ record (counted_down s) { dropped = s.dropped - 1 }
      → Step s s'
  -- In the sweep's closure: the `fetch_sub` for an expired session.
  expires :
      (addr : ℕ) {s s' : Shared}
      → lookup addr s.table.sessions ≢ none
      → lookup addr s.leaving ≡ none
      → s' ≡ record (counted_down s) { leaving = (addr, tt) ∷ s.leaving }
      → Step s s'
  -- `retain` erases what the closure gave up.
  erases :
      (addr : ℕ) {s s' : Shared}
      → lookup addr s.leaving ≡ some tt
      → s'
        ≡ record (with_sessions (erase addr s.table.sessions) s) { leaving = erase addr s.leaving }
      → Step s s'

pub data Reach (s : Shared) : Shared → Type 0 where
  here : Reach s s
  next : {t u : Shared} → Reach s t → Step t u → Reach s u

-- The counter is off by exactly the steps under way, and never above the limit.
pub record Inv (s : Shared) : Type 0 where
  pub balance :
      s.table.session_count + length s.leaving
      ≡ length s.table.sessions + length s.reserved + s.dropped
  pub within : s.table.session_count ≤ s.table.max_sessions
  pub distinct : Distinct s.table.sessions
  pub guards : Distinct s.reserved
  pub vacant : (addr : ℕ) → lookup addr s.reserved ≢ none → lookup addr s.table.sessions ≡ none
  pub present : (addr : ℕ) → lookup addr s.leaving ≢ none → lookup addr s.table.sessions ≢ none
  pub leavers : Distinct s.leaving
