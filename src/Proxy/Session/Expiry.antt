-- ===== src/Proxy/Session/Expiry.antt =====
-- The cleanup sweep: who expires, with which relay, and what the table is afterwards.
use awg_easy_rs.Prelude.{
  ℕ, ◌+◌, ◌-◌, ◌^◌, ◌≤◌, ◌≡◌, refl, ◌∙◌, inl, inr, List, [], ◌∷◌, Option, none, some, true, false,
  Bool-cases, if◌then◌else◌, length, arith, min, ◌==◌,
}
use awg_easy_rs.Prelude.Assoc.{lookup, Distinct, lookup_hit, lookup_miss, lookup_hit_rest}
use awg_easy_rs.Proxy.Session.{
  Session, SessionTable, new, is_expired, retain, cleanup_expired, len, touch, set_relay_generation,
  get_or_create, remove,
}
use awg_easy_rs.Proxy.Session.Laws.{
  IsValid, touch-IsValid, set_relay_generation-IsValid, get_or_create-IsValid, remove-IsValid,
  new-IsValid,
}

-- What the sweep leaves of a session, and what it reports.
abbrev pub survivor : ℕ → ℕ → Option Session → Option Session
survivor now ttl none = none
survivor now ttl (some s) = if is_expired now ttl s then none else some s

abbrev pub casualty : ℕ → ℕ → Option Session → Option ℕ
casualty now ttl none = none
casualty now ttl (some s) = if is_expired now ttl s then some s.relay_generation else none

module _ (now ttl : ℕ) where
  retain_gone :
      (addr : ℕ) (s : Session) (rest : List (ℕ × Session)) (count : ℕ)
      → is_expired now ttl s ≡ true
      → let r = retain now ttl rest (count - 1) in
        retain now ttl ((addr, s) ∷ rest) count
        ≡ record r { expired = (addr, s.relay_generation) ∷ r.expired }
  unfolding retain
  retain_gone addr s rest count e = rw e

  retain_live :
      (addr : ℕ) (s : Session) (rest : List (ℕ × Session)) (count : ℕ)
      → is_expired now ttl s ≡ false
      → let r = retain now ttl rest count in
        retain now ttl ((addr, s) ∷ rest) count ≡ record r { kept = (addr, s) ∷ r.kept }
  unfolding retain
  retain_live addr s rest count e = rw e

  retain-length :
      (m : List (ℕ × Session)) (count : ℕ)
      → length m ≤ count
      → ((retain now ttl m count).count + length (retain now ttl m count).expired ≡ count)
        × (length (retain now ttl m count).kept + length (retain now ttl m count).expired
            ≡ length m)
  retain-length [] count h = unfold retain in (omega arith, omega arith)
  retain-length ((addr, s) ∷ rest) count h = elim (Bool-cases (is_expired now ttl s)) [
    | inl gone ↦
        let ih = retain-length rest (count - 1) (omega arith) in
        rw (retain_gone addr s rest count gone) (omega (arith, ih), omega (arith, ih))
    | inr live ↦
        let ih = retain-length rest count (omega arith) in
        rw (retain_live addr s rest count live) (omega (arith, ih), omega (arith, ih))
  ]

  -- A key is kept with its session if the session is live, and is absent otherwise.
  lookup-kept :
      (k : ℕ) (m : List (ℕ × Session)) (count : ℕ)
      → Distinct m
      → lookup k (retain now ttl m count).kept ≡ survivor now ttl (lookup k m)
  lookup-kept k [] count d = unfold retain lookup in refl
  lookup-kept k ((addr, s) ∷ rest) count d = elim (Bool-cases (is_expired now ttl s)) [
    | inl gone ↦
        rw (retain_gone addr s rest count gone, lookup-kept k rest (count - 1) d.1)
          (elim (Bool-cases (addr == k)) [
            | inl hit ↦ rw (lookup_hit_rest k addr s rest d hit, lookup_hit k addr s rest hit, gone)
            | inr miss ↦ rw (lookup_miss k addr s rest miss)
          ])
    | inr live ↦
        let r = retain now ttl rest count in
        rw (retain_live addr s rest count live) (elim (Bool-cases (addr == k)) [
          | inl hit ↦ rw (lookup_hit k addr s r.kept hit, lookup_hit k addr s rest hit, live)
          | inr miss ↦
              rw (lookup_miss k addr s r.kept miss, lookup_miss k addr s rest miss)
                (lookup-kept k rest count d.1)
        ])
  ]

  -- A key is reported, with its relay, exactly if its session is expired.
  lookup-expired :
      (k : ℕ) (m : List (ℕ × Session)) (count : ℕ)
      → Distinct m
      → lookup k (retain now ttl m count).expired ≡ casualty now ttl (lookup k m)
  lookup-expired k [] count d = unfold retain lookup in refl
  lookup-expired k ((addr, s) ∷ rest) count d = elim (Bool-cases (is_expired now ttl s)) [
    | inl gone ↦
        let r = retain now ttl rest (count - 1) in
        rw (retain_gone addr s rest count gone) (elim (Bool-cases (addr == k)) [
          | inl hit ↦ rw (
            lookup_hit k addr s.relay_generation r.expired hit,
            lookup_hit k addr s rest hit,
            gone,
          )
          | inr miss ↦
              rw
                (
                  lookup_miss k addr s.relay_generation r.expired miss,
                  lookup_miss k addr s rest miss,
                )
                (lookup-expired k rest (count - 1) d.1)
        ])
    | inr live ↦
        rw (retain_live addr s rest count live, lookup-expired k rest count d.1)
          (elim (Bool-cases (addr == k)) [
            | inl hit ↦ rw (lookup_hit_rest k addr s rest d hit, lookup_hit k addr s rest hit, live)
            | inr miss ↦ rw (lookup_miss k addr s rest miss)
          ])
  ]

  retain-Distinct :
      (m : List (ℕ × Session)) (count : ℕ) → Distinct m → Distinct (retain now ttl m count).kept
  retain-Distinct [] count d = unfold retain in tt
  retain-Distinct ((addr, s) ∷ rest) count d = elim (Bool-cases (is_expired now ttl s)) [
    | inl gone ↦ rw (retain_gone addr s rest count gone) (retain-Distinct rest (count - 1) d.1)
    | inr live ↦
        rw (retain_live addr s rest count live)
          (lookup-kept addr rest count d.1 ∙ rw d.0, retain-Distinct rest count d.1)
  ]

-- The time to live that the sweep compares with.
abbrev pub ttl_cut : SessionTable → ℕ
ttl_cut t = min t.ttl_ms (2 ^ 64 - 1)

pub cleanup_expired-IsValid :
    (now : ℕ) (t : SessionTable) → IsValid t → IsValid (cleanup_expired now t).0
unfolding cleanup_expired
cleanup_expired-IsValid now t v =
    let c = v.counted in
    let l = retain-length now (ttl_cut t) t.sessions t.session_count (omega arith) in
    record {
      counted = omega (arith, l);
      bounded = omega (arith, l, v.bounded);
      distinct = retain-Distinct now (ttl_cut t) t.sessions t.session_count v.distinct;
    }

-- The sweep forgets exactly the clients that were silent for longer than the time to live and
-- leaves every other session as it was; it reports exactly those clients, each with the relay
-- generation that was registered for its session, and the counter falls by their number.
pub cleanup_expired-exact :
    (now k : ℕ) (t : SessionTable)
    → IsValid t
    → let r = cleanup_expired now t in
      (lookup k r.0.sessions ≡ survivor now (ttl_cut t) (lookup k t.sessions))
      × (lookup k r.1 ≡ casualty now (ttl_cut t) (lookup k t.sessions))
      × (r.0.session_count + length r.1 ≡ t.session_count)
unfolding cleanup_expired
cleanup_expired-exact now k t v = (
  lookup-kept now (ttl_cut t) k t.sessions t.session_count v.distinct,
  lookup-expired now (ttl_cut t) k t.sessions t.session_count v.distinct,
  (retain-length now (ttl_cut t) t.sessions t.session_count (omega (arith, v.counted))).0,
)

-- The calls that change the table.
pub data Call : Type 0 where
  obtains : (now addr : ℕ) → Option ℕ → Call
  touches : (now addr : ℕ) → Call
  registers : (addr generation : ℕ) → Call
  removes : (addr : ℕ) → Call
  sweeps : (now : ℕ) → Call

unfoldable pub step : Call → SessionTable → SessionTable
step (obtains now addr bound) t = (get_or_create now addr bound t).0
step (touches now addr) t = touch now addr t
step (registers addr generation) t = set_relay_generation addr generation t
step (removes addr) t = remove addr t
step (sweeps now) t = (cleanup_expired now t).0

unfoldable pub run : List Call → SessionTable → SessionTable
run [] t = t
run (c ∷ cs) t = run cs (step c t)

step-IsValid : (c : Call) (t : SessionTable) → IsValid t → IsValid (step c t)
unfolding step
step-IsValid (obtains now addr bound) t v = get_or_create-IsValid now addr bound t v
step-IsValid (touches now addr) t v = touch-IsValid now addr t v
step-IsValid (registers addr generation) t v = set_relay_generation-IsValid addr generation t v
step-IsValid (removes addr) t v = remove-IsValid addr t v
step-IsValid (sweeps now) t v = cleanup_expired-IsValid now t v

-- No call changes the limit.
step-limit : (c : Call) (t : SessionTable) → (step c t).max_sessions ≡ t.max_sessions
unfolding step get_or_create touch set_relay_generation remove cleanup_expired
step-limit (obtains now addr bound) t = ground arith
step-limit (touches now addr) t = refl
step-limit (registers addr generation) t = refl
step-limit (removes addr) t = ground arith
step-limit (sweeps now) t = refl

run-IsValid :
    (cs : List Call) (t : SessionTable)
    → IsValid t
    → IsValid (run cs t) × ((run cs t).max_sessions ≡ t.max_sessions)
unfolding run
run-IsValid [] t v = (v, refl)
run-IsValid (c ∷ cs) t v =
    let (w, e) = run-IsValid cs (step c t) (step-IsValid c t v) in (w, e ∙ step-limit c t)

-- After any calls on a new table the counter is the number of sessions, that number is within the
-- configured limit, and no client has two sessions.
pub run-new-IsValid :
    (cs : List Call) (addr ttl most : ℕ)
    → IsValid (run cs (new addr ttl most)) × (len (run cs (new addr ttl most)) ≤ most)
run-new-IsValid cs addr ttl most =
    let (v, e) = run-IsValid cs (new addr ttl most) (new-IsValid addr ttl most) in
    let limit : (new addr ttl most).max_sessions ≡ most = unfold new in refl in
    (v, omega (arith, v.bounded))
