-- ===== src/Proxy/Metrics/Store.antt =====
-- src/proxy/metrics.rs: the store of the clients' metrics, with a bound on their number. A call
-- holds the shard of its key from the look-up to the insertion, so it is one step here.
use awg_easy_rs.Prelude.{
  ℕ, ◌+◌, ◌-◌, ◌≤◌, ◌≡◌, refl, List, [], ◌∷◌, Option, none, some, Bool, true, false, Bool-cases,
  inl, inr, leb, if◌then◌else◌, length, Option-cases, ◌↔◌, ◌==◌, ==_iff, arith,
}
use awg_easy_rs.Prelude.Assoc.{
  lookup, erase, Distinct, length-erase, erase-Distinct, lookup_hit, lookup-erase_self,
  lookup-erase_ne,
}
use awg_easy_rs.Proxy.Metrics.{ClientMetrics, new_client}

-- `client_count` is apart from the map, as in the code. A client's metrics are shared, so a
-- change of them is a change of the entry.
pub record MetricsStore : Type 0 where
  pub clients : List (ℕ × ClientMetrics)
  pub rate_limit_per_sec : ℕ
  pub max_clients : ℕ
  pub client_count : ℕ

unfoldable pub new : ℕ → ℕ → MetricsStore
new rate_limit_per_sec max_clients = record {
  clients = [];
  rate_limit_per_sec = rate_limit_per_sec;
  max_clients = max_clients;
  client_count = 0;
}

unfoldable pub get : ℕ → MetricsStore → Option ClientMetrics
get addr s = lookup addr s.clients

-- The `Vacant` arm of the entry.
unfoldable pub reserve : ℕ → ℕ → MetricsStore → MetricsStore × Option ClientMetrics
reserve now addr s =
    let metrics = new_client now s.rate_limit_per_sec in
    if leb s.max_clients s.client_count then (s, none) else (
      record s { clients = (addr, metrics) ∷ s.clients; client_count = s.client_count + 1 },
      some metrics,
    )

unfoldable pub get_or_create : ℕ → ℕ → MetricsStore → MetricsStore × Option ClientMetrics
get_or_create now addr s = elim (lookup addr s.clients) [
  | some metrics ↦ (s, some metrics)
  | none ↦ reserve now addr s
]

unfoldable pub remove : ℕ → MetricsStore → MetricsStore
remove addr s = elim (lookup addr s.clients) [
  | some metrics ↦ record s { clients = erase addr s.clients; client_count = s.client_count - 1 }
  | none ↦ s
]

unfoldable pub len : MetricsStore → ℕ
len s = length s.clients

unfoldable pub is_empty : MetricsStore → Bool
is_empty s = elim s.clients [ [] ↦ true | _ ∷ _ ↦ false ]

-- The counter is the number of entries, which is within the bound, and no key stands twice.
pub record IsValid (s : MetricsStore) : Type 0 where
  pub counted : s.client_count ≡ len s
  pub bounded : len s ≤ s.max_clients
  pub distinct : Distinct s.clients

pub data Op : Type 0 where
  get_or_create_op : ℕ → ℕ → Op
  remove_op : ℕ → Op

abbrev pub apply : Op → MetricsStore → MetricsStore
apply (get_or_create_op now addr) s = (get_or_create now addr s).0
apply (remove_op addr) s = remove addr s

abbrev pub apply_all : List Op → MetricsStore → MetricsStore
apply_all [] s = s
apply_all (op ∷ ops) s = apply_all ops (apply op s)

reserve-IsValid :
    (now addr : ℕ) (s : MetricsStore)
    → lookup addr s.clients ≡ none
    → IsValid s
    → IsValid (reserve now addr s).0
unfolding reserve len
reserve-IsValid now addr s absent v = elim (Bool-cases (leb s.max_clients s.client_count)) [
  | inl full ↦ rw full v
  | inr room ↦ rw room (record {
    counted = omega (arith, v.counted);
    bounded = ground (arith, v.counted, room);
    distinct = (absent, v.distinct);
  })
]

get_or_create-IsValid :
    (now addr : ℕ) (s : MetricsStore) → IsValid s → IsValid (get_or_create now addr s).0
unfolding get_or_create
get_or_create-IsValid now addr s v = elim (Option-cases (lookup addr s.clients)) [
  | inl absent ↦ rw (absent, get_or_create) (reserve-IsValid now addr s absent v)
  | inr (metrics, known) ↦ rw (known, get_or_create) v
]

remove-IsValid : (addr : ℕ) (s : MetricsStore) → IsValid s → IsValid (remove addr s)
unfolding remove len
remove-IsValid addr s v = elim (Option-cases (lookup addr s.clients)) [
  | inl absent ↦ rw (absent, remove) v
  | inr (metrics, known) ↦
      let l = length-erase addr s.clients (λ q. cc) in
      rw (known, remove)
        (record {
          counted = omega (arith, l, v.counted);
          bounded = omega (arith, l, v.bounded);
          distinct = erase-Distinct addr s.clients v.distinct;
        })
]

apply_all-IsValid : (ops : List Op) (s : MetricsStore) → IsValid s → IsValid (apply_all ops s)
apply_all-IsValid [] s v = v
apply_all-IsValid (get_or_create_op now addr ∷ ops) s v =
    apply_all-IsValid ops (get_or_create now addr s).0 (get_or_create-IsValid now addr s v)
apply_all-IsValid (remove_op addr ∷ ops) s v =
    apply_all-IsValid ops (remove addr s) (remove-IsValid addr s v)

new-IsValid : (rate bound : ℕ) → IsValid (new rate bound)
unfolding new len
new-IsValid rate bound = record { counted = refl; bounded = omega arith; distinct = tt }

apply_all-max : (ops : List Op) (s : MetricsStore) → (apply_all ops s).max_clients ≡ s.max_clients
unfolding get_or_create remove reserve
apply_all-max [] s = refl
apply_all-max (get_or_create_op now addr ∷ ops) s =
    ground (arith, apply_all-max ops (get_or_create now addr s).0)
apply_all-max (remove_op addr ∷ ops) s = ground (arith, apply_all-max ops (remove addr s))

apply_all-max-new :
    (ops : List Op) (rate bound : ℕ) → (apply_all ops (new rate bound)).max_clients ≡ bound
unfolding new
apply_all-max-new ops rate bound = apply_all-max ops (new rate bound)

refused_iff :
    (now addr : ℕ) (s : MetricsStore)
    → IsValid s
    → ((get_or_create now addr s).1 ≡ none) ↔ ((get addr s ≡ none) × (len s ≡ s.max_clients))
unfolding get_or_create get reserve
refused_iff now addr s v = ground (arith, v.counted, v.bounded)

-- After any calls on a new store, a client is refused exactly when the store does not know it and
-- holds as many clients as it was made for; it never holds more.
pub refused-apply_all-new :
    (ops : List Op) (now addr rate bound : ℕ)
    → (len (apply_all ops (new rate bound)) ≤ bound)
      × (((get_or_create now addr (apply_all ops (new rate bound))).1 ≡ none) ↔ (
          (get addr (apply_all ops (new rate bound)) ≡ none)
          × (len (apply_all ops (new rate bound)) ≡ bound)))
refused-apply_all-new ops now addr rate bound =
    let s = apply_all ops (new rate bound) in
    let v = apply_all-IsValid ops (new rate bound) (new-IsValid rate bound) in
    let m = apply_all-max-new ops rate bound in
    (omega (arith, v.bounded, m), rw m at (refused_iff now addr s v))

-- What `get_or_create` returned is what `get` finds, and `remove` forgets it.
get-get_or_create :
    (now addr : ℕ) (s : MetricsStore) (metrics : ClientMetrics)
    → (get_or_create now addr s).1 ≡ some metrics
    → get addr (get_or_create now addr s).0 ≡ some metrics
unfolding get_or_create get reserve
get-get_or_create now addr s metrics h = ground (
  arith,
  lookup_hit addr addr (new_client now s.rate_limit_per_sec) s.clients ((==_iff addr addr).1 refl),
)

-- `remove` forgets its client and no other.
get-remove :
    (addr other : ℕ) (s : MetricsStore)
    → IsValid s
    → get other (remove addr s) ≡ (if other == addr then none else get other s)
unfolding get remove
get-remove addr other s v =
    ground
      (arith, lookup-erase_self addr s.clients v.distinct, lookup-erase_ne addr other s.clients)
