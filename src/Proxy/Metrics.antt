-- ===== src/Proxy/Metrics.antt =====
-- src/proxy/metrics.rs: traffic counters and the token bucket of a client, and the store of them.
-- A counter is an atomic u64 that wraps. A call of the bucket is its successful round: a failed
-- compare-and-exchange starts it again from what the other thread stored.
pub mod Bucket
pub mod Store
mod Tests
use awg_easy_rs.Prelude.{
  ℕ, ◌+◌, ◌-◌, ◌*◌, ◌/◌, ◌%◌, ◌^◌, List, [], ◌∷◌, Option, none, some, Bool, true, false, ltb, leb,
  ◌==◌, if◌then◌else◌, length, min,
}
use awg_easy_rs.Prelude.Assoc.{lookup, erase}

abbrev pub u32_max : ℕ
u32_max = 2 ^ 32 - 1

abbrev pub u64_max : ℕ
u64_max = 2 ^ 64 - 1

-- `saturating_mul` and `saturating_add`.
abbrev pub mul_u32 : ℕ → ℕ → ℕ
mul_u32 a b = min (a * b) u32_max

abbrev pub mul_u64 : ℕ → ℕ → ℕ
mul_u64 a b = min (a * b) u64_max

abbrev pub add_u64 : ℕ → ℕ → ℕ
add_u64 a b = min (a + b) u64_max

-- The two halves share no bit, so `|` adds them.
unfoldable pub pack : ℕ → ℕ → ℕ
pack millitokens ts = millitokens * 2 ^ 32 + ts

unfoldable pub unpack : ℕ → ℕ × ℕ
unpack v = (v / 2 ^ 32 % 2 ^ 32, v % 2 ^ 32)

pub record ClientMetrics : Type 0 where
  pub packets_in : ℕ
  pub packets_out : ℕ
  pub bytes_in : ℕ
  pub bytes_out : ℕ
  pub probes_sent : ℕ
  pub rate_state : ℕ
  pub max_tokens : ℕ
  pub refill_rate : ℕ

unfoldable pub new_client : ℕ → ℕ → ClientMetrics
new_client now rate_limit_per_sec = record {
  packets_in = 0;
  packets_out = 0;
  bytes_in = 0;
  bytes_out = 0;
  probes_sent = 0;
  rate_state = pack (mul_u32 rate_limit_per_sec 1000) now;
  max_tokens = rate_limit_per_sec;
  refill_rate = rate_limit_per_sec;
}

-- The tokens after the refill, in thousandths.
unfoldable pub refilled : ℕ → ClientMetrics → ℕ → ℕ → ℕ
refilled now c old_mt old_ts =
    let elapsed = now - old_ts in
    let refill = mul_u64 (mul_u64 elapsed c.refill_rate) 1000 in
    let max_mt = mul_u32 c.max_tokens 1000 in min (add_u64 old_mt refill) max_mt % 2 ^ 32

-- One round of the loop, from the state that it loads.
unfoldable pub try_acquire_at : ℕ → ClientMetrics → ClientMetrics × Bool
try_acquire_at now c =
    let (old_mt, old_ts) = unpack c.rate_state in
    let current_mt = refilled now c old_mt old_ts in
    if ltb current_mt 1000
    then (record c { rate_state = pack current_mt now }, false)
    else (record c { rate_state = pack (current_mt - 1000) now }, true)

-- The loop: each other thread that stores between the load and the exchange makes it fail. A
-- refusal stores at most once and does not look whether that succeeded.
unfoldable pub try_acquire_against : ℕ → List ℕ → ClientMetrics → ClientMetrics × Bool
try_acquire_against now [] c = try_acquire_at now c
try_acquire_against now (v ∷ vs) c =
    let c' = record c { rate_state = v } in
    let again = try_acquire_against now vs c' in
    let (mine, granted) = try_acquire_at now c in
    if v == c.rate_state then again else if granted then again else (c', false)

unfoldable pub record_in_bytes : ℕ → ClientMetrics → ClientMetrics
record_in_bytes bytes c = record c {
  packets_in = (c.packets_in + 1) % 2 ^ 64;
  bytes_in = (c.bytes_in + bytes) % 2 ^ 64;
}

unfoldable pub record_out_bytes : ℕ → ClientMetrics → ClientMetrics
record_out_bytes bytes c = record c {
  packets_out = (c.packets_out + 1) % 2 ^ 64;
  bytes_out = (c.bytes_out + bytes) % 2 ^ 64;
}

unfoldable pub record_in : ClientMetrics → ClientMetrics
record_in c = record_in_bytes 0 c

unfoldable pub record_out : ClientMetrics → ClientMetrics
record_out c = record_out_bytes 0 c

unfoldable pub record_probe : ClientMetrics → ClientMetrics
record_probe c = record c { probes_sent = (c.probes_sent + 1) % 2 ^ 64 }

unfoldable pub record_probe_bytes : ℕ → ClientMetrics → ClientMetrics
record_probe_bytes bytes c = record c {
  probes_sent = (c.probes_sent + 1) % 2 ^ 64;
  packets_out = (c.packets_out + 1) % 2 ^ 64;
  bytes_out = (c.bytes_out + bytes) % 2 ^ 64;
}

pub record ClientMetricsSnapshot : Type 0 where
  pub packets_in : ℕ
  pub packets_out : ℕ
  pub bytes_in : ℕ
  pub bytes_out : ℕ
  pub probes_sent : ℕ

unfoldable pub snapshot : ClientMetrics → ClientMetricsSnapshot
snapshot c = record {
  packets_in = c.packets_in;
  packets_out = c.packets_out;
  bytes_in = c.bytes_in;
  bytes_out = c.bytes_out;
  probes_sent = c.probes_sent;
}
