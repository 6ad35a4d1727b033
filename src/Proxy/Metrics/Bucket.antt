-- ===== src/Proxy/Metrics/Bucket.antt =====
-- The token bucket of src/proxy/metrics.rs grants its rate: a call is exact, and a run of calls
-- in order grants no more than the burst and the refill.
use awg_easy_rs.Prelude.{
  ℕ, ◌+◌, ◌-◌, ◌*◌, ◌^◌, ◌≤◌, ◌<◌, ◌≡◌, refl, List, [], ◌∷◌, Bool, true, false, Bool-cases, inl,
  inr, ltb, leb, if◌then◌else◌, leb→le, sym, min, arith,
}
use awg_easy_rs.Proxy.Metrics.{
  try_acquire_against, mul_u32, pack, unpack, ClientMetrics, new_client, refilled, try_acquire_at,
}

-- The two halves of the state come back.
unpack-pack-tokens : (mt ts : ℕ) → mt < 2 ^ 32 → ts < 2 ^ 32 → (unpack (pack mt ts)).0 ≡ mt
unfolding pack unpack
unpack-pack-tokens mt ts h k = omega arith

unpack-pack-stamp : (mt ts : ℕ) → mt < 2 ^ 32 → ts < 2 ^ 32 → (unpack (pack mt ts)).1 ≡ ts
unfolding pack unpack
unpack-pack-stamp mt ts h k = omega arith

abbrev pub tokens : ClientMetrics → ℕ
tokens c = (unpack c.rate_state).0

abbrev pub stamp : ClientMetrics → ℕ
stamp c = (unpack c.rate_state).1

abbrev pub cap : ClientMetrics → ℕ
cap c = mul_u32 c.max_tokens 1000

-- The refill without the saturation and the casts of the code.
abbrev pub ideal : ℕ → ClientMetrics → ℕ
ideal now c = min (tokens c + (now - stamp c) * c.refill_rate * 1000) (cap c)

refilled-ideal : (now : ℕ) (c : ClientMetrics) → refilled now c (tokens c) (stamp c) ≡ ideal now c
unfolding refilled
refilled-ideal now c = omega arith

-- What one call does to the tokens, the time stamp and the answer.
pub record Spends (now : ℕ) (c c' : ClientMetrics) (granted : Bool) : Type 0 where
  pub answer : granted ≡ leb 1000 (ideal now c)
  pub paid : tokens c' ≡ (if granted then ideal now c - 1000 else ideal now c)
  pub stamped : stamp c' ≡ now
  pub same_rate : c'.refill_rate ≡ c.refill_rate
  pub same_cap : c'.max_tokens ≡ c.max_tokens

ideal-u32 : (now : ℕ) (c : ClientMetrics) → ideal now c < 2 ^ 32
ideal-u32 now c = omega arith

-- A call refills the bucket by the elapsed seconds times the rate, up to the cap, then takes one
-- token when there is one and refuses otherwise, although the code saturates and truncates.
pub try_acquire_at-Spends :
    (now : ℕ) (c : ClientMetrics)
    → now < 2 ^ 32
    → Spends now c (try_acquire_at now c).0 (try_acquire_at now c).1
unfolding try_acquire_at
try_acquire_at-Spends now c h =
    rw (refilled-ideal now c) (elim (Bool-cases (ltb (ideal now c) 1000)) [
      | inl low ↦ rw low (record {
        answer = ground arith;
        paid = unpack-pack-tokens (ideal now c) now (ideal-u32 now c) h;
        stamped = unpack-pack-stamp (ideal now c) now (ideal-u32 now c) h;
        same_rate = refl;
        same_cap = refl;
      })
      | inr high ↦ rw high (record {
        answer = ground arith;
        paid = unpack-pack-tokens (ideal now c - 1000) now (omega (arith, ideal-u32 now c)) h;
        stamped = unpack-pack-stamp (ideal now c - 1000) now (omega (arith, ideal-u32 now c)) h;
        same_rate = refl;
        same_cap = refl;
      })
    ])

-- Calls in order, each so many seconds behind the state before it, and how many were granted.
abbrev pub spend_all : List ℕ → ClientMetrics → ClientMetrics × ℕ
spend_all [] c = (c, 0)
spend_all (delay ∷ delays) c =
    let (c', granted) = try_acquire_at (stamp c + delay) c in
    let (final, count) = spend_all delays c' in (final, if granted then count + 1 else count)

abbrev pub total : List ℕ → ℕ
total [] = 0
total (delay ∷ delays) = delay + total delays

sum_minus : (a b : ℕ) → a + b - a ≡ b
sum_minus a b = omega arith

ideal-le : (c : ClientMetrics) (d : ℕ) → ideal (stamp c + d) c ≤ tokens c + d * c.refill_rate * 1000
ideal-le c d = rw (sum_minus (stamp c) d) (omega arith)

-- One more call in front of a run that keeps its bound.
spend_first :
    (g : Bool) (i n fin held t d r before : ℕ)
    → held ≡ (if g then i - 1000 else i)
    → g ≡ leb 1000 i
    → i ≤ before + d * r * 1000
    → n * 1000 + fin ≤ held + t * r * 1000
    → (if g then n + 1 else n) * 1000 + fin ≤ before + (d + t) * r * 1000
spend_first true i n fin held t d r before paid answer le rest =
    omega (arith, leb→le 1000 i (sym answer))
spend_first false i n fin held t d r before paid answer le rest = omega arith

-- A run of calls, at times that do not go back, grants no more tokens than the bucket held and the
-- refill of the time it took; the last state holds the rest.
pub spend_all-bounded :
    (delays : List ℕ) (c : ClientMetrics)
    → stamp c + total delays < 2 ^ 32
    → (spend_all delays c).1 * 1000 + tokens (spend_all delays c).0
      ≤ tokens c + total delays * c.refill_rate * 1000
spend_all-bounded [] c h = omega arith
spend_all-bounded (d ∷ ds) c h =
    let s = try_acquire_at-Spends (stamp c + d) c (omega arith) in
    let c' = (try_acquire_at (stamp c + d) c).0 in
    spend_first (try_acquire_at (stamp c + d) c).1 (ideal (stamp c + d) c) (spend_all ds c').1
      (tokens (spend_all ds c').0) (tokens c') (total ds) d c.refill_rate (tokens c) s.paid s.answer
      (ideal-le c d) (rw s.same_rate at (spend_all-bounded ds c' (rw s.stamped (omega arith))))

-- In calls one after the other, each at a time that is not before the stamp that the call before it
-- left, a new client is granted at most its rate for each second, the first one counted.
pub spend_all-new_client :
    (delays : List ℕ) (now rate : ℕ)
    → now + total delays < 2 ^ 32
    → (spend_all delays (new_client now rate)).1 ≤ rate * (total delays + 1)
unfolding new_client
spend_all-new_client delays now rate h =
    let full = mul_u32 rate 1000 in
    let c = new_client now rate in
    let at_now : stamp c ≡ now = unpack-pack-stamp full now (omega arith) (omega arith) in
    let held : tokens c ≡ full = unpack-pack-tokens full now (omega arith) (omega arith) in
    omega (arith, spend_all-bounded delays c (rw at_now h), held)

-- What the bucket loads in the last round, behind what the other threads stored.
abbrev pub last_of : ℕ → List ℕ → ℕ
last_of v [] = v
last_of v (w ∷ ws) = last_of w ws

-- A call that other threads overtake is granted exactly as a call alone from the state that the
-- last of them stored.
pub try_acquire_against-granted :
    (now : ℕ) (vs : List ℕ) (c : ClientMetrics)
    → (try_acquire_against now vs c).1 ≡ true
    → try_acquire_against now vs c
      ≡ try_acquire_at now (record c { rate_state = last_of c.rate_state vs })
unfolding try_acquire_against
try_acquire_against-granted now [] c h = refl
try_acquire_against-granted now (v ∷ vs) c h =
    let rest = try_acquire_against-granted now vs (record c { rate_state = v }) in
    ground (arith, rest)
