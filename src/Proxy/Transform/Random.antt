-- ===== src/Proxy/Transform/Random.antt =====
-- src/proxy/transform.rs: the generator that fills padding, seeded from the payload.
use awg_easy_rs.Prelude.{ℕ, ◌+◌, ◌*◌, ◌%◌, ◌^◌, bit_xor, List, [], ◌∷◌, take}

-- `state ^= b as u32; state = state.wrapping_mul(0x0100_0193);`
unfoldable pub fnv1a_loop : ℕ → List ℕ → ℕ
fnv1a_loop state [] = state
fnv1a_loop state (b ∷ bs) = fnv1a_loop (bit_xor state b * 0x0100_0193 % 2 ^ 32) bs

unfoldable pub fnv1a_seed : List ℕ → ℕ
unfolding fnv1a_loop
fnv1a_seed payload = fnv1a_loop 0x811c_9dc5 (take 64 payload)

unfoldable pub lcg_step : ℕ → ℕ
lcg_step state = (state * 1_103_515_245 % 2 ^ 32 + 12345) % 2 ^ 32
