-- ===== src/Proxy/Transform/Stun.antt =====
-- src/proxy/transform.rs: STUN padding, a Binding Success Response.
pub mod Tlvs
pub mod Laws
use awg_easy_rs.Prelude.{
  ℕ, zero, suc, ◌+◌, ◌-◌, ◌*◌, ◌/◌, ◌%◌, ◌^◌, min, bit_xor, List, [], ◌∷◌, ◌++◌, Option, none, some,
  ltb, leb, ◌==◌, if◌then◌else◌, length, take, drop, u16_to_be_bytes, u32_to_be_bytes, copy_at,
  fill_from, ◌>>=◌,
}
use awg_easy_rs.Proxy.Transform.Random.{fnv1a_seed, lcg_step}

abbrev pub cookie : ℕ
cookie = 0x2112_A442

-- Attribute area inside the padding: `(pad_size - 20) & !0b11`.
unfoldable pub stun_body : ℕ → ℕ
stun_body pad_size = if ltb 20 pad_size then (pad_size - 20) / 4 * 4 else 0

-- The XOR-MAPPED-ADDRESS attribute for a port and an address.
unfoldable pub xor_mapped : ℕ → ℕ → List ℕ
xor_mapped port addr =
    u16_to_be_bytes 0x0020
    ++ (u16_to_be_bytes 8
        ++ (0x00
            ∷ 0x01
            ∷ (u16_to_be_bytes (bit_xor port (cookie / 2 ^ 16))
                ++ u32_to_be_bytes (bit_xor addr cookie))))

-- Printable bytes, one drawn from each state.
unfoldable pub software_value : ℕ → ℕ → List ℕ
software_value zero state = []
software_value (suc n) state = (0x20 + state % 0x5F) ∷ software_value n (lcg_step state)

unfoldable pub software : ℕ → ℕ → List ℕ
unfolding software_value
software vlen state = u16_to_be_bytes 0x8022 ++ (u16_to_be_bytes vlen ++ software_value vlen state)

-- The buffer, the bytes of attributes written, and the generator's state.
pub record Writer : Type 0 where
  pub buf : List ℕ
  pub written : ℕ
  pub state : ℕ

-- `if body - written >= 12 { ... }`
unfoldable pub put_address : ℕ → Writer → Option Writer
put_address body w =
    if leb 12 (body - w.written)
    then (do
      let addr = lcg_step w.state
      buf ← copy_at (20 + w.written) (xor_mapped (w.state / 2 ^ 16 % 2 ^ 16) addr) w.buf
      some (record { buf = buf; written = w.written + 12; state = lcg_step addr }))
    else some w

-- `if remaining >= 4 { ... }`; nothing reads the generator behind it.
unfoldable pub put_software : ℕ → Writer → Option Writer
put_software body w =
    let remaining = body - w.written in
    let vlen = min (remaining - 4) 124 in
    if leb 4 remaining
    then (do
      buf ← copy_at (20 + w.written) (software vlen w.state) w.buf
      some (record w { buf = buf; written = w.written + (4 + vlen) }))
    else some w

unfoldable pub stun_header : ℕ → List ℕ → List ℕ
stun_header written txn =
    u16_to_be_bytes 0x0101 ++ (u16_to_be_bytes written ++ (u32_to_be_bytes cookie ++ txn))

-- The transaction ID: three draws.
unfoldable pub stun_txn : ℕ → List ℕ
stun_txn s =
    u32_to_be_bytes s ++ (u32_to_be_bytes (lcg_step s) ++ u32_to_be_bytes (lcg_step (lcg_step s)))

-- `if let Some(tail) = padding.get_mut(o..)`: a start behind the end changes nothing.
unfoldable pub zero_tail : ℕ → List ℕ → Option (List ℕ)
zero_tail o buf = if leb o (length buf) then fill_from o 0 buf else some buf

unfoldable pub stun_padding : List ℕ → List ℕ → Option (List ℕ)
stun_padding padding payload = do
  let seed = fnv1a_seed payload
  let body = stun_body (length padding)
  let start = lcg_step (lcg_step (lcg_step seed))
  w₁ ← put_address body (record { buf = padding; written = 0; state = start })
  w₂ ← put_software body w₁
  let copy_len = min (length padding) 20
  p ← copy_at 0 (take copy_len (stun_header w₂.written (stun_txn seed))) w₂.buf
  zero_tail (20 + w₂.written) p

unfoldable pub apply_stun_padding : List ℕ → ℕ → Option (List ℕ)
unfolding stun_padding
apply_stun_padding packet pad_size =
    if leb pad_size (length packet)
    then (if length (take pad_size packet) == 0 then some packet else (do
      p ← stun_padding (take pad_size packet) (drop pad_size packet)
      some (p ++ drop pad_size packet)))
    else none
