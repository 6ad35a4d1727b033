-- ===== src/Proxy/Transform/Quic.antt =====
-- src/proxy/transform.rs: QUIC padding, a 1-RTT short header.
pub mod Laws
use awg_easy_rs.Prelude.{
  ℕ, zero, suc, ◌+◌, ◌*◌, ◌/◌, ◌%◌, ◌^◌, bit_and, bit_or, List, [], ◌∷◌, ◌++◌, Option, none, some,
  leb, ◌||◌, ◌==◌, if◌then◌else◌, length, take, drop,
}
use awg_easy_rs.Proxy.Packet.{
  AwgPacketType, handshake_init, handshake_response, cookie_reply, transport_data,
}
use awg_easy_rs.Proxy.Transform.Random.{fnv1a_seed, lcg_step}

-- The loop over `padding[1..]`: the bytes that it overwrites give its length.
unfoldable pub fill_random : ℕ → List ℕ → List ℕ
fill_random state [] = []
fill_random state (b ∷ bs) = (state / 2 ^ 16 % 256) ∷ fill_random (lcg_step state) bs

-- `0x40 | (spin << 5) | (key_phase << 2) | pn_len_bits`
unfoldable pub short_header : ℕ → ℕ → ℕ → ℕ
short_header spin key_phase pn_len_bits =
    bit_or (bit_or (bit_or 0x40 (spin * 32)) (key_phase * 4)) pn_len_bits

-- The new padding, from the old one and the payload.
unfoldable pub quic_padding : List ℕ → List ℕ → List ℕ
unfolding fill_random short_header
quic_padding [] payload = []
quic_padding (b ∷ bs) payload =
    let s0 = fnv1a_seed payload in
    let spin = bit_and (s0 / 2 ^ 8 % 256) 1 in
    let s1 = lcg_step s0 in
    let key_phase = bit_and (s1 / 2 ^ 8 % 256) 1 in
    let s2 = lcg_step s1 in
    let pn_len_bits = bit_and (s2 % 256) 3 in
    let s3 = lcg_step s2 in short_header spin key_phase pn_len_bits ∷ fill_random s3 bs

-- `split_at_mut` panics behind the end.
unfoldable pub apply_quic_padding_short : List ℕ → ℕ → Option (List ℕ)
unfolding quic_padding
apply_quic_padding_short packet pad_size =
    if leb pad_size (length packet)
    then some (quic_padding (take pad_size packet) (drop pad_size packet) ++ drop pad_size packet)
    else none

-- Every packet type takes the short header.
unfoldable pub apply_quic_padding_typed : List ℕ → ℕ → AwgPacketType → Option (List ℕ)
unfolding apply_quic_padding_short
apply_quic_padding_typed packet pad_size t =
    if pad_size == 0 || leb (length packet) pad_size then some packet else elim t [
      | handshake_init ↦ apply_quic_padding_short packet pad_size
      | transport_data ↦ apply_quic_padding_short packet pad_size
      | handshake_response ↦ apply_quic_padding_short packet pad_size
      | cookie_reply ↦ apply_quic_padding_short packet pad_size
    ]
