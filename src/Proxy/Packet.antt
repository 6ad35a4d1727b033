-- ===== src/Proxy/Packet.antt =====
-- src/proxy/responder.rs, the first part: the protocols, the AmneziaWG packet types and their
-- recognition by size and header.
pub mod Laws
mod Tests
use awg_easy_rs.Prelude.{
  ℕ, ◌+◌, List, [], ◌∷◌, Option, none, some, Bool, true, false, ltb, ◌==◌, not, if◌then◌else◌,
  length, get_elem?, u32_from_le_bytes, ◌>>=◌,
}
use awg_easy_rs.Proxy.Params.{HRange, AwgParams, contains}

pub data Protocol : Type 0 where
  quic dns stun sip : Protocol

pub data AwgPacketType : Type 0 where
  handshake_init handshake_response cookie_reply transport_data : AwgPacketType

abbrev pub wg_handshake_init_size : ℕ
wg_handshake_init_size = 148

abbrev pub wg_handshake_response_size : ℕ
wg_handshake_response_size = 92

abbrev pub wg_cookie_reply_size : ℕ
wg_cookie_reply_size = 64

abbrev pub wg_transport_data_min_size : ℕ
wg_transport_data_min_size = 32

unfoldable pub padding_size : AwgPacketType → AwgParams → ℕ
padding_size handshake_init p = p.s1
padding_size handshake_response p = p.s2
padding_size cookie_reply p = p.s3
padding_size transport_data p = p.s4

unfoldable pub expected_message_size : AwgPacketType → Option ℕ
expected_message_size handshake_init = some wg_handshake_init_size
expected_message_size handshake_response = some wg_handshake_response_size
expected_message_size cookie_reply = some wg_cookie_reply_size
expected_message_size transport_data = none

unfoldable pub min_total_size : AwgPacketType → AwgParams → ℕ
unfolding padding_size expected_message_size
min_total_size transport_data p = padding_size transport_data p + wg_transport_data_min_size
min_total_size t p = padding_size t p + elim (expected_message_size t) [ some n ↦ n | none ↦ 0 ]

-- The size test of one candidate: exact where the message has a size, a lower bound otherwise.
unfoldable pub size_ok : List ℕ → AwgParams → ℕ → AwgPacketType → Bool
unfolding expected_message_size min_total_size
size_ok packet p offset t = elim (expected_message_size t) [
  | some size ↦ length packet == (offset + size)
  | none ↦ not (ltb (length packet) (min_total_size t p))
]

-- `u32::from_le_bytes([data[o], data[o + 1], data[o + 2], data[o + 3]])`
unfoldable pub header_at : List ℕ → ℕ → Option ℕ
header_at packet o = do
  a ← get_elem? packet o
  b ← get_elem? packet (o + 1)
  c ← get_elem? packet (o + 2)
  d ← get_elem? packet (o + 3)
  some (u32_from_le_bytes a b c d)

pub record Candidate : Type 0 where
  pub offset : ℕ
  pub range : HRange
  pub kind : AwgPacketType

abbrev pub candidates : AwgParams → List Candidate
candidates p =
    record { offset = p.s1; range = p.h1; kind = handshake_init }
    ∷ record { offset = p.s2; range = p.h2; kind = handshake_response }
    ∷ record { offset = p.s3; range = p.h3; kind = cookie_reply }
    ∷ record { offset = p.s4; range = p.h4; kind = transport_data }
    ∷ []

-- One round of the loop over the candidates: whether it returns the candidate's type.
-- The outer `none` is a panic of an index.
unfoldable pub try_candidate : List ℕ → AwgParams → Candidate → Option Bool
unfolding size_ok header_at
try_candidate packet p c =
    if ltb (length packet) (c.offset + 4)
    then some false
    else (if size_ok packet p c.offset c.kind
        then (do header ← header_at packet c.offset; some (contains c.range header))
        else some false)

unfoldable pub classify_loop : List ℕ → AwgParams → List Candidate → Option (Option AwgPacketType)
classify_loop packet p [] = some none
classify_loop packet p (c ∷ cs) =
    let rest = classify_loop packet p cs in
    try_candidate packet p c >>= λ hit. if hit then some (some c.kind) else rest

-- The outer option is a panic, the inner one the function's own result.
unfoldable pub classify_awg_packet : List ℕ → AwgParams → Option (Option AwgPacketType)
unfolding classify_loop
classify_awg_packet packet p = classify_loop packet p (candidates p)
