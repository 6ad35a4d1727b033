-- ===== src/Proxy/Packet/Laws.antt =====
-- What `classify_awg_packet` decides, in terms of sizes and header values.
use awg_easy_rs.Prelude.{
  ℕ, ◌+◌, ◌≤◌, ◌≡◌, refl, ◌⊎◌, inl, inr, List, Option, none, some, true, false, length,
  get_elem?-lt, get_or, u32_from_le_bytes, arith,
}
use mathlib.Core.Path.{subst}
use awg_easy_rs.Proxy.Params.{HRange, AwgParams}
use awg_easy_rs.Proxy.Packet.{
  AwgPacketType, handshake_init, handshake_response, cookie_reply, transport_data, padding_size,
  expected_message_size, min_total_size, size_ok, header_at, Candidate, try_candidate,
  classify_awg_packet,
}

-- The header range of a packet type.
abbrev pub header_range : AwgPacketType → AwgParams → HRange
header_range handshake_init p = p.h1
header_range handshake_response p = p.h2
header_range cookie_reply p = p.h3
header_range transport_data p = p.h4

abbrev pub pad : AwgPacketType → AwgParams → ℕ
pad handshake_init p = p.s1
pad handshake_response p = p.s2
pad cookie_reply p = p.s3
pad transport_data p = p.s4

-- The WireGuard message sizes, written out from the protocol.
abbrev pub SizeFits : AwgPacketType → AwgParams → ℕ → Type 0
SizeFits handshake_init p n = n ≡ p.s1 + 148
SizeFits handshake_response p n = n ≡ p.s2 + 92
SizeFits cookie_reply p n = n ≡ p.s3 + 64
SizeFits transport_data p n = p.s4 + 32 ≤ n

-- The little-endian word behind the padding.
abbrev pub header_word : List ℕ → ℕ → ℕ
header_word packet o =
    u32_from_le_bytes (get_or packet o 0) (get_or packet (o + 1) 0) (get_or packet (o + 2) 0)
      (get_or packet (o + 3) 0)

abbrev pub Fits : AwgPacketType → AwgParams → List ℕ → Type 0
Fits t p packet =
    SizeFits t p (length packet)
    × ((header_range t p).lo ≤ header_word packet (pad t p))
    × (header_word packet (pad t p) ≤ (header_range t p).hi)

-- The first type in the order of H1 to H4 that fits, or none of them.
abbrev pub Classified : List ℕ → AwgParams → Option AwgPacketType → Type 0
Classified packet p (some handshake_init) = Fits handshake_init p packet
Classified packet p (some handshake_response) =
    ¬ (Fits handshake_init p packet) × Fits handshake_response p packet
Classified packet p (some cookie_reply) =
    ¬ (Fits handshake_init p packet)
    × ¬ (Fits handshake_response p packet)
    × Fits cookie_reply p packet
Classified packet p (some transport_data) =
    ¬ (Fits handshake_init p packet)
    × ¬ (Fits handshake_response p packet)
    × ¬ (Fits cookie_reply p packet)
    × Fits transport_data p packet
Classified packet p none =
    ¬ (Fits handshake_init p packet)
    × ¬ (Fits handshake_response p packet)
    × ¬ (Fits cookie_reply p packet)
    × ¬ (Fits transport_data p packet)

header_at-word :
    (packet : List ℕ) (o : ℕ)
    → o + 4 ≤ length packet
    → header_at packet o ≡ some (header_word packet o)
unfolding header_at
header_at-word packet o h = ground (
  arith,
  get_elem?-lt packet o 0 (omega arith),
  get_elem?-lt packet (o + 1) 0 (omega arith),
  get_elem?-lt packet (o + 2) 0 (omega arith),
  get_elem?-lt packet (o + 3) 0 (omega arith),
)

abbrev candidate : AwgPacketType → AwgParams → Candidate
candidate t p = record { offset = pad t p; range = header_range t p; kind = t }

abbrev Tried : AwgPacketType → AwgParams → List ℕ → Type 0
Tried t p packet =
    ((try_candidate packet p (candidate t p) ≡ some true) × Fits t p packet)
    ⊎ ((try_candidate packet p (candidate t p) ≡ some false) × ¬ (Fits t p packet))

-- A round never reads out of range, and hits exactly on a fit.
try_candidate-Fits : (t : AwgPacketType) (p : AwgParams) (packet : List ℕ) → Tried t p packet
unfolding try_candidate size_ok expected_message_size min_total_size padding_size
try_candidate-Fits handshake_init p packet = ground (arith, header_at-word packet p.s1)
try_candidate-Fits handshake_response p packet = ground (arith, header_at-word packet p.s2)
try_candidate-Fits cookie_reply p packet = ground (arith, header_at-word packet p.s3)
try_candidate-Fits transport_data p packet = ground (arith, header_at-word packet p.s4)

-- Classification returns on every datagram, with no index out of range, and its result is the
-- first packet type whose size and header range fit, or none if no type fits.
pub classify_awg_packet-Classified :
    (packet : List ℕ) (p : AwgParams)
    → (r : Option AwgPacketType) × (classify_awg_packet packet p ≡ some r) × Classified packet p r
unfolding classify_awg_packet
classify_awg_packet-Classified packet p = elim (try_candidate-Fits handshake_init p packet) [
  | inl (e, fit) ↦ (some handshake_init, ground (arith, e), fit)
  | inr (e, miss) ↦ elim (try_candidate-Fits handshake_response p packet) [
    | inl (e', fit) ↦ (some handshake_response, ground (arith, e, e'), (miss, fit))
    | inr (e', miss') ↦ elim (try_candidate-Fits cookie_reply p packet) [
      | inl (f, fit) ↦ (some cookie_reply, ground (arith, e, e', f), (miss, miss', fit))
      | inr (f, miss'') ↦ elim (try_candidate-Fits transport_data p packet) [
        | inl (f', fit) ↦
            (some transport_data, ground (arith, e, e', f, f'), (miss, miss', miss'', fit))
        | inr (f', last) ↦ (none, ground (arith, e, e', f, f'), (miss, miss', miss'', last))
      ]
    ]
  ]
]

padding_size-pad : (t : AwgPacketType) (p : AwgParams) → padding_size t p ≡ pad t p
unfolding padding_size
padding_size-pad handshake_init p = refl
padding_size-pad handshake_response p = refl
padding_size-pad cookie_reply p = refl
padding_size-pad transport_data p = refl

Classified-room :
    (packet : List ℕ) (p : AwgParams) (t : AwgPacketType)
    → Classified packet p (some t)
    → pad t p + 32 ≤ length packet
Classified-room packet p handshake_init c = omega arith
Classified-room packet p handshake_response c = omega arith
Classified-room packet p cookie_reply c = omega arith
Classified-room packet p transport_data c = omega arith

-- A packet that is classified has at least 32 bytes behind the padding of its type.
pub classify-room :
    (packet : List ℕ) (p : AwgParams) (t : AwgPacketType)
    → classify_awg_packet packet p ≡ some (some t)
    → padding_size t p + 32 ≤ length packet
classify-room packet p t e =
    let (r, e', c) = classify_awg_packet-Classified packet p in
    let same : r ≡ some t = cc in
    omega
      (arith, padding_size-pad t p, Classified-room packet p t (subst (Classified packet p) same c))
