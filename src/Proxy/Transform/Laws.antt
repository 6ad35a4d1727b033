-- ===== src/Proxy/Transform/Laws.antt =====
-- What the padding of a packet may touch.
use awg_easy_rs.Prelude.{
  ℕ, suc, ◌≤◌, ◌<◌, ◌≡◌, refl, ap, inl, inr, List, [], ◌∷◌, ◌++◌, Option, none, some, Bool, true,
  false, Bool-cases, ltb, ◌==◌, length, take, drop, arith, length-take,
}
use awg_easy_rs.Proxy.Params.{AwgParams}
use awg_easy_rs.Proxy.Packet.{
  Protocol, quic, dns, stun, sip, AwgPacketType, padding_size, classify_awg_packet,
}
use awg_easy_rs.Proxy.Packet.Laws.{classify_awg_packet-Classified, classify-room}
use awg_easy_rs.Proxy.Echo.{DnsEcho}
use awg_easy_rs.Proxy.Transform.Random.{lcg_step}
use awg_easy_rs.Proxy.Transform.Quic.{
  fill_random, quic_padding, apply_quic_padding_short, apply_quic_padding_typed,
}
use awg_easy_rs.Proxy.Transform.Dns.{apply_dns_padding}
use awg_easy_rs.Proxy.Transform.Dns.Laws.{
  chosen, opt_prefix, length-opt_prefix, dns_question-room, apply_dns_padding-opt, null_prefix,
  length-null_prefix, apply_dns_padding-null,
}
use awg_easy_rs.Proxy.Transform.Stun.Laws.{apply_stun_padding-total}
use awg_easy_rs.Proxy.Transform.Sip.Laws.{apply_sip_padding-total}
use awg_easy_rs.Proxy.Transform.{apply_typed, apply_awg_transform}

-- A padding step that returns with new bytes over the first n, and the payload behind them.
abbrev pub Pads : List ℕ → ℕ → Option (List ℕ) → Type 0
Pads packet n r = (p : List ℕ) × (r ≡ some (p ++ drop n packet)) × (length p ≡ n)

length-fill_random : (s : ℕ) (xs : List ℕ) → length (fill_random s xs) ≡ length xs
unfolding fill_random
length-fill_random s [] = refl
length-fill_random s (x ∷ xs) = ap suc (length-fill_random (lcg_step s) xs)

length-quic_padding : (xs payload : List ℕ) → length (quic_padding xs payload) ≡ length xs
unfolding quic_padding
length-quic_padding [] payload = refl
length-quic_padding (x ∷ xs) payload = ap suc (length-fill_random _ xs)

apply_quic_padding_short-Pads :
    (packet : List ℕ) (n : ℕ)
    → n ≤ length packet
    → Pads packet n (apply_quic_padding_short packet n)
unfolding apply_quic_padding_short
apply_quic_padding_short-Pads packet n h = (
  quic_padding (take n packet) (drop n packet),
  ground arith,
  omega (arith, length-quic_padding (take n packet) (drop n packet), length-take n packet),
)

apply_quic_padding_typed-Pads :
    (packet : List ℕ) (n : ℕ) (t : AwgPacketType)
    → 1 ≤ n
    → n < length packet
    → Pads packet n (apply_quic_padding_typed packet n t)
unfolding apply_quic_padding_typed
apply_quic_padding_typed-Pads packet n t h k =
    let (p, e, l) = apply_quic_padding_short-Pads packet n (omega arith) in
    (p, ground (arith, e), l)

apply_dns_padding-Pads :
    (packet : List ℕ) (n : ℕ) (echo : Option DnsEcho)
    → 1 ≤ n
    → n ≤ length packet
    → Pads packet n (apply_dns_padding packet n echo)
apply_dns_padding-Pads packet n echo h k = elim (Bool-cases (ltb n 32)) [
  | inl small ↦ (
    null_prefix (drop n packet) n (length packet),
    apply_dns_padding-null packet n echo h (ground arith) k,
    length-null_prefix (drop n packet) n (length packet),
  )
  | inr large ↦
      let q = chosen packet n echo in
      let room = dns_question-room echo n (drop n packet) (ground arith) in
      (
        opt_prefix n (length packet) q.1 q.0,
        apply_dns_padding-opt packet n echo (ground arith) k,
        length-opt_prefix n (length packet) q.1 q.0 (omega (arith, room)),
      )
]

apply_typed-Pads :
    (packet : List ℕ) (n : ℕ) (t : AwgPacketType) (proto : Protocol) (echo : Option DnsEcho)
    → 1 ≤ n
    → n < length packet
    → Pads packet n (apply_typed packet n t proto echo)
unfolding apply_typed
apply_typed-Pads packet n t quic echo h k = apply_quic_padding_typed-Pads packet n t h k
apply_typed-Pads packet n t dns echo h k = apply_dns_padding-Pads packet n echo h (omega arith)
apply_typed-Pads packet n t stun echo h k =
    let (p, e, l) = apply_stun_padding-total packet n (omega arith) in (p, ground (arith, e), l)
apply_typed-Pads packet n t sip echo h k =
    let (p, e, l) = apply_sip_padding-total packet n (omega arith) in (p, ground (arith, e), l)

-- The outcomes of a transform. A junk packet and a type without padding are left alone; else the
-- padding of the type is overwritten, byte for byte, and the WireGuard message stays.
pub data Transformed (packet : List ℕ) (p : AwgParams) (r : List ℕ × Bool) : Type 0 where
  junk : classify_awg_packet packet p ≡ some none → r ≡ (packet, false) → Transformed packet p r
  bare :
      (t : AwgPacketType)
      → classify_awg_packet packet p ≡ some (some t)
      → padding_size t p ≡ 0
      → r ≡ (packet, false)
      → Transformed packet p r
  padded :
      (t : AwgPacketType) (prefix : List ℕ)
      → classify_awg_packet packet p ≡ some (some t)
      → 1 ≤ padding_size t p
      → length prefix ≡ padding_size t p
      → r ≡ (prefix ++ drop (padding_size t p) packet, true)
      → Transformed packet p r

-- The transform returns on every datagram, for every protocol and remembered query, with no
-- index out of range, and with one of these outcomes.
pub apply_awg_transform-Transformed :
    (packet : List ℕ) (p : AwgParams) (proto : Protocol) (echo : Option DnsEcho)
    → (r : List ℕ × Bool) × (apply_awg_transform packet p proto echo ≡ some r)
      × Transformed packet p r
unfolding apply_awg_transform
apply_awg_transform-Transformed packet p proto echo =
    let (kind, e, c) = classify_awg_packet-Classified packet p in go kind e
  where
    go :
        (kind : Option AwgPacketType)
        → classify_awg_packet packet p ≡ some kind
        → (r : List ℕ × Bool) × (apply_awg_transform packet p proto echo ≡ some r)
          × Transformed packet p r
    go none e = ((packet, false), rw (e, apply_awg_transform), junk e refl)
    go (some t) e = elim (Bool-cases (padding_size t p == 0)) [
      | inl z ↦ ((packet, false), rw (e, z), bare t e (ground arith) refl)
      | inr nz ↦
          let room = classify-room packet p t e in
          let (prefix, e', l) =
            apply_typed-Pads packet (padding_size t p) t proto echo (ground arith) (omega arith) in
          (
            (prefix ++ drop (padding_size t p) packet, true),
            ground (arith, e, e', nz, room),
            padded t prefix e (ground arith) l refl,
          )
    ]
