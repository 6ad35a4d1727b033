-- ===== src/Proxy/Responder/Detect/Laws.antt =====
-- Recognising a datagram never panics, and a DNS query is recognised.
use awg_easy_rs.Prelude.{
  ℕ, ◌+◌, ◌<◌, ◌≡◌, ◌≢◌, ◌⊎◌, refl, List, none, some, true, false, Bool-cases, Option-cases, inl,
  inr, ltb, length, get_elem?-lt, get_or, Bool, u16_from_be_bytes, u32_from_be_bytes, arith,
}
use awg_easy_rs.Proxy.Packet.{dns}
use awg_easy_rs.Prelude.Bits.{bit_and_c0}
use awg_easy_rs.Proxy.Responder.Qname.Laws.{encode}
use awg_easy_rs.Proxy.Responder.Qname.{dns_qname_end}
use awg_easy_rs.Proxy.Responder.Query.{
  u16_at, u32_at, stun_magic_cookie, has_stun_cookie, plausible_class, plausible_question,
  is_plausible_dns_query,
}
use awg_easy_rs.Proxy.Responder.Query.Laws.{
  Query, print, IsStandard, query_name, query_length, tail_at,
}
use awg_easy_rs.Proxy.Responder.Detect.{
  is_quic, quic_lengths, is_stun, detect_others, detect_protocol,
}

u16_at-some : (packet : List ℕ) (i : ℕ) → i + 1 < length packet → u16_at packet i ≢ none
u16_at-some packet i h =
    ground (arith, get_elem?-lt packet i 0 (omega arith), get_elem?-lt packet (i + 1) 0 h)

u32_at-some : (packet : List ℕ) (i : ℕ) → i + 3 < length packet → u32_at packet i ≢ none
u32_at-some packet i h = ground (
  arith,
  get_elem?-lt packet i 0 (omega arith),
  get_elem?-lt packet (i + 1) 0 (omega arith),
  get_elem?-lt packet (i + 2) 0 (omega arith),
  get_elem?-lt packet (i + 3) 0 h,
)

quic_lengths-some : (packet : List ℕ) (d : ℕ) → quic_lengths packet d ≢ none
unfolding quic_lengths
quic_lengths-some packet d = ground (arith, get_elem?-lt packet (6 + d) 0)

is_quic-some : (packet : List ℕ) → is_quic packet ≢ none
unfolding is_quic
is_quic-some packet = elim (Bool-cases (ltb (length packet) 7)) [
  | inl short ↦ ground (arith, short)
  | inr long ↦ ground (
    arith,
    long,
    get_elem?-lt packet 0 0 (ground arith),
    u32_at-some packet 1 (ground arith),
    get_elem?-lt packet 5 0 (ground arith),
    quic_lengths-some packet (get_or packet 5 0),
  )
]

has_stun_cookie-some : (packet : List ℕ) → has_stun_cookie packet ≢ none
unfolding has_stun_cookie
has_stun_cookie-some packet = ground (arith, u32_at-some packet 4)

is_stun-some : (packet : List ℕ) (cookie : Bool) → is_stun packet cookie ≢ none
unfolding is_stun
is_stun-some packet cookie = ground (arith, u16_at-some packet 0, u16_at-some packet 2)

plausible_class-some : (packet : List ℕ) (e : ℕ) → plausible_class packet e ≢ none
unfolding plausible_class
plausible_class-some packet e = ground (arith, u16_at-some packet (e + 2))

plausible_question-some : (packet : List ℕ) → plausible_question packet ≢ none
unfolding plausible_question
plausible_question-some packet = elim (Option-cases (dns_qname_end packet 12)) [
  | inl no_name ↦ ground (arith, no_name)
  | inr (e, name) ↦ ground (arith, name, plausible_class-some packet e)
]

is_plausible_dns_query-some : (packet : List ℕ) → is_plausible_dns_query packet ≢ none
unfolding is_plausible_dns_query
is_plausible_dns_query-some packet =
    ground (arith, u16_at-some packet 2, u16_at-some packet 4, plausible_question-some packet)

detect_others-some : (packet : List ℕ) → detect_others packet ≢ none
unfolding detect_others
detect_others-some packet = elim (Option-cases (has_stun_cookie packet)) [
  | inl none_there ↦ absurd (has_stun_cookie-some packet none_there)
  | inr (cookie, e) ↦
      ground (arith, e, is_stun-some packet cookie, is_plausible_dns_query-some packet)
]

-- Whatever the bytes and their number, recognising the protocol returns an answer.
pub detect_protocol-some : (packet : List ℕ) → detect_protocol packet ≢ none
unfolding detect_protocol
detect_protocol-some packet = ground (arith, is_quic-some packet, detect_others-some packet)

print-not_quic : (q : Query) → IsStandard q → q.id₀ < 0xC0 → is_quic (print q) ≡ some false
unfolding is_quic
print-not_quic q h low = ground (arith, query_length q h, bit_and_c0 q.id₀ (omega arith))

print-no_cookie :
    (q : Query)
    → IsStandard q
    → u32_from_be_bytes q.qdcount₀ q.qdcount₁ q.answers₀ q.answers₁ ≢ stun_magic_cookie
    → has_stun_cookie (print q) ≡ some false
unfolding has_stun_cookie
print-no_cookie q h cookie = ground (arith, query_length q h)

is_stun-no_cookie : (packet : List ℕ) → is_stun packet false ≡ some false
unfolding is_stun
is_stun-no_cookie packet = ground arith

-- A class that clients ask in: IN, CH, HS or ANY.
abbrev pub IsAskedClass : Query → Type 0
IsAskedClass q =
    (q.class₀ ≡ 0) × ((q.class₁ ≡ 1) ⊎ (q.class₁ ≡ 3) ⊎ (q.class₁ ≡ 4) ⊎ (q.class₁ ≡ 255))

print-plausible_class :
    (q : Query)
    → IsStandard q
    → IsAskedClass q
    → plausible_class (print q) (12 + length (encode q.labels)) ≡ some true
unfolding plausible_class
print-plausible_class q h asked =
    let end = 12 + length (encode q.labels) in
    let class₀_read = tail_at q (end + 2) 2 q.class₀ _ h refl (omega arith) in
    let class₁_read = tail_at q (end + 2 + 1) 3 q.class₁ _ h refl (omega arith) in
    ground (arith, query_length q h, class₀_read, class₁_read)

print-plausible :
    (q : Query)
    → IsStandard q
    → u16_from_be_bytes q.qdcount₀ q.qdcount₁ ≡ 1
    → IsAskedClass q
    → is_plausible_dns_query (print q) ≡ some true
unfolding is_plausible_dns_query plausible_question
print-plausible q h one asked =
    let question : plausible_question (print q) ≡ some true =
      rw (plausible_question, query_name q h) (print-plausible_class q h asked) in
    ground (arith, question, query_length q h, h.standard)

-- A standard query with one question of class IN, CH, HS or ANY, whose ID is below 0xC000 and
-- whose counts are not the STUN cookie, is taken for DNS.
pub detect_protocol-print :
    (q : Query)
    → IsStandard q
    → u16_from_be_bytes q.qdcount₀ q.qdcount₁ ≡ 1
    → IsAskedClass q
    → q.id₀ < 0xC0
    → u32_from_be_bytes q.qdcount₀ q.qdcount₁ q.answers₀ q.answers₁ ≢ stun_magic_cookie
    → detect_protocol (print q) ≡ some (some dns)
unfolding detect_protocol detect_others
detect_protocol-print q h one asked low cookie = ground (
  arith,
  print-not_quic q h low,
  print-no_cookie q h cookie,
  is_stun-no_cookie (print q),
  print-plausible q h one asked,
)
