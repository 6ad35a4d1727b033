-- ===== src/Proxy/Responder/Response/Bounds.antt =====
-- Every answer to a probe exists and has at most 512 bytes.
use awg_easy_rs.Prelude.{
  ℕ, zero, suc, ◌+◌, ◌-◌, ◌≤◌, ◌<◌, ◌≡◌, refl, List, [], ◌∷◌, ◌++◌, some, Bool-cases, Option-cases,
  inl, inr, ◌&&◌, ltb, leb, if◌then◌else◌, length, length-append, replicate, get_elem?,
  get_elem?-lt, get_or, copy_at-length, u16_to_be_bytes, u32_to_be_bytes, u16_from_be_bytes,
  bit_and, ◌==◌, arith,
}
use awg_easy_rs.Proxy.Packet.{Protocol, quic, dns, stun, sip}
use awg_easy_rs.Proxy.Responder.Qname.{dns_qname_end, qname_loop}
use awg_easy_rs.Proxy.Responder.Query.{stun_magic_cookie}
use awg_easy_rs.Proxy.Responder.Answers.Stun.{IsAddress, read-mapped}
use awg_easy_rs.Proxy.Responder.Answers.{
  SocketAddr, v4, v6, max_response, servfail_flags, servfail_header, echo_question_at, put_question,
  generate_dns_servfail, transaction_id, generate_stun_binding_success, mapped_value,
  attr_value_len,
}
use awg_easy_rs.Proxy.Responder.Sip.Trying.{generate_sip_trying, length-generate_sip_trying}
use awg_easy_rs.Proxy.Responder.Response.{generate_response_for_client}
use awg_easy_rs.Proxy.Responder.Response.Parts.{Within, slice-within, version_negotiation-Within}

flags-some : (incoming : List ℕ) → (flags : ℕ) × (servfail_flags incoming ≡ some flags)
unfolding servfail_flags
flags-some incoming = elim (Bool-cases (leb 4 (length incoming))) [
  | inr outside ↦ (0x8082, rw outside refl)
  | inl all_in ↦
      let first = get_elem?-lt incoming 2 0 (ground (arith, all_in)) in
      let second = get_elem?-lt incoming 3 0 (ground (arith, all_in)) in
      let asked = u16_from_be_bytes (get_or incoming 2 0) (get_or incoming 3 0) in
      (if bit_and asked 0x0100 == 0 then 0x8082 else 0x8182, rw (all_in, first, second) refl)
]

header-within :
    (incoming : List ℕ) → (buf : List ℕ) × (servfail_header incoming ≡ some buf) × (length buf ≡ 12)
unfolding servfail_header
header-within incoming =
    let (flags, f) = flags-some incoming in
    elim (Bool-cases (leb 2 (length incoming))) [
      | inr outside ↦ (0 ∷ 0 ∷ (u16_to_be_bytes flags ++ replicate 8 0), rw (outside, f) refl, refl)
      | inl all_in ↦
          let (id, e, l) = slice-within 0 2 incoming (omega arith) (ground (arith, all_in)) in
          let counts : List ℕ = u16_to_be_bytes flags ++ replicate 8 0 in
          (id ++ counts, rw (all_in, e, f) refl, omega (arith, l, length-append id counts))
    ]

-- A name ends behind its start.
loop_after :
    (rounds : ℕ) (bytes : List ℕ) (pos used end : ℕ)
    → qname_loop rounds bytes pos used ≡ some end
    → pos < end
unfolding qname_loop
loop_after zero bytes pos used end h = cc
loop_after (suc rounds) bytes pos used end h = elim (Option-cases (get_elem? bytes pos)) [
  | inl out ↦ absurd (ground (arith, h, out))
  | inr (l, e) ↦ ground (arith, h, e, loop_after rounds bytes (pos + (1 + l)) (used + (1 + l)) end)
]

name_after : (bytes : List ℕ) (end : ℕ) → dns_qname_end bytes 12 ≡ some end → 12 < end
unfolding dns_qname_end
name_after bytes end h = loop_after (suc (length bytes)) bytes 12 0 end h

echo-Within :
    (incoming buf : List ℕ) (end : ℕ)
    → 12 < end
    → length buf ≡ 12
    → Within 512 (echo_question_at incoming buf (end + 4))
unfolding echo_question_at
echo-Within incoming buf end h l =
    elim (Bool-cases
      (leb (end + 4) (length incoming) && leb (length buf + (end + 4 - 12)) max_response)) [
        | inr outside ↦ (buf, rw outside refl, omega (arith, l))
        | inl all_in ↦
            let (question, e, n) =
              slice-within 12 (end + 4) incoming (omega arith) (ground (arith, all_in)) in
            let (out, q, same) =
              copy_at-length 4 (0 ∷ 1 ∷ []) (buf ++ question)
                (omega (arith, l, length-append buf question)) in
            (out, rw (all_in, e) q, ground (arith, all_in, same, n, l, length-append buf question))
      ]

put_question-Within :
    (incoming buf : List ℕ) → length buf ≡ 12 → Within 512 (put_question incoming buf)
unfolding put_question
put_question-Within incoming buf l = elim (Bool-cases (ltb 12 (length incoming))) [
  | inr outside ↦ (buf, rw outside refl, omega (arith, l))
  | inl all_in ↦ elim (Option-cases (dns_qname_end incoming 12)) [
    | inl unnamed ↦ (buf, rw (all_in, put_question, unnamed) refl, omega (arith, l))
    | inr (end, e) ↦
        let (out, q, fits) = echo-Within incoming buf end (name_after incoming end e) l in
        (out, rw (all_in, put_question, e) q, fits)
  ]
]

servfail-Within : (incoming : List ℕ) → Within 512 (generate_dns_servfail incoming)
unfolding generate_dns_servfail
servfail-Within incoming =
    let (buf, e, l) = header-within incoming in
    let (out, q, fits) = put_question-Within incoming buf l in (out, rw e q, fits)

attr_value_len_le : (addr : SocketAddr) → attr_value_len addr ≤ 20
unfolding attr_value_len
attr_value_len_le (v4 ip port) = omega arith
attr_value_len_le (v6 octets port) = omega arith

txid-within :
    (incoming : List ℕ)
    → (txid : List ℕ) × (transaction_id incoming ≡ some txid) × (length txid ≡ 12)
unfolding transaction_id
txid-within incoming = elim (Bool-cases (leb 20 (length incoming))) [
  | inr outside ↦ (replicate 12 0, rw outside refl, refl)
  | inl all_in ↦
      let (txid, e, l) = slice-within 8 20 incoming (omega arith) (ground (arith, all_in)) in
      (txid, rw all_in e, l)
]

stun-Within :
    (incoming : List ℕ) (addr : SocketAddr)
    → IsAddress addr
    → Within 512 (generate_stun_binding_success incoming addr)
unfolding generate_stun_binding_success
stun-Within incoming addr is =
    let (txid, e, l) = txid-within incoming in
    let (back, size) = read-mapped txid addr l is in
    let len = attr_value_len addr in
    let rest : List ℕ =
      u16_to_be_bytes 0x0020 ++ (u16_to_be_bytes len ++ (0 ∷ mapped_value txid addr)) in
    (
      u16_to_be_bytes 0x0101
          ++ (u16_to_be_bytes (4 + len) ++ (u32_to_be_bytes stun_magic_cookie ++ (txid ++ rest))),
      rw e refl,
      omega (arith, l, length-append txid rest, size, attr_value_len_le addr),
    )

-- Whatever a datagram holds and whatever protocol it was taken for, it is answered without a
-- panic and by at most 512 bytes.
pub generate_response_for_client-Within :
    (proto : Protocol) (incoming : List ℕ) (addr : SocketAddr)
    → IsAddress addr
    → Within 512 (generate_response_for_client proto incoming addr)
unfolding generate_response_for_client
generate_response_for_client-Within quic incoming addr is =
    let (out, e, l) = version_negotiation-Within incoming in (out, e, omega (arith, l))
generate_response_for_client-Within dns incoming addr is = servfail-Within incoming
generate_response_for_client-Within stun incoming addr is = stun-Within incoming addr is
generate_response_for_client-Within sip incoming addr is =
    (generate_sip_trying incoming, refl, length-generate_sip_trying incoming)
