-- ===== src/Proxy/Responder/Tests.antt =====
-- Runs of the responder.
use awg_easy_rs.Prelude.{
  ℕ, ◌+◌, ◌≤◌, ◌≡◌, ◌≢◌, ◌↔◌, refl, inl, List, [], ◌∷◌, ◌++◌, Option, none, some, true, false,
  length, replicate, codes, All, IsByte, bit_and, u16_from_be_bytes, arith, slice,
}
use awg_easy_rs.Proxy.Packet.{quic, dns, stun, sip}
use awg_easy_rs.Proxy.Responder.Response.{generate_response_for_client}
use awg_easy_rs.Proxy.Responder.Response.Parts.{Within}
use awg_easy_rs.Proxy.Responder.Response.Bounds.{generate_response_for_client-Within}
use awg_easy_rs.Proxy.Responder.Qname.{dns_qname_end}
use awg_easy_rs.Proxy.Responder.Qname.Laws.{encode, IsName, dns_qname_end-IsName}
use awg_easy_rs.Proxy.Responder.Query.{parse_dns_query_echo, u32_at}
use awg_easy_rs.Proxy.Responder.Query.Laws.{Query, print, IsStandard, parse_dns_query_echo-print}
use awg_easy_rs.Proxy.Responder.Detect.{detect_protocol}
use awg_easy_rs.Proxy.Responder.Detect.Laws.{detect_protocol-print}
use awg_easy_rs.Proxy.Responder.Answers.{
  generate_quic_version_negotiation, generate_dns_servfail, generate_stun_binding_success, v4,
}
use awg_easy_rs.Proxy.Responder.Answers.Laws.{Cids, grease, generate_quic_version_negotiation-Cids}
use awg_easy_rs.Proxy.Responder.Answers.Dns.{servfail_for, question, generate_dns_servfail-print}

-- A query for the A record of `ab.c`.
abbrev asked : Query
asked = record {
  id₀ = 0xAB;
  id₁ = 0xCD;
  flags₀ = 1;
  flags₁ = 0;
  qdcount₀ = 0;
  qdcount₁ = 1;
  answers₀ = 0;
  answers₁ = 0;
  others = 0 ∷ 0 ∷ 0 ∷ 0 ∷ [];
  labels = codes "ab" ∷ codes "c" ∷ [];
  type₀ = 0;
  type₁ = 1;
  class₀ = 0;
  class₁ = 1;
  rest = [];
}

asked-IsStandard : IsStandard asked
asked-IsStandard = record {
  counts = refl;
  standard = refl;
  sized = ((omega arith, omega arith), ((omega arith, omega arith), tt));
  short = omega arith;
}

name_end : dns_qname_end (print asked) 12 ≡ some 18
unfolding dns_qname_end awg_easy_rs.Proxy.Responder.Qname.qname_loop
name_end = refl

junk : detect_protocol (replicate 40 7) ≡ some none
unfolding detect_protocol awg_easy_rs.Proxy.Responder.Detect.is_quic
    awg_easy_rs.Proxy.Responder.Detect.detect_others
    awg_easy_rs.Proxy.Responder.Query.has_stun_cookie awg_easy_rs.Proxy.Responder.Detect.is_stun
    awg_easy_rs.Proxy.Responder.Query.is_plausible_dns_query
    awg_easy_rs.Proxy.Responder.Detect.detect_sip awg_easy_rs.Proxy.Responder.Detect.is_sip
    awg_easy_rs.Proxy.Responder.Detect.is_utf8 awg_easy_rs.Proxy.Responder.Detect.utf8_lead
    awg_easy_rs.Proxy.Responder.Detect.starts_with_any
    awg_easy_rs.Proxy.Responder.Detect.starts_with_ignore_case
    awg_easy_rs.Proxy.Responder.Detect.to_ascii_lowercase
junk = refl

invite : detect_protocol (codes "InViTe sip:a@b") ≡ some (some sip)
unfolding detect_protocol awg_easy_rs.Proxy.Responder.Detect.is_quic
    awg_easy_rs.Proxy.Responder.Detect.detect_others
    awg_easy_rs.Proxy.Responder.Query.has_stun_cookie awg_easy_rs.Proxy.Responder.Detect.is_stun
    awg_easy_rs.Proxy.Responder.Query.is_plausible_dns_query
    awg_easy_rs.Proxy.Responder.Detect.detect_sip awg_easy_rs.Proxy.Responder.Detect.is_sip
    awg_easy_rs.Proxy.Responder.Detect.is_utf8 awg_easy_rs.Proxy.Responder.Detect.utf8_lead
    awg_easy_rs.Proxy.Responder.Detect.starts_with_any
    awg_easy_rs.Proxy.Responder.Detect.starts_with_ignore_case
    awg_easy_rs.Proxy.Responder.Detect.to_ascii_lowercase
invite = refl

binding :
    detect_protocol (0 ∷ 1 ∷ 0 ∷ 0 ∷ 0x21 ∷ 0x12 ∷ 0xA4 ∷ 0x42 ∷ replicate 12 5) ≡ some (some stun)
unfolding detect_protocol awg_easy_rs.Proxy.Responder.Detect.is_quic
    awg_easy_rs.Proxy.Responder.Detect.detect_others
    awg_easy_rs.Proxy.Responder.Query.has_stun_cookie awg_easy_rs.Proxy.Responder.Detect.is_stun
binding = refl

-- 192.0.2.1:32853, as in RFC 5769.
mapped :
    generate_stun_binding_success (replicate 20 0) (v4 0xC0000201 32853)
    ≡ some (
        1
        ∷ 1
        ∷ 0
        ∷ 12
        ∷ 0x21
        ∷ 0x12
        ∷ 0xA4
        ∷ 0x42
        ∷ (replicate 12 0
            ++ (0 ∷ 0x20 ∷ 0 ∷ 8 ∷ 0 ∷ 1 ∷ 0xa1 ∷ 0x47 ∷ 0xe1 ∷ 0x12 ∷ 0xa6 ∷ 0x43 ∷ [])))
unfolding generate_stun_binding_success awg_easy_rs.Proxy.Responder.Answers.transaction_id
    awg_easy_rs.Prelude.slice awg_easy_rs.Proxy.Responder.Answers.attr_value_len
    awg_easy_rs.Proxy.Responder.Answers.mapped_value awg_easy_rs.Proxy.Responder.Answers.xor_port
mapped = refl

-- A QUIC version 1 datagram with connection IDs of two bytes and of one.
abbrev initial : List ℕ
initial = 0xC3 ∷ 0 ∷ 0 ∷ 0 ∷ 1 ∷ 2 ∷ 8 ∷ 9 ∷ 1 ∷ 7 ∷ 0 ∷ []

asked_bytes : All IsByte (print asked)
asked_bytes = omega arith

taken_for_quic : detect_protocol initial ≡ some (some quic)
unfolding detect_protocol awg_easy_rs.Proxy.Responder.Detect.is_quic
    awg_easy_rs.Proxy.Responder.Detect.is_quic_version
    awg_easy_rs.Proxy.Responder.Detect.quic_lengths
taken_for_quic = refl

dns_qname_end-IsName_example :
    (dns_qname_end (print asked) 12 ≡ some 18) ↔ IsName (print asked) 12 18 0
dns_qname_end-IsName_example = dns_qname_end-IsName (print asked) 12 18 asked_bytes

parse_dns_query_echo-print_example :
    parse_dns_query_echo (print asked)
    ≡ some (some (record { txid = (0xAB, 0xCD); qname = encode asked.labels; qtype = (0, 1) }))
parse_dns_query_echo-print_example =
    parse_dns_query_echo-print asked asked-IsStandard (omega arith) refl refl
      (λ e. omega (arith, e))

detect_protocol-print_example : detect_protocol (print asked) ≡ some (some dns)
detect_protocol-print_example =
    detect_protocol-print asked asked-IsStandard refl (refl, inl refl) (omega arith)
      (λ e. omega (arith, e))

generate_dns_servfail-print_example :
    (generate_dns_servfail (print asked)
      ≡ some (0xAB ∷ 0xCD ∷ (servfail_for 256 ++ (0 ∷ 1 ∷ 0 ∷ 0 ∷ 0 ∷ 0 ∷ 0 ∷ 0 ∷ question asked))))
    × (12 + length (question asked) ≤ 271)
generate_dns_servfail-print_example = generate_dns_servfail-print asked asked-IsStandard

generate_quic_version_negotiation-Cids_example :
    (dcid scid rest out : List ℕ) × Cids initial dcid scid rest
    × (generate_quic_version_negotiation initial ≡ some out)
    × Cids out scid dcid grease
    × (u32_at out 1 ≡ some 0)
generate_quic_version_negotiation-Cids_example =
    generate_quic_version_negotiation-Cids initial taken_for_quic

generate_response_for_client-Within_example :
    Within 512 (generate_response_for_client dns (replicate 40 7) (v4 0xC0000201 32853))
generate_response_for_client-Within_example =
    generate_response_for_client-Within dns (replicate 40 7) (v4 0xC0000201 32853)
      (omega arith, omega arith)
