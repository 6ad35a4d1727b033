-- ===== src/Proxy/Responder/Response.antt =====
-- src/proxy/responder.rs: the answer to a probe of any protocol.
pub mod Parts
pub mod Bounds
use awg_easy_rs.Prelude.{
  ℕ, zero, suc, ◌+◌, ◌-◌, ◌%◌, ◌≤◌, ◌<◌, ◌≡◌, refl, List, [], ◌∷◌, ◌++◌, Option, none, some, Bool,
  true, false, Bool-cases, Option-cases, inl, inr, ◌&&◌, ltb, leb, leb→le, ltb→lt, if◌then◌else◌,
  length, length-append, length-take, length-drop, length-replicate, replicate, get_elem?,
  get_elem?-lt, get_or, take, drop, slice, copy_at, copy_at-length, u16_to_be_bytes,
  u32_to_be_bytes, u16_from_be_bytes, bit_and, ◌==◌, arith, ◌>>=◌,
}
use awg_easy_rs.Proxy.Packet.{Protocol, quic, dns, stun, sip}
use awg_easy_rs.Proxy.Responder.Qname.{dns_qname_end, qname_loop}
use awg_easy_rs.Proxy.Responder.Query.{stun_magic_cookie}
use awg_easy_rs.Proxy.Responder.Answers.Stun.{IsAddress, read-mapped}
use awg_easy_rs.Proxy.Responder.Answers.{
  SocketAddr, v4, v6, no_cids, swap_scid, swap_cids, first_byte, generate_quic_version_negotiation,
  max_response, servfail_flags, servfail_header, echo_question_at, put_question,
  generate_dns_servfail, transaction_id, generate_stun_binding_success, mapped_value,
  attr_value_len, xor_bytes,
}
use awg_easy_rs.Proxy.Responder.Sip.Trying.{generate_sip_trying, length-generate_sip_trying}

unfoldable pub generate_response_for_client : Protocol → List ℕ → SocketAddr → Option (List ℕ)
generate_response_for_client quic incoming client_addr = generate_quic_version_negotiation incoming
generate_response_for_client dns incoming client_addr = generate_dns_servfail incoming
generate_response_for_client stun incoming client_addr =
    generate_stun_binding_success incoming client_addr
generate_response_for_client sip incoming client_addr = some (generate_sip_trying incoming)
