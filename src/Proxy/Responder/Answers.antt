-- ===== src/Proxy/Responder/Answers.antt =====
-- src/proxy/responder.rs: the answers to QUIC, DNS and STUN probes. `none` is a panic.
pub mod Laws
pub mod Dns
pub mod Stun
use awg_easy_rs.Prelude.{
  ℕ, ◌+◌, ◌-◌, ◌/◌, ◌%◌, List, [], ◌∷◌, ◌++◌, Option, none, some, Bool, true, false, ◌&&◌, ◌==◌,
  ltb, leb, if◌then◌else◌, length, get_elem?, slice, copy_at, replicate, ◌>>=◌, bit_and, bit_or,
  bit_xor, u16_to_be_bytes, u32_to_be_bytes,
}
use awg_easy_rs.Proxy.Responder.Qname.{dns_qname_end}
use awg_easy_rs.Proxy.Responder.Query.{u16_at, stun_magic_cookie}

-- The two connection IDs, swapped, each behind its length; two empty ones where the datagram
-- does not hold them.
abbrev pub no_cids : List ℕ
no_cids = 0 ∷ 0 ∷ []

unfoldable pub swap_scid : List ℕ → ℕ → ℕ → Option (List ℕ)
swap_scid incoming dcid_end scid_len =
    let scid_end = dcid_end + 1 + scid_len in
    if leb scid_len 20 && leb scid_end (length incoming)
    then (do
      dcid ← slice 6 dcid_end incoming
      scid ← slice (dcid_end + 1) scid_end incoming
      some (scid_len % 256 ∷ (scid ++ ((dcid_end - 6) % 256 ∷ dcid))))
    else some no_cids

unfoldable pub swap_cids : List ℕ → Option (List ℕ)
swap_cids incoming =
    if leb 6 (length incoming)
    then (get_elem? incoming 5 >>= λ dcid_len.
        if leb dcid_len 20 && ltb (6 + dcid_len) (length incoming)
        then (get_elem? incoming (6 + dcid_len) >>= λ scid_len.
            swap_scid incoming (6 + dcid_len) scid_len)
        else some no_cids)
    else some no_cids

unfoldable pub first_byte : List ℕ → ℕ
first_byte [] = 0xC0
first_byte (b₀ ∷ incoming) = bit_or b₀ 0xC0

unfoldable pub generate_quic_version_negotiation : List ℕ → Option (List ℕ)
generate_quic_version_negotiation incoming = swap_cids incoming >>= λ cids.
    some (first_byte incoming ∷ (u32_to_be_bytes 0 ++ (cids ++ u32_to_be_bytes 0x0a0a0a0a)))

abbrev pub max_response : ℕ
max_response = 512

-- QR, RA and SERVFAIL, with RD as in the query.
unfoldable pub servfail_flags : List ℕ → Option ℕ
servfail_flags incoming =
    if leb 4 (length incoming)
    then (u16_at incoming 2 >>= λ query_flags.
        some (if bit_and query_flags 0x0100 == 0 then 0x8082 else bit_or 0x8082 0x0100))
    else some 0x8082

unfoldable pub servfail_header : List ℕ → Option (List ℕ)
servfail_header incoming = do
  txid ← (if leb 2 (length incoming) then slice 0 2 incoming else some (u16_to_be_bytes 0))
  flags ← servfail_flags incoming
  some (txid ++ (u16_to_be_bytes flags ++ replicate 8 0))

-- The question is put behind the header, and QDCOUNT at 4 is patched to 1.
unfoldable pub echo_question_at : List ℕ → List ℕ → ℕ → Option (List ℕ)
echo_question_at incoming buf question_end =
    if leb question_end (length incoming) && leb (length buf + (question_end - 12)) max_response
    then (slice 12 question_end incoming >>= λ question. copy_at 4 (0 ∷ 1 ∷ []) (buf ++ question))
    else some buf

unfoldable pub put_question : List ℕ → List ℕ → Option (List ℕ)
put_question incoming buf =
    if ltb 12 (length incoming)
    then elim (dns_qname_end incoming 12) [
      | none ↦ some buf
      | some qname_end ↦ echo_question_at incoming buf (qname_end + 4)
    ]
    else some buf

unfoldable pub generate_dns_servfail : List ℕ → Option (List ℕ)
generate_dns_servfail incoming = servfail_header incoming >>= λ buf. put_question incoming buf

-- A client's address: an IPv4 one as its u32, an IPv6 one as its octets; and the port.
pub data SocketAddr : Type 0 where
  v4 : ℕ → ℕ → SocketAddr
  v6 : List ℕ → ℕ → SocketAddr

-- `octets.iter().zip(key)`
unfoldable pub xor_bytes : List ℕ → List ℕ → List ℕ
xor_bytes [] key = []
xor_bytes (b ∷ octets) [] = []
xor_bytes (b ∷ octets) (k ∷ key) = bit_xor b k ∷ xor_bytes octets key

unfoldable pub xor_port : ℕ → ℕ
xor_port port = bit_xor port (stun_magic_cookie / 65536)

-- Family, port and address.
unfoldable pub mapped_value : List ℕ → SocketAddr → List ℕ
mapped_value txid (v4 ip port) =
    0x01 ∷ (u16_to_be_bytes (xor_port port) ++ u32_to_be_bytes (bit_xor ip stun_magic_cookie))
mapped_value txid (v6 octets port) =
    0x02
    ∷ (u16_to_be_bytes (xor_port port)
        ++ xor_bytes octets (u32_to_be_bytes stun_magic_cookie ++ txid))

unfoldable pub attr_value_len : SocketAddr → ℕ
attr_value_len (v4 ip port) = 8
attr_value_len (v6 octets port) = 20

unfoldable pub transaction_id : List ℕ → Option (List ℕ)
transaction_id incoming =
    if leb 20 (length incoming) then slice 8 20 incoming else some (replicate 12 0)

unfoldable pub generate_stun_binding_success : List ℕ → SocketAddr → Option (List ℕ)
generate_stun_binding_success incoming client_addr =
    let len = attr_value_len client_addr in
    transaction_id incoming >>= λ txid. some (
      u16_to_be_bytes 0x0101
      ++ (u16_to_be_bytes (4 + len)
          ++ (u32_to_be_bytes stun_magic_cookie
              ++ (txid
                  ++ (u16_to_be_bytes 0x0020
                      ++ (u16_to_be_bytes len ++ (0 ∷ mapped_value txid client_addr)))))))
