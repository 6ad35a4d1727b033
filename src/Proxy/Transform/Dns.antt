-- ===== src/Proxy/Transform/Dns.antt =====
-- src/proxy/transform.rs: DNS padding, a response with an EDNS OPT record or a NULL answer.
pub mod Laws
pub mod Framing
use awg_easy_rs.Prelude.{
  ℕ, zero, suc, ◌+◌, ◌-◌, ◌*◌, ◌/◌, ◌%◌, min, List, [], ◌∷◌, ◌++◌, Option, none, some, Bool, ltb,
  leb, ◌&&◌, ◌==◌, if◌then◌else◌, length, take, drop, get_or, u16_from_be_bytes, u16_to_be_bytes,
  copy_at, fill_from, ◌>>=◌,
}
use awg_easy_rs.Proxy.Echo.{DnsEcho}

abbrev pub dns_header_len : ℕ
dns_header_len = 12

abbrev pub dns_root_question_len : ℕ
dns_root_question_len = 5

abbrev pub dns_opt_fixed_len : ℕ
dns_opt_fixed_len = 11

abbrev pub dns_opt_option_hdr_len : ℕ
dns_opt_option_hdr_len = 4

abbrev pub dns_opt_min : ℕ
dns_opt_min = dns_header_len + dns_root_question_len + dns_opt_fixed_len + dns_opt_option_hdr_len

abbrev pub dns_opt_udp_size : ℕ
dns_opt_udp_size = 1232

abbrev pub dns_opt_cover_code_base : ℕ
dns_opt_cover_code_base = 65001

abbrev pub dns_opt_cover_code_span : ℕ
dns_opt_cover_code_span = 65535 - dns_opt_cover_code_base

-- The transaction ID is the pair of its bytes.
unfoldable pub dns_cover_code : ℕ × ℕ → ℕ
dns_cover_code (hi, lo) =
    dns_opt_cover_code_base + u16_from_be_bytes hi lo % dns_opt_cover_code_span

-- The twelve single-byte writes of the header, in their order.
abbrev pub opt_header : ℕ × ℕ → List ℕ
opt_header (hi, lo) = hi ∷ lo ∷ 0x81 ∷ 0x80 ∷ 0 ∷ 1 ∷ 0 ∷ 0 ∷ 0 ∷ 0 ∷ 0 ∷ 1 ∷ []

-- The array `opt`.
abbrev pub opt_record : ℕ × ℕ → ℕ → ℕ → List ℕ
opt_record txid rdlength opt_len =
    0x00
    ∷ 0x00
    ∷ 0x29
    ∷ (u16_to_be_bytes dns_opt_udp_size
        ++ (0
            ∷ 0
            ∷ 0
            ∷ 0
            ∷ (u16_to_be_bytes rdlength
                ++ (u16_to_be_bytes (dns_cover_code txid) ++ u16_to_be_bytes opt_len))))

unfoldable pub write_dns_opt_response : List ℕ → ℕ → ℕ × ℕ → List ℕ → Option (List ℕ)
write_dns_opt_response padding total_len txid question = do
  let opt_off = dns_header_len + length question
  let rdlength = min (total_len - (opt_off + dns_opt_fixed_len)) 65535
  let opt_len = min (total_len - (opt_off + dns_opt_fixed_len + dns_opt_option_hdr_len)) 65535
  let opt = opt_record txid rdlength opt_len
  p1 ← copy_at 0 (opt_header txid) padding
  p2 ← copy_at dns_header_len question p1
  p3 ← copy_at opt_off opt p2
  fill_from (opt_off + length opt) 0 p3

-- Whether the client's query fits the pad prefix.
unfoldable pub echo_fits : DnsEcho → ℕ → Bool
echo_fits e pad_size =
    leb (length e.qname + 4) 259
    && leb (dns_header_len + length e.qname + 4 + dns_opt_fixed_len + dns_opt_option_hdr_len)
        pad_size

abbrev pub root_question : List ℕ
root_question = 0x00 ∷ 0x00 ∷ 0x01 ∷ 0x00 ∷ 0x01 ∷ []

abbrev pub payload_txid : List ℕ → ℕ × ℕ
payload_txid payload = (get_or payload 0 0, get_or payload 1 0)

abbrev pub echo_question : DnsEcho → List ℕ
echo_question e = e.qname ++ (e.qtype.0 ∷ e.qtype.1 ∷ 0x00 ∷ 0x01 ∷ [])

-- The question section and the transaction ID.
unfoldable pub dns_question : Option DnsEcho → ℕ → List ℕ → List ℕ × (ℕ × ℕ)
unfolding echo_fits
dns_question (some e) pad_size payload =
    if echo_fits e pad_size
    then (echo_question e, e.txid)
    else (root_question, payload_txid payload)
dns_question none pad_size payload = (root_question, payload_txid payload)

-- The array `fixed` of the legacy form.
abbrev pub null_fixed : ℕ × ℕ → ℕ → ℕ → ℕ → List ℕ
null_fixed (hi, lo) qdcount ancount rdlength =
    hi
    ∷ lo
    ∷ 0x81
    ∷ 0x80
    ∷ 0x00
    ∷ qdcount
    ∷ 0x00
    ∷ ancount
    ∷ 0x00
    ∷ 0x00
    ∷ 0x00
    ∷ 0x00
    ∷ 0x00
    ∷ 0x00
    ∷ 0x01
    ∷ 0x00
    ∷ 0x01
    ∷ 0x00
    ∷ 0x00
    ∷ 0x0a
    ∷ 0x00
    ∷ 0x01
    ∷ 0x00
    ∷ 0x00
    ∷ 0x00
    ∷ 0x3c
    ∷ u16_to_be_bytes rdlength

unfoldable pub null_advertised_len : ℕ → ℕ
null_advertised_len pad_size = if leb 28 pad_size then 28 else if leb 17 pad_size then 17 else 12

-- The body of `apply_dns_padding_null` behind its test for an empty padding.
unfoldable pub null_padding : List ℕ → List ℕ → ℕ → Option (List ℕ)
unfolding null_advertised_len
null_padding padding payload total_len = do
  let pad_size = length padding
  let qdcount = if leb 17 pad_size then 1 else 0
  let ancount = if leb 28 pad_size then 1 else 0
  let fixed = null_fixed (payload_txid payload) qdcount ancount (min (total_len - 28) 65535)
  let copy_len = min pad_size (null_advertised_len pad_size)
  p1 ← copy_at 0 (take copy_len fixed) padding
  fill_from copy_len 0 p1

unfoldable pub apply_dns_padding_null : List ℕ → ℕ → Option (List ℕ)
unfolding null_padding
apply_dns_padding_null packet pad_size =
    if leb pad_size (length packet)
    then (if length (take pad_size packet) == 0 then some packet else (do
      p ← null_padding (take pad_size packet) (drop pad_size packet) (length packet)
      some (p ++ drop pad_size packet)))
    else none

-- The body of `apply_dns_padding` where the OPT framing fits.
unfoldable pub opt_padding : List ℕ → ℕ → Option DnsEcho → Option (List ℕ)
unfolding dns_question write_dns_opt_response
opt_padding packet pad_size echo = do
  let payload = drop pad_size packet
  let (question, txid) = dns_question echo pad_size payload
  p ← write_dns_opt_response (take pad_size packet) (length packet) txid question
  some (p ++ payload)

unfoldable pub apply_dns_padding : List ℕ → ℕ → Option DnsEcho → Option (List ℕ)
unfolding apply_dns_padding_null opt_padding
apply_dns_padding packet pad_size echo =
    if pad_size == 0
    then some packet
    else (if ltb pad_size dns_opt_min
        then apply_dns_padding_null packet pad_size
        else (if leb pad_size (length packet) then opt_padding packet pad_size echo else none))
