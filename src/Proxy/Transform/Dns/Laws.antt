-- ===== src/Proxy/Transform/Dns/Laws.antt =====
-- The DNS padding: no write out of range, the payload untouched, the OPT framing exact.
use awg_easy_rs.Prelude.{
  ℕ, ◌+◌, ◌-◌, ◌≤◌, ◌<◌, ◌≡◌, refl, ap, min, List, [], ◌∷◌, ◌++◌, Option, none, some, leb,
  if◌then◌else◌, length, take, drop, replicate, arith, length-append, length-take, length-replicate,
  copy_three, copy_one,
}
use awg_easy_rs.Proxy.Echo.{DnsEcho}
use awg_easy_rs.Proxy.Transform.Dns.{
  opt_header, opt_record, write_dns_opt_response, echo_question, dns_question, apply_dns_padding,
  null_padding, null_advertised_len, payload_txid, null_fixed,
}

length-echo_question : (e : DnsEcho) → length (echo_question e) ≡ length e.qname + 4
length-echo_question e = omega (arith, length-append e.qname (e.qtype.0 ∷ e.qtype.1 ∷ 0 ∷ 1 ∷ []))

-- The chosen question leaves room for the header and the OPT record.
pub dns_question-room :
    (e : Option DnsEcho) (n : ℕ) (payload : List ℕ)
    → 32 ≤ n
    → length (dns_question e n payload).0 + 27 ≤ n
unfolding dns_question
dns_question-room none n payload h = omega arith
dns_question-room (some e) n payload h = ground (arith, length-echo_question e)

-- The rewritten prefix, piece by piece.
abbrev pub opt_prefix : ℕ → ℕ → ℕ × ℕ → List ℕ → List ℕ
opt_prefix n total txid question =
    opt_header txid
    ++ (question
        ++ (opt_record txid (min (total - (12 + length question + 11)) 65535)
              (min (total - (12 + length question + 11 + 4)) 65535)
            ++ replicate (n - (12 + length question + 15)) 0))

write_dns_opt_response_lem :
    (padding : List ℕ) (total : ℕ) (txid : ℕ × ℕ) (question : List ℕ)
    → length question + 27 ≤ length padding
    → write_dns_opt_response padding total txid question
      ≡ some (opt_prefix (length padding) total txid question)
unfolding write_dns_opt_response
write_dns_opt_response_lem padding total (hi, lo) question room =
    copy_three 12 (12 + length question) (12 + length question + 15) (opt_header (hi, lo)) question
      (opt_record (hi, lo) (min (total - (12 + length question + 11)) 65535)
        (min (total - (12 + length question + 11 + 4)) 65535))
      padding refl refl (omega arith) (omega arith)

-- The chosen question and transaction ID of a packet.
abbrev pub chosen : List ℕ → ℕ → Option DnsEcho → List ℕ × (ℕ × ℕ)
chosen packet n echo = dns_question echo n (drop n packet)

-- Where the OPT framing fits, DNS padding writes the header, the question, the OPT record and
-- zeros over exactly the padding, and leaves the payload.
pub apply_dns_padding-opt :
    (packet : List ℕ) (n : ℕ) (echo : Option DnsEcho)
    → 32 ≤ n
    → n ≤ length packet
    → apply_dns_padding packet n echo
      ≡ some (
          opt_prefix n (length packet) (chosen packet n echo).1 (chosen packet n echo).0
          ++ drop n packet)
unfolding apply_dns_padding
apply_dns_padding-opt packet n echo h k =
    let q = chosen packet n echo in
    let room = dns_question-room echo n (drop n packet) h in
    let same : length (take n packet) ≡ n = omega (arith, length-take n packet) in
    ground (
      arith,
      same,
      write_dns_opt_response_lem (take n packet) (length packet) q.1 q.0,
      ap (λ m. opt_prefix m (length packet) q.1 q.0) same,
    )

pub length-opt_prefix :
    (n total : ℕ) (txid : ℕ × ℕ) (question : List ℕ)
    → 12 + length question + 15 ≤ n
    → length (opt_prefix n total txid question) ≡ n
length-opt_prefix n total txid question h =
    let z : List ℕ = replicate (n - (12 + length question + 15)) 0 in
    let o : List ℕ =
      opt_record txid (min (total - (12 + length question + 11)) 65535)
        (min (total - (12 + length question + 11 + 4)) 65535) in
    omega (
      arith,
      length-append question (o ++ z),
      length-replicate {A = ℕ} (n - (12 + length question + 15)) 0,
    )

-- The legacy form: as much of the array as is advertised, and zeros.
abbrev pub null_prefix : List ℕ → ℕ → ℕ → List ℕ
null_prefix payload n total =
    let c = min n (null_advertised_len n) in
    take c (
      null_fixed (payload_txid payload) (if leb 17 n then 1 else 0) (if leb 28 n then 1 else 0)
        (min (total - 28) 65535))
    ++ replicate (n - c) 0

null_advertised_len-le : (n : ℕ) → null_advertised_len n ≤ 28
unfolding null_advertised_len
null_advertised_len-le n = ground arith

null_padding_lem :
    (padding payload : List ℕ) (total : ℕ)
    → null_padding padding payload total ≡ some (null_prefix payload (length padding) total)
unfolding null_padding
null_padding_lem padding payload total =
    let n = length padding in
    let c = min n (null_advertised_len n) in
    let f =
      null_fixed (payload_txid payload) (if leb 17 n then 1 else 0) (if leb 28 n then 1 else 0)
        (min (total - 28) 65535) in
    copy_one c 0 (take c f) padding (omega (arith, length-take c f, null_advertised_len-le n))
      (omega arith)

pub apply_dns_padding-null :
    (packet : List ℕ) (n : ℕ) (echo : Option DnsEcho)
    → 1 ≤ n
    → n < 32
    → n ≤ length packet
    → apply_dns_padding packet n echo
      ≡ some (null_prefix (drop n packet) n (length packet) ++ drop n packet)
unfolding apply_dns_padding
apply_dns_padding-null packet n echo h k l =
    let same : length (take n packet) ≡ n = omega (arith, length-take n packet) in
    ground (
      arith,
      same,
      null_padding_lem (take n packet) (drop n packet) (length packet),
      ap (λ m. null_prefix (drop n packet) m (length packet)) same,
    )

pub length-null_prefix : (payload : List ℕ) (n total : ℕ) → length (null_prefix payload n total) ≡ n
length-null_prefix payload n total =
    let c = min n (null_advertised_len n) in
    let f =
      null_fixed (payload_txid payload) (if leb 17 n then 1 else 0) (if leb 28 n then 1 else 0)
        (min (total - 28) 65535) in
    let z : List ℕ = replicate (n - c) 0 in
    omega (
      arith,
      length-append (take c f) z,
      length-take c f,
      length-replicate {A = ℕ} (n - c) 0,
      null_advertised_len-le n,
    )
