-- ===== src/Proxy/Transform/Tests.antt =====
-- Runs of the padding transforms.
use awg_easy_rs.Prelude.{
  ℕ, ◌+◌, ◌^◌, ◌≤◌, ◌<◌, ◌≡◌, refl, List, [], ◌∷◌, ◌++◌, Option, none, some, Bool, true, false,
  length, replicate, codes, ◌-◌, arith, All, IsByte,
}
use awg_easy_rs.Proxy.Params.{AwgParams}
use awg_easy_rs.Proxy.Packet.{dns, stun, padding_size, classify_awg_packet, try_candidate}
use awg_easy_rs.Proxy.Echo.{DnsEcho}
use awg_easy_rs.Proxy.Transform.{apply_awg_transform, apply_typed}
use awg_easy_rs.Proxy.Transform.Laws.{Transformed, apply_awg_transform-Transformed}
use awg_easy_rs.Proxy.Transform.Random.{fnv1a_seed, lcg_step}
use awg_easy_rs.Proxy.Transform.Quic.{quic_padding}
use awg_easy_rs.Proxy.Transform.Quic.Laws.{IsShortHeader, quic_padding-IsShortHeader}
use awg_easy_rs.Proxy.Transform.Dns.{dns_question, apply_dns_padding}
use awg_easy_rs.Proxy.Transform.Dns.Framing.{Asks, IsWhole, apply_dns_padding-IsWhole}
use awg_easy_rs.Proxy.Transform.Stun.{
  stun_padding, stun_header, stun_txn, put_address, put_software, stun_body, zero_tail,
}
use awg_easy_rs.Proxy.Transform.Stun.Laws.{success_header, stun_padding-message}
use awg_easy_rs.Proxy.Transform.Stun.Tlvs.{Tlvs}
use awg_easy_rs.Proxy.Transform.Sip.{
  crlf, SipBuf, put_length, sip_padding, draw, put_line, put_lines, put_status, put_fragment,
  put_end, put_headers, mandatory,
}
use awg_easy_rs.Proxy.Transform.Sip.Framing.{Declares, put_length-Declares}

abbrev params : AwgParams
params = record {
  jc = 5;
  jmin = 50;
  jmax = 1000;
  s1 = 40;
  s2 = 30;
  s3 = 20;
  s4 = 33;
  h1 = record { lo = 100; hi = 200 };
  h2 = record { lo = 300; hi = 400 };
  h3 = record { lo = 500; hi = 600 };
  h4 = record { lo = 700; hi = 800 };
}

-- A transport message behind 33 bytes of padding; 700 = 0x02bc.
abbrev message : List ℕ
message = 0xbc ∷ 2 ∷ 0 ∷ 0 ∷ replicate 36 9

abbrev packet : List ℕ
packet = replicate 33 7 ++ message

-- The query of `a. IN A`.
abbrev query_echo : DnsEcho
query_echo = record { txid = (0x12, 0x34); qname = 1 ∷ 0x61 ∷ 0 ∷ []; qtype = (0, 1) }

-- The echo is one byte too long for the padding, so the question is the root.
dns_run :
    apply_awg_transform packet params dns (some query_echo)
    ≡ some (
      0xbc
          ∷ 2
          ∷ 0x81
          ∷ 0x80
          ∷ 0
          ∷ 1
          ∷ 0
          ∷ 0
          ∷ 0
          ∷ 0
          ∷ 0
          ∷ 1
          ∷ 0x00
          ∷ 0x00
          ∷ 0x01
          ∷ 0x00
          ∷ 0x01
          ∷ (0 ∷ 0 ∷ 0x29 ∷ 4 ∷ 0xd0 ∷ 0 ∷ 0 ∷ 0 ∷ 0 ∷ 0 ∷ 45 ∷ 0xfe ∷ 0x2f ∷ 0 ∷ 41 ∷ 0 ∷ message),
      true,
    )
unfolding apply_awg_transform classify_awg_packet try_candidate padding_size apply_typed
    apply_dns_padding awg_easy_rs.Prelude.copy_at awg_easy_rs.Prelude.fill_from
    awg_easy_rs.Proxy.Transform.Dns.dns_cover_code
dns_run = refl

-- Room for the header only.
stun_run :
    stun_padding (replicate 21 7) message
    ≡ some (stun_header 0 (stun_txn (fnv1a_seed message)) ++ (0 ∷ []))
unfolding stun_padding put_address stun_body put_software awg_easy_rs.Prelude.copy_at stun_header
    stun_txn zero_tail awg_easy_rs.Prelude.fill_from
stun_run = refl

-- Whatever status is drawn, the shortest one fits 20 bytes.
sip_run :
    sip_padding (replicate 20 7) message
    ≡ some (codes "SIP/2.0 200 OK" ++ (crlf ++ (crlf ++ codes "  ")))
unfolding sip_padding put_status put_line awg_easy_rs.Proxy.Transform.Sip.write_pieces draw
    fnv1a_seed awg_easy_rs.Prelude.copy_at put_headers put_lines mandatory lcg_step
    awg_easy_rs.Prelude.decimal awg_easy_rs.Prelude.hex8 put_end awg_easy_rs.Prelude.fill_from
sip_run = refl

apply_awg_transform-Transformed_example :
    (r : List ℕ × Bool) × (apply_awg_transform packet params stun none ≡ some r)
    × Transformed packet params r
apply_awg_transform-Transformed_example = apply_awg_transform-Transformed packet params stun none

quic_padding-IsShortHeader_example :
    (first : ℕ) × (rest : List ℕ) × (quic_padding (7 ∷ 7 ∷ []) message ≡ first ∷ rest)
    × IsShortHeader first
    × All IsByte rest
quic_padding-IsShortHeader_example = quic_padding-IsShortHeader 7 (7 ∷ []) message

apply_dns_padding-IsWhole_example :
    (out : List ℕ) × (id : ℕ × ℕ) × (question : List ℕ) × (apply_dns_padding packet 33
        (some query_echo)
      ≡ some out)
    × Asks (some query_echo) 33 message id question
    × IsWhole out id question
apply_dns_padding-IsWhole_example =
    apply_dns_padding-IsWhole packet 33 (some query_echo) (omega arith) (omega arith) (omega arith)

stun_padding-message_example :
    (attrs txn : List ℕ) × (stun_padding (replicate 40 7) message
      ≡ some (
          success_header (length attrs)
          ++ (txn ++ (attrs ++ replicate (40 - (20 + length attrs)) 0))))
    × (length txn ≡ 12)
    × Tlvs attrs
    × (20 + length attrs ≤ 40)
    × (length attrs < 2 ^ 16)
stun_padding-message_example = stun_padding-message (replicate 40 7) message (omega arith)

abbrev half_written : SipBuf
half_written = record { buf = replicate 60 7; pos = 20 }

put_length-Declares_example :
    (b' : SipBuf) × (put_length (1 ∷ 2 ∷ []) 1000 half_written ≡ some b')
    × Declares 1000 half_written b'
put_length-Declares_example =
    put_length-Declares 1000 half_written (omega arith) (omega arith) (omega arith)
