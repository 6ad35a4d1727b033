-- ===== src/Proxy/Packet/Tests.antt =====
-- Runs of the packet classification.
use awg_easy_rs.Prelude.{
  ℕ, ◌+◌, ◌≤◌, ◌≡◌, refl, List, [], ◌∷◌, ◌++◌, Option, none, some, length, replicate,
}
use awg_easy_rs.Proxy.Params.{AwgParams}
use awg_easy_rs.Proxy.Packet.{
  AwgPacketType, handshake_response, padding_size, try_candidate, classify_awg_packet,
}
use awg_easy_rs.Proxy.Packet.Laws.{Classified, classify_awg_packet-Classified, classify-room}

abbrev params : AwgParams
params = record {
  jc = 5;
  jmin = 50;
  jmax = 1000;
  s1 = 40;
  s2 = 30;
  s3 = 20;
  s4 = 10;
  h1 = record { lo = 100; hi = 200 };
  h2 = record { lo = 300; hi = 400 };
  h3 = record { lo = 500; hi = 600 };
  h4 = record { lo = 700; hi = 800 };
}

-- 300 = 0x012c, little endian.
abbrev response : List ℕ
response = replicate 30 7 ++ (0x2c ∷ 1 ∷ 0 ∷ 0 ∷ replicate 88 9)

classify_response : classify_awg_packet response params ≡ some (some handshake_response)
unfolding classify_awg_packet try_candidate
classify_response = refl

-- The right size with a header outside the range is junk.
classify_junk : classify_awg_packet (replicate 122 7) params ≡ some none
unfolding classify_awg_packet try_candidate
classify_junk = refl

classify_short : classify_awg_packet (1 ∷ 2 ∷ []) params ≡ some none
unfolding classify_awg_packet try_candidate
classify_short = refl

classify_awg_packet-Classified_example :
    (r : Option AwgPacketType) × (classify_awg_packet response params ≡ some r)
    × Classified response params r
classify_awg_packet-Classified_example = classify_awg_packet-Classified response params

classify-room_example : padding_size handshake_response params + 32 ≤ length response
classify-room_example = classify-room response params handshake_response classify_response
