-- ===== src/Proxy/Responder/Answers/Laws.antt =====
-- The answer to a QUIC probe swaps the connection IDs that the probe holds.
use awg_easy_rs.Prelude.{
  ℕ, suc, ◌+◌, ◌≤◌, ◌≡◌, refl, sym, ap, ◌∙◌, List, [], ◌∷◌, ◌++◌, append_assoc, some, true,
  Option-cases, inl, inr, length, length-append, length-take, length-drop, get_elem?,
  get_elem?-drop, drop-get_elem?, take, drop, take-append-drop, drop-append, drop-drop, slice-drop,
  arith,
}
use awg_easy_rs.Proxy.Packet.{quic}
use awg_easy_rs.Proxy.Responder.Query.{u32_at}
use awg_easy_rs.Proxy.Responder.Detect.{
  is_quic, quic_lengths, detect_protocol, detect_others, detect_sip,
}
use awg_easy_rs.Proxy.Responder.Answers.{
  swap_scid, swap_cids, first_byte, generate_quic_version_negotiation,
}

-- A long header: the two connection IDs behind the version, each behind its length.
pub record Cids (packet dcid scid rest : List ℕ) : Type 0 where
  pub dcid_len : get_elem? packet 5 ≡ some (length dcid)
  pub wire : drop 6 packet ≡ dcid ++ (length scid ∷ (scid ++ rest))
  pub dcid_short : length dcid ≤ 20
  pub scid_short : length scid ≤ 20

-- The second length field is where the first ID ends.
Cids-scid_len :
    (packet dcid scid rest : List ℕ)
    → Cids packet dcid scid rest
    → drop (6 + length dcid) packet ≡ length scid ∷ (scid ++ rest)
Cids-scid_len packet dcid scid rest c =
    sym (drop-drop 6 (length dcid) packet)
    ∙ ap (drop (length dcid)) c.wire
    ∙ drop-append (length dcid) dcid (length scid ∷ (scid ++ rest)) refl

Cids-length :
    (packet dcid scid rest : List ℕ)
    → Cids packet dcid scid rest
    → length packet ≡ 6 + length dcid + 1 + length scid + length rest
Cids-length packet dcid scid rest c =
    let d : length (drop 6 packet) ≡ length (dcid ++ (length scid ∷ (scid ++ rest))) =
      ap length c.wire in
    omega (
      arith,
      d,
      length-drop 6 packet,
      length-append dcid (length scid ∷ (scid ++ rest)),
      length-append scid rest,
    )

abbrev pub swapped : List ℕ → List ℕ → List ℕ
swapped dcid scid = length scid ∷ (scid ++ (length dcid ∷ dcid))

swap_cids-Cids :
    (packet dcid scid rest : List ℕ)
    → Cids packet dcid scid rest
    → swap_cids packet ≡ some (swapped dcid scid)
unfolding swap_cids swap_scid
swap_cids-Cids packet dcid scid rest c =
    let end = 6 + length dcid in
    let total = Cids-length packet dcid scid rest c in
    let behind = Cids-scid_len packet dcid scid rest c in
    let at_len = get_elem?-drop packet end (length scid) (scid ++ rest) behind in
    let first =
      slice-drop 6 end packet dcid (length scid ∷ (scid ++ rest)) c.wire refl
        (omega (arith, total)) in
    let after : drop (end + 1) packet ≡ scid ++ rest =
      sym (drop-drop end 1 packet) ∙ ap (drop 1) behind in
    let second =
      slice-drop (end + 1) (end + 1 + length scid) packet scid rest after refl
        (omega (arith, total)) in
    ground (arith, c.dcid_len, at_len, first, second, total, c.dcid_short, c.scid_short)

-- What the QUIC test has seen.
record Seen (packet : List ℕ) : Type 0 where
  dcid_len : ℕ
  scid_len : ℕ
  at_dcid : get_elem? packet 5 ≡ some dcid_len
  at_scid : get_elem? packet (6 + dcid_len) ≡ some scid_len
  dcid_short : dcid_len ≤ 20
  scid_short : scid_len ≤ 20
  inside : 6 + dcid_len + 1 + scid_len ≤ length packet

is_quic-Seen : (packet : List ℕ) → is_quic packet ≡ some true → Seen packet
unfolding is_quic quic_lengths
is_quic-Seen packet h = elim (Option-cases (get_elem? packet 5)) [
  | inl out ↦ absurd (ground (arith, h))
  | inr (d, e) ↦ elim (Option-cases (get_elem? packet (6 + d))) [
    | inl out ↦ absurd (ground (arith, h, e))
    | inr (s, e') ↦ record {
      dcid_len = d;
      scid_len = s;
      at_dcid = e;
      at_scid = e';
      dcid_short = ground (arith, h, e);
      scid_short = ground (arith, h, e, e');
      inside = ground (arith, h, e, e');
    }
  ]
]

Seen-Cids : (packet : List ℕ) → Seen packet → (dcid scid rest : List ℕ) × Cids packet dcid scid rest
Seen-Cids packet s =
    let end = 6 + s.dcid_len in
    let dcid = take s.dcid_len (drop 6 packet) in
    let scid = take s.scid_len (drop (suc end) packet) in
    let rest = drop s.scid_len (drop (suc end) packet) in
    let d : length dcid ≡ s.dcid_len =
      omega (arith, s.inside, length-take s.dcid_len (drop 6 packet), length-drop 6 packet) in
    let l : length scid ≡ s.scid_len = omega (
      arith,
      s.inside,
      length-take s.scid_len (drop (suc end) packet),
      length-drop (suc end) packet,
    ) in
    (
      dcid,
      scid,
      rest,
      record {
        dcid_len = s.at_dcid ∙ ap some (sym d);
        wire = rw l (
            sym (take-append-drop s.dcid_len (drop 6 packet))
            ∙ ap (◌++◌ dcid) (
                drop-drop 6 s.dcid_len packet
                ∙ drop-get_elem? packet end s.scid_len s.at_scid
                ∙ ap (◌∷◌ s.scid_len) (sym (take-append-drop s.scid_len (drop (suc end) packet)))));
        dcid_short = omega (arith, d, s.dcid_short);
        scid_short = omega (arith, l, s.scid_short);
      },
    )

-- No datagram but one that passes the QUIC test is taken for QUIC.
detect_protocol-quic :
    (packet : List ℕ) → detect_protocol packet ≡ some (some quic) → is_quic packet ≡ some true
unfolding detect_protocol detect_others detect_sip
detect_protocol-quic packet h = ground arith

abbrev pub grease : List ℕ
grease = 0x0a ∷ 0x0a ∷ 0x0a ∷ 0x0a ∷ []

-- A datagram that is taken for QUIC holds two connection IDs of at most 20 bytes, and the version
-- negotiation that answers it has version 0, holds the same two IDs swapped, and offers one
-- reserved version.
pub generate_quic_version_negotiation-Cids :
    (packet : List ℕ)
    → detect_protocol packet ≡ some (some quic)
    → (dcid scid rest out : List ℕ) × Cids packet dcid scid rest
      × (generate_quic_version_negotiation packet ≡ some out)
      × Cids out scid dcid grease
      × (u32_at out 1 ≡ some 0)
unfolding generate_quic_version_negotiation
generate_quic_version_negotiation-Cids packet h =
    let (dcid, scid, rest, c) =
      Seen-Cids packet (is_quic-Seen packet (detect_protocol-quic packet h)) in
    let out = first_byte packet ∷ 0 ∷ 0 ∷ 0 ∷ 0 ∷ (swapped dcid scid ++ grease) in
    (
      dcid,
      scid,
      rest,
      out,
      c,
      rw (swap_cids-Cids packet dcid scid rest c) refl,
      record {
        dcid_len = refl;
        wire = append_assoc scid (length dcid ∷ dcid) grease;
        dcid_short = c.scid_short;
        scid_short = c.dcid_short;
      },
      refl,
    )
