-- ===== src/Proxy/Responder/Response/Parts.antt =====
-- The answer to a QUIC probe exists and is short.
use awg_easy_rs.Prelude.{
  ℕ, ◌+◌, ◌-◌, ◌%◌, ◌≤◌, ◌<◌, ◌≡◌, refl, List, ◌∷◌, ◌++◌, Option, some, Bool-cases, Option-cases,
  inl, inr, ◌&&◌, ltb, leb, length, length-append, length-take, length-drop, get_elem?,
  get_elem?-lt, get_or, take, drop, slice, u32_to_be_bytes, arith,
}
use awg_easy_rs.Proxy.Responder.Answers.{
  no_cids, swap_scid, swap_cids, first_byte, generate_quic_version_negotiation,
}

-- No panic, and at most so many bytes.
abbrev pub Within : ℕ → Option (List ℕ) → Type 0
Within n answer = (out : List ℕ) × (answer ≡ some out) × (length out ≤ n)

pub slice-within :
    (lo hi : ℕ) (xs : List ℕ)
    → lo ≤ hi
    → hi ≤ length xs
    → (out : List ℕ) × (slice lo hi xs ≡ some out) × (length out ≡ hi - lo)
unfolding slice
slice-within lo hi xs h k = (
  take (hi - lo) (drop lo xs),
  ground arith,
  omega (arith, length-take (hi - lo) (drop lo xs), length-drop lo xs),
)

swap_scid-Within :
    (incoming : List ℕ) (end s : ℕ)
    → 6 ≤ end
    → end ≤ 26
    → end < length incoming
    → Within 42 (swap_scid incoming end s)
unfolding swap_scid
swap_scid-Within incoming end s low high inside =
    elim (Bool-cases (leb s 20 && leb (end + 1 + s) (length incoming))) [
      | inr outside ↦ (no_cids, ground (arith, outside), omega arith)
      | inl all_in ↦
          let (dcid, d, dl) = slice-within 6 end incoming low (omega arith) in
          let (scid, e, el) =
            slice-within (end + 1) (end + 1 + s) incoming (omega arith) (ground (arith, all_in)) in
          let short : s ≤ 20 = ground (arith, all_in) in
          (
            s % 256 ∷ (scid ++ ((end - 6) % 256 ∷ dcid)),
            rw (all_in, d, e) refl,
            omega (arith, dl, el, short, length-append scid ((end - 6) % 256 ∷ dcid)),
          )
    ]

swap_cids-Within : (incoming : List ℕ) → Within 42 (swap_cids incoming)
unfolding swap_cids
swap_cids-Within incoming = elim (Option-cases (get_elem? incoming 5)) [
  | inl short ↦ (no_cids, ground (arith, short, get_elem?-lt incoming 5 0), omega arith)
  | inr (d, e) ↦ elim (Bool-cases (leb d 20 && ltb (6 + d) (length incoming))) [
    | inr outside ↦ (no_cids, ground (arith, e, outside), omega arith)
    | inl all_in ↦
        let end = 6 + d in
        let read = get_elem?-lt incoming end 0 (ground (arith, all_in)) in
        let (out, q, l) =
          swap_scid-Within incoming end (get_or incoming end 0) (omega arith)
            (ground (arith, all_in)) (ground (arith, all_in)) in
        (out, ground (arith, e, all_in, read, q), l)
  ]
]

pub version_negotiation-Within :
    (incoming : List ℕ) → Within 51 (generate_quic_version_negotiation incoming)
unfolding generate_quic_version_negotiation
version_negotiation-Within incoming =
    let (cids, e, l) = swap_cids-Within incoming in
    (
      first_byte incoming ∷ (u32_to_be_bytes 0 ++ (cids ++ u32_to_be_bytes 0x0a0a0a0a)),
      rw e refl,
      omega (arith, l, length-append cids (u32_to_be_bytes 0x0a0a0a0a)),
    )
