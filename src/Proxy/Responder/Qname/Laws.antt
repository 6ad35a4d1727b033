-- ===== src/Proxy/Responder/Qname/Laws.antt =====
-- The walk over a DNS name accepts exactly the encodings of names.
use awg_easy_rs.Prelude.{
  ℕ, zero, suc, ◌+◌, ◌≤◌, ◌<◌, ◌≡◌, ◌↔◌, ◌⊎◌, refl, sym, ◌∙◌, List, [], ◌∷◌, ◌++◌, append_assoc,
  some, Option-cases, inl, inr, length, length-append, drop-length_le, drop_at, length-take,
  length-drop, get_elem?, take, drop, take-append-drop, ap, drop-get_elem?, get_elem?-drop,
  All-get_elem?, drop-append, drop-drop, All, IsByte, arith,
}
use awg_easy_rs.Prelude.Bits.{bit_and_c0}
use awg_easy_rs.Proxy.Responder.Qname.{qname_loop, dns_qname_end}

-- A name as its labels, on the wire.
abbrev pub encode : List (List ℕ) → List ℕ
encode [] = 0 ∷ []
encode (l ∷ ls) = length l ∷ (l ++ encode ls)

-- RFC 1035: a label has 1 to 63 bytes, a name at most 255 with its lengths.
abbrev pub IsLabel : List ℕ → Type 0
IsLabel l = (1 ≤ length l) × (length l ≤ 63)

-- The bytes behind `start` begin with the encoding of a name, which ends at `end`.
pub record IsName (bytes : List ℕ) (start end used : ℕ) : Type 0 where
  pub labels : List (List ℕ)
  pub sized : All IsLabel labels
  pub short : used + length (encode labels) ≤ 255
  pub wire : drop start bytes ≡ encode labels ++ drop end bytes
  pub reach : end ≡ start + length (encode labels)

encode-length : (ls : List (List ℕ)) → 1 ≤ length (encode ls)
encode-length [] = omega arith
encode-length (l ∷ ls) = omega arith

-- The last round: the root label.
root-IsName :
    (bytes : List ℕ) (pos used : ℕ)
    → get_elem? bytes pos ≡ some 0
    → used < 255
    → IsName bytes pos (pos + 1) used
root-IsName bytes pos used e h = record {
  labels = [];
  sized = tt;
  short = omega arith;
  wire =
      drop-get_elem? bytes pos 0 e ∙ ap (◌∷◌ 0) (drop_at (suc pos) (pos + 1) bytes (omega arith));
  reach = refl;
}

-- A round before: a label in front of a name.
label-IsName :
    (bytes : List ℕ) (pos used l end : ℕ)
    → get_elem? bytes pos ≡ some l
    → 1 ≤ l
    → l ≤ 63
    → IsName bytes (pos + (1 + l)) end (used + (1 + l))
    → IsName bytes pos end used
label-IsName bytes pos used l end e low high n =
    let behind = drop (suc pos) bytes in
    let label = take l behind in
    let tail : drop l behind ≡ encode n.labels ++ drop end bytes =
      drop-drop (suc pos) l bytes
      ∙ drop_at (suc pos + l) (pos + (1 + l)) bytes (omega arith)
      ∙ n.wire in
    let whole : length label ≡ l = omega (
      arith,
      length-take l behind,
      length-drop l behind,
      ap length tail,
      length-append (encode n.labels) (drop end bytes),
      encode-length n.labels,
    ) in
    record {
      labels = label ∷ n.labels;
      sized = ((omega (arith, whole), omega (arith, whole)), n.sized);
      short = omega (arith, whole, length-append label (encode n.labels), n.short);
      wire =
          drop-get_elem? bytes pos l e
          ∙ ap (◌∷◌ l) (sym (take-append-drop l behind) ∙ ap (◌++◌ label) tail)
          ∙ rw (whole, append_assoc) refl;
      reach = omega (arith, whole, length-append label (encode n.labels), n.reach);
    }

-- A round that does not refuse ends the name or reads one label.
round-cases :
    (rounds : ℕ) (bytes : List ℕ) (pos used l end : ℕ)
    → get_elem? bytes pos ≡ some l
    → l < 256
    → qname_loop (suc rounds) bytes pos used ≡ some end
    → ((l ≡ 0) × (end ≡ pos + 1))
      ⊎ ((1 ≤ l)
          × (l ≤ 63)
          × (used + (1 + l) < 255)
          × (qname_loop rounds bytes (pos + (1 + l)) (used + (1 + l)) ≡ some end))
unfolding qname_loop
round-cases rounds bytes pos used l end e b k = ground (arith, bit_and_c0 l b)

loop-IsName :
    (rounds : ℕ) (bytes : List ℕ) (pos used end : ℕ)
    → All IsByte bytes
    → used < 255
    → qname_loop rounds bytes pos used ≡ some end
    → IsName bytes pos end used
unfolding qname_loop
loop-IsName zero bytes pos used end b h k = cc
loop-IsName (suc rounds) bytes pos used end b h k = elim (Option-cases (get_elem? bytes pos)) [
  | inl out ↦ absurd cc
  | inr (l, e) ↦
      elim (round-cases rounds bytes pos used l end e (All-get_elem? IsByte bytes pos l b e) k) [
        | inl (root, last) ↦ rw last (root-IsName bytes pos used (rw root at e) h)
        | inr (low, high, short, again) ↦
            label-IsName bytes pos used l end e low high
              (loop-IsName rounds bytes (pos + (1 + l)) (used + (1 + l)) end b short again)
      ]
]

-- What is behind a label that was read.
behind_label :
    (bytes : List ℕ) (pos : ℕ) (l rest : List ℕ)
    → drop pos bytes ≡ length l ∷ (l ++ rest)
    → drop (pos + (1 + length l)) bytes ≡ rest
behind_label bytes pos l rest h =
    let e =
      drop-get_elem? bytes pos (length l) (get_elem?-drop bytes pos (length l) (l ++ rest) h) in
    let next : drop (suc pos) bytes ≡ l ++ rest = cc in
    drop_at (pos + (1 + length l)) (suc pos + length l) bytes (omega arith)
    ∙ sym (drop-drop (suc pos) (length l) bytes)
    ∙ ap (drop (length l)) next
    ∙ drop-append (length l) l rest refl

loop_complete :
    (rounds : ℕ) (bytes : List ℕ) (pos used : ℕ) (ls : List (List ℕ)) (rest : List ℕ)
    → length bytes < rounds + pos
    → All IsLabel ls
    → used + length (encode ls) ≤ 255
    → drop pos bytes ≡ encode ls ++ rest
    → qname_loop rounds bytes pos used ≡ some (pos + length (encode ls))
unfolding qname_loop
loop_complete zero bytes pos used [] rest h sized short w =
    let out = drop-length_le pos bytes (omega arith) in cc
loop_complete zero bytes pos used (l ∷ ls) rest h sized short w =
    let out = drop-length_le pos bytes (omega arith) in cc
loop_complete (suc rounds) bytes pos used [] rest h sized short w =
    rw (get_elem?-drop bytes pos 0 rest w) refl
loop_complete (suc rounds) bytes pos used (l ∷ ls) rest h sized short w =
    let tail = encode ls ++ rest in
    let w' : drop pos bytes ≡ length l ∷ (l ++ tail) = rw append_assoc at w in
    let again =
      loop_complete rounds bytes (pos + (1 + length l)) (used + (1 + length l)) ls rest
        (omega arith) sized.1 (omega (arith, length-append l (encode ls)))
        (behind_label bytes pos l tail w') in
    rw (get_elem?-drop bytes pos (length l) (l ++ tail) w') (
      ground (
        arith,
        again,
        bit_and_c0 (length l) (omega (arith, sized.0.1)),
        encode-length ls,
        length-append l (encode ls),
      ))

pub dns_qname_end-encode :
    (bytes : List ℕ) (start : ℕ) (ls : List (List ℕ)) (rest : List ℕ)
    → All IsLabel ls
    → length (encode ls) ≤ 255
    → drop start bytes ≡ encode ls ++ rest
    → dns_qname_end bytes start ≡ some (start + length (encode ls))
unfolding dns_qname_end
dns_qname_end-encode bytes start ls rest sized short w =
    loop_complete (suc (length bytes)) bytes start 0 ls rest (omega arith) sized (omega arith) w

-- The walk succeeds exactly when a name of 1 to 63 bytes a label, 255 bytes in all and without
-- compression stands at the start, and then it returns the position behind it.
pub dns_qname_end-IsName :
    (bytes : List ℕ) (start end : ℕ)
    → All IsByte bytes
    → (dns_qname_end bytes start ≡ some end) ↔ IsName bytes start end 0
unfolding dns_qname_end
dns_qname_end-IsName bytes start end b = (
  loop-IsName (suc (length bytes)) bytes start 0 end b (omega arith),
  λ n.
      loop_complete (suc (length bytes)) bytes start 0 n.labels (drop end bytes) (omega arith)
        n.sized n.short n.wire
      ∙ ap some (sym n.reach),
)
