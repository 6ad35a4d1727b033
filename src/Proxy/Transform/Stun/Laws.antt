-- ===== src/Proxy/Transform/Stun/Laws.antt =====
-- The STUN padding: no write out of range, and a message whose attributes fill its length.
use awg_easy_rs.Prelude.{
  ℕ, zero, suc, ◌+◌, ◌-◌, ◌/◌, ◌%◌, ◌^◌, ◌≤◌, ◌<◌, ◌≡◌, refl, sym, ap, min, List, [], ◌∷◌, ◌++◌,
  some, true, ltb, leb, ◌==◌, length, take, drop, replicate, arith, length-append, length-take,
  length-drop, length-replicate, take-append-drop, copy_at, copy_at-append, fill_from-append,
  append_assoc, append-nil, ◌>>=◌, Bool-cases, inl, inr, ltb→lt, drop-length_le, drop-append, ◌∙◌,
}
use awg_easy_rs.Proxy.Transform.Random.{fnv1a_seed, lcg_step}
use awg_easy_rs.Proxy.Transform.Stun.{
  xor_mapped, stun_body, Writer, put_address, put_software, stun_header, stun_txn, zero_tail,
  stun_padding, apply_stun_padding,
}
use awg_easy_rs.Proxy.Transform.Stun.Tlvs.{
  length-software, Tlvs, done, Holds, stun_body-fits, address_attr, software_attr, put_address_lem,
  put_software_lem,
}

length-stun_header : (n s : ℕ) → length (stun_header n (stun_txn s)) ≡ 20
unfolding stun_header stun_txn
length-stun_header n s = refl

-- The attributes of the message for a payload, in an n-byte padding.
abbrev pub start_state : List ℕ → ℕ
start_state payload = lcg_step (lcg_step (lcg_step (fnv1a_seed payload)))

take-all : (n : ℕ) (xs : List ℕ) → length xs ≤ n → take n xs ≡ xs
take-all zero [] h = refl
take-all zero (x ∷ xs) h = absurd (omega arith)
take-all (suc n) [] h = refl
take-all (suc n) (x ∷ xs) h = ap (◌∷◌ x) (take-all n xs (omega arith))

-- The header over the first 20 bytes, and zeros behind the attributes.
finish :
    (padding attrs header : List ℕ) (w : Writer)
    → 20 ≤ length padding
    → Holds padding w attrs
    → length header ≡ 20
    → (copy_at 0 header w.buf >>= λ p. zero_tail (20 + w.written) p)
      ≡ some (header ++ (attrs ++ replicate (length padding - (20 + length attrs)) 0))
unfolding zero_tail
finish padding attrs header w h held hl =
    let d : List ℕ = drop (length attrs) (drop 20 padding) in
    let ld : length d ≡ length padding - (20 + length attrs) =
      omega (arith, length-drop (length attrs) (drop 20 padding), length-drop 20 padding) in
    let lt = length-take 20 padding in
    let whole = length-append (take 20 padding) (attrs ++ d) in
    let cut : drop (length header) (take 20 padding ++ (attrs ++ d)) ≡ attrs ++ d =
      drop-append _ (take 20 padding) (attrs ++ d) (omega arith) in
    let e₁ = copy_at-append 0 header [] (take 20 padding ++ (attrs ++ d)) refl (omega arith) in
    let e₂ =
      fill_from-append (20 + length attrs) 0 (header ++ attrs) d
        (omega (arith, length-append header attrs)) in
    let room : leb (20 + length attrs) (length ((header ++ attrs) ++ d)) ≡ true =
      ground (arith, length-append (header ++ attrs) d, length-append header attrs) in
    rw (
      held.layout,
      held.counted,
      e₁,
      cut,
      ← append_assoc header attrs d,
      room,
      e₂,
      ld,
      append_assoc,
    )

address_attr-short : (body s : ℕ) → length (address_attr body s) ≤ 12
unfolding xor_mapped
address_attr-short body s = ground arith

software_attr-short : (remaining s : ℕ) → length (software_attr remaining s) ≤ 128
software_attr-short remaining s = ground (arith, length-software (min (remaining - 4) 124) s)

stun_padding-attrs :
    (padding payload : List ℕ)
    → 20 ≤ length padding
    → (attrs : List ℕ) × (stun_padding padding payload
        ≡ some (
            stun_header (length attrs) (stun_txn (fnv1a_seed payload))
            ++ (attrs ++ replicate (length padding - (20 + length attrs)) 0)))
      × Tlvs attrs
      × (20 + length attrs ≤ length padding)
      × (length attrs ≤ 140)
unfolding stun_padding
stun_padding-attrs padding payload h =
    let seed = fnv1a_seed payload in
    let body = stun_body (length padding) in
    let w₀ : Writer = record { buf = padding; written = 0; state = start_state payload } in
    let held₀ : Holds padding w₀ [] = record {
      layout = sym (take-append-drop 20 padding);
      counted = refl;
      framed = done;
      inside = omega arith;
    } in
    let (w₁, e₁, held₁) = put_address_lem padding w₀ h held₀ in
    let (w₂, e₂, held₂) = put_software_lem padding _ w₁ h held₁ in
    let attrs =
      address_attr body w₀.state
      ++ software_attr (body - length (address_attr body w₀.state)) w₁.state in
    let header = stun_header (length attrs) (stun_txn seed) in
    let m : min (length padding) 20 ≡ 20 = omega arith in
    let t : take 20 header ≡ header =
      take-all 20 header (omega (arith, length-stun_header (length attrs) seed)) in
    let at_end =
      rw held₂.counted at
        (finish padding attrs header w₂ h held₂ (length-stun_header (length attrs) seed)) in
    (
      attrs,
      (rw (e₁, e₂, m, held₂.counted, t) at_end),
      held₂.framed,
      omega (arith, stun_body-fits (length padding) h, held₂.inside),
      omega (
        arith,
        length-append (address_attr body w₀.state)
            (software_attr (body - length (address_attr body w₀.state)) w₁.state),
        address_attr-short body w₀.state,
        software_attr-short (body - length (address_attr body w₀.state)) w₁.state,
      ),
    )

-- The first eight bytes of a Binding Success Response of RFC 8489: its type, the length of what is
-- behind the header, and the cookie.
abbrev pub success_header : ℕ → List ℕ
success_header size =
    0x01 ∷ 0x01 ∷ (size / 256 % 256) ∷ (size % 256) ∷ 0x21 ∷ 0x12 ∷ 0xA4 ∷ 0x42 ∷ []

-- A STUN padding of 20 bytes or more becomes, without a panic, a Binding Success Response with the
-- cookie and a transaction ID of 12 bytes. Its length field, whose two bytes do not overflow, counts
-- exactly the attributes behind it; they are whole attributes that end at that length, and zeros
-- follow to the end.
pub stun_padding-message :
    (padding payload : List ℕ)
    → 20 ≤ length padding
    → (attrs txn : List ℕ) × (stun_padding padding payload
        ≡ some (
            success_header (length attrs)
            ++ (txn ++ (attrs ++ replicate (length padding - (20 + length attrs)) 0))))
      × (length txn ≡ 12)
      × Tlvs attrs
      × (20 + length attrs ≤ length padding)
      × (length attrs < 2 ^ 16)
unfolding stun_header stun_txn
stun_padding-message padding payload h =
    let (attrs, e, t, fits, short) = stun_padding-attrs padding payload h in
    (attrs, stun_txn (fnv1a_seed payload), e, refl, t, fits, omega arith)

no_attrs : (w : Writer) → put_address 0 w ≡ some w
unfolding put_address
no_attrs w = ground arith

no_software : (w : Writer) → put_software 0 w ≡ some w
unfolding put_software
no_software w = ground arith

zero_tail-le : (o : ℕ) (xs : List ℕ) → length xs < o → zero_tail o xs ≡ some xs
unfolding zero_tail
zero_tail-le o xs h = ground arith

stun_body-zero : (n : ℕ) → n < 20 → stun_body n ≡ 0
unfolding stun_body
stun_body-zero n h = ground arith

-- A padding below 20 bytes holds the start of a header with no attribute.
pub stun_padding-short :
    (padding payload : List ℕ)
    → length padding < 20
    → stun_padding padding payload
      ≡ some (take (length padding) (stun_header 0 (stun_txn (fnv1a_seed payload))))
unfolding stun_padding
stun_padding-short padding payload h =
    let w : Writer = record { buf = padding; written = 0; state = start_state payload } in
    let header = stun_header 0 (stun_txn (fnv1a_seed payload)) in
    let src = take (length padding) header in
    let ls : length src ≡ length padding =
      omega
        (arith, length-take (length padding) header, length-stun_header 0 (fnv1a_seed payload)) in
    let m : min (length padding) 20 ≡ length padding = omega arith in
    let cut : src ++ drop (length src) padding ≡ src =
      rw (drop-length_le (length src) padding (omega arith)) (append-nil src) in
    let e = copy_at-append 0 src [] padding refl (omega arith) in
    rw (stun_body-zero (length padding) h, no_attrs w, no_software w, m, e, cut)
      (zero_tail-le 20 src (omega arith))

-- Both cases in one list of bytes.
pub length-short_header : (n s : ℕ) → n < 20 → length (take n (stun_header 0 (stun_txn s))) ≡ n
length-short_header n s h =
    omega (arith, length-take n (stun_header 0 (stun_txn s)), length-stun_header 0 s)

-- STUN padding rewrites exactly the padding, on every packet and padding size within it.
pub apply_stun_padding-total :
    (packet : List ℕ) (n : ℕ)
    → n ≤ length packet
    → (p : List ℕ) × (apply_stun_padding packet n ≡ some (p ++ drop n packet)) × (length p ≡ n)
unfolding apply_stun_padding
apply_stun_padding-total packet n h = elim (Bool-cases (length (take n packet) == 0)) [
  | inl z ↦ (take n packet, ground (arith, take-append-drop n packet), same)
  | inr nz ↦ elim (Bool-cases (ltb (length (take n packet)) 20)) [
    | inl s ↦
        let short = ltb→lt _ _ s in
        let e = stun_padding-short (take n packet) (drop n packet) short in
        (
          take (length (take n packet)) (stun_header 0 (stun_txn (fnv1a_seed (drop n packet)))),
          ground (arith, e),
          length-short_header _ (fnv1a_seed (drop n packet)) short ∙ same,
        )
    | inr l ↦
        let (attrs, e, t, fits, short) =
          stun_padding-attrs (take n packet) (drop n packet) (ground arith) in
        let zeros : List ℕ = replicate (length (take n packet) - (20 + length attrs)) 0 in
        let header = stun_header (length attrs) (stun_txn (fnv1a_seed (drop n packet))) in
        (
          header ++ (attrs ++ zeros),
          ground (arith, e),
          omega (
            arith,
            same,
            length-append header (attrs ++ zeros),
            length-append attrs zeros,
            length-stun_header (length attrs) (fnv1a_seed (drop n packet)),
            length-replicate {A = ℕ} (length (take n packet) - (20 + length attrs)) 0,
          ),
        )
  ]
]
  where
    same : length (take n packet) ≡ n
    same = omega (arith, length-take n packet)
