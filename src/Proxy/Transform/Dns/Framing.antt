-- ===== src/Proxy/Transform/Dns/Framing.antt =====
-- The lengths in the OPT record of a DNS padding.
use awg_easy_rs.Prelude.{
  ℕ, ◌+◌, ◌-◌, ◌≤◌, ◌<◌, ◌≡◌, ◌⊎◌, inl, inr, refl, sym, ap, ◌∙◌, min, List, [], ◌∷◌, ◌++◌, Option,
  none, some, true, false, Bool-cases, length, take, take-append, drop, get_or, replicate, arith,
  get_or-append_right, append_assoc, length-append, length-drop, u16_from_be_bytes,
}
use mathlib.Core.Path.{ap₂, subst}
use awg_easy_rs.Proxy.Echo.{DnsEcho}
use awg_easy_rs.Proxy.Transform.Dns.{
  opt_header, opt_record, echo_fits, dns_cover_code, dns_question, apply_dns_padding,
}
use awg_easy_rs.Proxy.Transform.Dns.Laws.{
  chosen, opt_prefix, length-opt_prefix, dns_question-room, apply_dns_padding-opt,
}

-- The big-endian word at a position.
abbrev pub word_at : List ℕ → ℕ → ℕ
word_at xs i = u16_from_be_bytes (get_or xs i 0) (get_or xs (i + 1) 0)

-- A DNS response with an ID, the bytes of one question, and one OPT record behind it that ends where
-- the datagram ends: the record's RDLENGTH and the length of its only option reach the last byte.
pub record IsWhole (out : List ℕ) (id : ℕ × ℕ) (question : List ℕ) : Type 0 where
  pub start :
      take (12 + length question) out
      ≡ id.0 ∷ id.1 ∷ 0x81 ∷ 0x80 ∷ 0 ∷ 1 ∷ 0 ∷ 0 ∷ 0 ∷ 0 ∷ 0 ∷ 1 ∷ question
  pub root : get_or out (12 + length question) 1 ≡ 0
  pub questions : word_at out 4 ≡ 1
  pub answers : word_at out 6 ≡ 0
  pub authorities : word_at out 8 ≡ 0
  pub additional : word_at out 10 ≡ 1
  pub kind : word_at out (12 + length question + 1) ≡ 41
  pub rdlength : 12 + length question + 11 + word_at out (12 + length question + 9) ≡ length out
  pub option_length :
      12 + length question + 15 + word_at out (12 + length question + 13) ≡ length out
  pub local_use :
      (65001 ≤ word_at out (12 + length question + 11))
      × (word_at out (12 + length question + 11) ≤ 65534)

-- The question is the client's own with the ID of its query, where there is one and it fits a padding
-- of n bytes; else it is the root's A record with the ID of the payload's first two bytes.
abbrev pub Asks : Option DnsEcho → ℕ → List ℕ → ℕ × ℕ → List ℕ → Type 0
Asks echo n payload id question =
    ((e : DnsEcho) × (echo ≡ some e)
      × (length e.qname ≤ 255)
      × (length e.qname + 31 ≤ n)
      × (id ≡ e.txid)
      × (question ≡ e.qname ++ (e.qtype.0 ∷ e.qtype.1 ∷ 0 ∷ 1 ∷ [])))
    ⊎ (((e : DnsEcho) → echo ≡ some e → (255 < length e.qname) ⊎ (n < length e.qname + 31))
        × (id ≡ (get_or payload 0 0, get_or payload 1 0))
        × (question ≡ 0 ∷ 0 ∷ 1 ∷ 0 ∷ 1 ∷ []))

dns_question-Asks :
    (echo : Option DnsEcho) (n : ℕ) (payload : List ℕ)
    → Asks echo n payload (dns_question echo n payload).1 (dns_question echo n payload).0
unfolding dns_question
dns_question-Asks none n payload = inr ((λ e h. absurd (none_some e h)), refl, refl)
  where
    none_some : (e : DnsEcho) → ◌≡◌ {A = Option DnsEcho} none (some e) → ⊥
    none_some e h = cc
dns_question-Asks (some e) n payload = elim (Bool-cases (echo_fits e n)) [
  | inl y ↦ rw (y, dns_question) (inl (e, refl, fits_name y, fits_room y, refl, refl))
  | inr m ↦
      rw (m, dns_question)
        (inr (
          (λ e' h.
              subst (λ d. (255 < length d.qname) ⊎ (n < length d.qname + 31)) (same e' h)
                (too_long m)),
          refl,
          refl,
        ))
]
  where
    fits_name : echo_fits e n ≡ true → length e.qname ≤ 255
    fits_name y = ground arith

    fits_room : echo_fits e n ≡ true → length e.qname + 31 ≤ n
    fits_room y = ground arith

    too_long : echo_fits e n ≡ false → (255 < length e.qname) ⊎ (n < length e.qname + 31)
    too_long m = ground arith

    same : (e' : DnsEcho) → some e ≡ some e' → e ≡ e'
    same e' h = cc

dns_cover_code-range :
    (txid : ℕ × ℕ) → (65001 ≤ dns_cover_code txid) × (dns_cover_code txid ≤ 65534)
unfolding dns_cover_code
dns_cover_code-range (hi, lo) = omega arith

-- Reading behind the header and the question.
skip_two :
    (a b c : List ℕ) (i k : ℕ)
    → i ≡ length a + length b + k
    → get_or (a ++ (b ++ c)) i 0 ≡ get_or c k 0
skip_two a b c i k h =
    get_or-append_right a (b ++ c) i (length b + k) 0 (omega arith)
    ∙ get_or-append_right b c (length b + k) k 0 refl

message-IsWhole :
    (txid : ℕ × ℕ) (q tail : List ℕ) (total : ℕ)
    → 12 + length q + 15 ≤ total
    → total ≤ 65535
    → let r =
        opt_record txid
          (min (total - (12 + length q + 11)) 65535)
          (min (total - (12 + length q + 11 + 4)) 65535) in
      length (opt_header txid ++ (q ++ (r ++ tail))) ≡ total
      → IsWhole (opt_header txid ++ (q ++ (r ++ tail))) txid q
message-IsWhole (hi, lo) q tail total room small whole =
    let rd = min (total - (12 + length q + 11)) 65535 in
    let ol = min (total - (12 + length q + 11 + 4)) 65535 in
    let h = opt_header (hi, lo) in
    let r = opt_record (hi, lo) rd ol in
    let word = λ (k : ℕ).
      ap₂ u16_from_be_bytes (skip_two h q (r ++ tail) (12 + length q + k) k refl)
        (skip_two h q (r ++ tail) (12 + length q + k + 1) (k + 1) (omega arith)) in
    record {
      start =
          rw (← append_assoc h q (r ++ tail))
            (take-append (12 + length q) (h ++ q) (r ++ tail) (omega (arith, length-append h q)));
      root =
          get_or-append_right h (q ++ (r ++ tail)) (12 + length q) (length q) 1 refl
          ∙ get_or-append_right q (r ++ tail) (length q) 0 1 (omega arith);
      questions = refl;
      answers = refl;
      authorities = refl;
      additional = refl;
      kind = word 1;
      rdlength = omega (arith, whole, word 9);
      option_length = omega (arith, whole, word 13);
      local_use = omega (arith, word 11, dns_cover_code-range (hi, lo));
    }

-- A DNS padding of 32 bytes or more makes the whole datagram, up to the largest UDP length, one
-- DNS response: its header, the client's own question under the ID of its query where that fits and
-- else the root's, no answer, and one OPT record of the root name whose length and whose option's
-- length reach exactly the last byte, under an option code for local use.
pub apply_dns_padding-IsWhole :
    (packet : List ℕ) (n : ℕ) (echo : Option DnsEcho)
    → 32 ≤ n
    → n ≤ length packet
    → length packet ≤ 65535
    → (out : List ℕ) × (id : ℕ × ℕ) × (question : List ℕ) × (apply_dns_padding packet n echo
        ≡ some out)
      × Asks echo n (drop n packet) id question
      × IsWhole out id question
apply_dns_padding-IsWhole packet n echo h k small =
    let q = chosen packet n echo in
    let room = dns_question-room echo n (drop n packet) h in
    let rest = replicate (n - (12 + length q.0 + 15)) 0 ++ drop n packet in
    let r =
      opt_record q.1 (min (length packet - (12 + length q.0 + 11)) 65535)
        (min (length packet - (12 + length q.0 + 11 + 4)) 65535) in
    let out = opt_header q.1 ++ (q.0 ++ (r ++ rest)) in
    let flat : opt_prefix n (length packet) q.1 q.0 ++ drop n packet ≡ out = simp append_assoc in
    let size : length out ≡ length packet =
      ap length (sym flat)
      ∙ omega (
        arith,
        length-append (opt_prefix n (length packet) q.1 q.0) (drop n packet),
        length-opt_prefix n (length packet) q.1 q.0 (omega (arith, room)),
        length-drop n packet,
      ) in
    (
      out,
      q.1,
      q.0,
      rw (apply_dns_padding-opt packet n echo h k, flat),
      dns_question-Asks echo n (drop n packet),
      message-IsWhole q.1 q.0 rest (length packet) (omega (arith, room)) small size,
    )
