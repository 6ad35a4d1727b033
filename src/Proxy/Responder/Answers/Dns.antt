-- ===== src/Proxy/Responder/Answers/Dns.antt =====
-- The answer to a DNS probe repeats its question, within the size of a DNS message.
use awg_easy_rs.Prelude.{
  ℕ, ◌+◌, ◌-◌, ◌≤◌, ◌≡◌, refl, sym, ◌∙◌, List, [], ◌∷◌, ◌++◌, append_assoc, some, true, ◌==◌,
  if◌then◌else◌, ltb, leb, length, length-append, drop, slice, slice-drop, copy_at, replicate,
  bit_and, u16_to_be_bytes, u16_from_be_bytes, arith,
}
use awg_easy_rs.Proxy.Responder.Qname.Laws.{encode}
use awg_easy_rs.Proxy.Responder.Query.Laws.{
  Query, print, IsStandard, query_name, query_length, name_at,
}
use awg_easy_rs.Proxy.Responder.Answers.{
  servfail_flags, servfail_header, echo_question_at, put_question, generate_dns_servfail,
  max_response,
}

-- The flags of the answer: a response, recursion available, SERVFAIL, and RD as it was asked.
abbrev pub servfail_for : ℕ → List ℕ
servfail_for flags = u16_to_be_bytes (if bit_and flags 0x0100 == 0 then 0x8082 else 0x8182)

abbrev pub question : Query → List ℕ
question q = encode q.labels ++ (q.type₀ ∷ q.type₁ ∷ q.class₀ ∷ q.class₁ ∷ [])

flags-print :
    (q : Query)
    → IsStandard q
    → servfail_flags (print q)
      ≡ some (if bit_and (u16_from_be_bytes q.flags₀ q.flags₁) 0x0100 == 0 then 0x8082 else 0x8182)
unfolding servfail_flags
flags-print q h = ground (arith, query_length q h)

header-print :
    (q : Query)
    → IsStandard q
    → servfail_header (print q)
      ≡ some (q.id₀ ∷ q.id₁ ∷ (servfail_for (u16_from_be_bytes q.flags₀ q.flags₁) ++ replicate 8 0))
unfolding servfail_header
header-print q h =
    let id =
      slice-drop 0 2 (print q) (q.id₀ ∷ q.id₁ ∷ []) (drop 2 (print q)) refl refl
        (omega (arith, query_length q h)) in
    let room : leb 2 (length (print q)) ≡ true = ground (arith, query_length q h) in
    rw (room, id, flags-print q h) refl

length-question : (q : Query) → length (question q) ≡ length (encode q.labels) + 4
length-question q =
    omega (arith, length-append (encode q.labels) (q.type₀ ∷ q.type₁ ∷ q.class₀ ∷ q.class₁ ∷ []))

question-print :
    (q : Query)
    → IsStandard q
    → slice 12 (12 + length (encode q.labels) + 4) (print q) ≡ some (question q)
question-print q h =
    let tail = q.type₀ ∷ q.type₁ ∷ q.class₀ ∷ q.class₁ ∷ [] in
    slice-drop 12 (12 + length (encode q.labels) + 4) (print q) (question q) q.rest
      (name_at q h ∙ sym (append_assoc (encode q.labels) tail q.rest))
      (omega (arith, length-question q)) (query_length q h)

-- The question is put behind a header of 12 bytes, and the count at 4 becomes 1.
put_question-print :
    (q : Query) (a b c d e f g i j k l m : ℕ)
    → IsStandard q
    → put_question (print q) (a ∷ b ∷ c ∷ d ∷ e ∷ f ∷ g ∷ i ∷ j ∷ k ∷ l ∷ m ∷ [])
      ≡ some (a ∷ b ∷ c ∷ d ∷ 0 ∷ 1 ∷ g ∷ i ∷ j ∷ k ∷ l ∷ m ∷ question q)
unfolding put_question echo_question_at copy_at
put_question-print q a b c d e f g i j k l m h =
    let end = 12 + length (encode q.labels) in
    let long : ltb 12 (length (print q)) ≡ true = ground (arith, query_length q h) in
    let held : leb (end + 4) (length (print q)) ≡ true = ground (arith, query_length q h) in
    let fits : leb (12 + (end + 4 - 12)) max_response ≡ true = ground (arith, h.short) in
    rw (long, put_question, query_name q h, held, fits, question-print q h) (ground arith)

-- A standard query is answered, without a panic and whatever stands behind its question, by its
-- own ID, the SERVFAIL flags, the counts of one question alone, and its own question; that is
-- 271 bytes at most.
pub generate_dns_servfail-print :
    (q : Query)
    → IsStandard q
    → (generate_dns_servfail (print q)
        ≡ some (
            q.id₀
            ∷ q.id₁
            ∷ (servfail_for (u16_from_be_bytes q.flags₀ q.flags₁)
                ++ (0 ∷ 1 ∷ 0 ∷ 0 ∷ 0 ∷ 0 ∷ 0 ∷ 0 ∷ question q))))
      × (12 + length (question q) ≤ 271)
unfolding generate_dns_servfail
generate_dns_servfail-print q h = (
  rw (header-print q h) (put_question-print q q.id₀ q.id₁ _ _ 0 0 0 0 0 0 0 0 h),
  omega (arith, length-question q, h.short),
)
