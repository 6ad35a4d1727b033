-- ===== src/Proxy/Responder/Query/Laws.antt =====
-- The echo of a DNS query is its ID, its name and its type, and no datagram makes the parser panic.
use awg_easy_rs.Prelude.{
  ℕ, ◌+◌, ◌≤◌, ◌≡◌, ◌≢◌, refl, ◌∙◌, List, ◌∷◌, ◌++◌, some, length, length-append, get_elem?,
  get_elem?-drop, drop, drop-append_add, slice, slice-drop, All, bit_and, u16_from_be_bytes,
  u32_from_be_bytes, arith,
}
use awg_easy_rs.Proxy.Responder.Qname.{dns_qname_end}
use awg_easy_rs.Proxy.Responder.Qname.Laws.{encode, IsLabel, dns_qname_end-encode}
use awg_easy_rs.Proxy.Responder.Query.{
  stun_magic_cookie, has_stun_cookie, capture, echo_class, echo_of_question, parse_dns_query_echo,
}

-- What a client sends: the ID, the flags, the four counts, the question, and what is behind it.
pub record Query : Type 0 where
  pub id₀ : ℕ
  pub id₁ : ℕ
  pub flags₀ : ℕ
  pub flags₁ : ℕ
  pub qdcount₀ : ℕ
  pub qdcount₁ : ℕ
  pub answers₀ : ℕ
  pub answers₁ : ℕ
  pub others : List ℕ
  pub labels : List (List ℕ)
  pub type₀ : ℕ
  pub type₁ : ℕ
  pub class₀ : ℕ
  pub class₁ : ℕ
  pub rest : List ℕ

abbrev pub qheader : Query → List ℕ
qheader q =
    q.id₀ ∷ q.id₁ ∷ q.flags₀ ∷ q.flags₁ ∷ q.qdcount₀ ∷ q.qdcount₁ ∷ q.answers₀ ∷ q.answers₁
    ∷ q.others

abbrev pub qtail : Query → List ℕ
qtail q = q.type₀ ∷ q.type₁ ∷ q.class₀ ∷ q.class₁ ∷ q.rest

abbrev pub print : Query → List ℕ
print q = qheader q ++ (encode q.labels ++ qtail q)

-- A standard query whose name keeps the limits.
pub record IsStandard (q : Query) : Type 0 where
  pub counts : length q.others ≡ 4
  pub standard : bit_and (u16_from_be_bytes q.flags₀ q.flags₁) 0xF800 ≡ 0
  pub sized : All IsLabel q.labels
  pub short : length (encode q.labels) ≤ 255

pub name_at : (q : Query) → IsStandard q → drop 12 (print q) ≡ encode q.labels ++ qtail q
name_at q h =
    drop-append_add 12 0 (qheader q) (encode q.labels ++ qtail q) (omega (arith, h.counts))

pub query_name :
    (q : Query) → IsStandard q → dns_qname_end (print q) 12 ≡ some (12 + length (encode q.labels))
query_name q h = dns_qname_end-encode (print q) 12 q.labels (qtail q) h.sized h.short (name_at q h)

pub tail_at :
    (q : Query) (i k x : ℕ) (ys : List ℕ)
    → IsStandard q
    → drop k (qtail q) ≡ x ∷ ys
    → i ≡ 12 + length (encode q.labels) + k
    → get_elem? (print q) i ≡ some x
tail_at q i k x ys h e at_k =
    let n = length (encode q.labels) in
    get_elem?-drop (print q) i x ys (
      drop-append_add i (n + k) (qheader q) (encode q.labels ++ qtail q)
        (omega (arith, h.counts, at_k))
      ∙ drop-append_add (n + k) k (encode q.labels) (qtail q) refl
      ∙ e)

pub query_length : (q : Query) → IsStandard q → 12 + length (encode q.labels) + 4 ≤ length (print q)
query_length q h = omega (
  arith,
  h.counts,
  length-append (qheader q) (encode q.labels ++ qtail q),
  length-append (encode q.labels) (qtail q),
)

query_slice :
    (q : Query)
    → IsStandard q
    → slice 12 (12 + length (encode q.labels)) (print q) ≡ some (encode q.labels)
query_slice q h =
    let n = length (encode q.labels) in
    slice-drop 12 (12 + n) (print q) (encode q.labels) (qtail q) (name_at q h) refl
      (omega (arith, query_length q h))

query_capture :
    (q : Query)
    → IsStandard q
    → capture (print q) (12 + length (encode q.labels))
      ≡ some (
          some
            (record { txid = (q.id₀, q.id₁); qname = encode q.labels; qtype = (q.type₀, q.type₁) }))
unfolding capture
query_capture q h =
    let end = 12 + length (encode q.labels) in
    rw
      (
        query_slice q h,
        tail_at q end 0 q.type₀ _ h refl (omega arith),
        tail_at q (end + 1) 1 q.type₁ _ h refl (omega arith),
      )
      refl

query_class :
    (q : Query)
    → IsStandard q
    → q.class₀ ≡ 0
    → q.class₁ ≡ 1
    → echo_class (print q) (12 + length (encode q.labels))
      ≡ capture (print q) (12 + length (encode q.labels))
unfolding echo_class
query_class q h in₀ in₁ =
    let end = 12 + length (encode q.labels) in
    ground (
      arith,
      query_length q h,
      tail_at q (end + 2) 2 q.class₀ _ h refl (omega arith),
      tail_at q (end + 3) 3 q.class₁ _ h refl (omega arith),
    )

-- The parser reads the ID, the name and the type of every standard query of class IN that has a
-- question and does not hold the STUN cookie where the counts stand.
pub parse_dns_query_echo-print :
    (q : Query)
    → IsStandard q
    → 1 ≤ u16_from_be_bytes q.qdcount₀ q.qdcount₁
    → q.class₀ ≡ 0
    → q.class₁ ≡ 1
    → u32_from_be_bytes q.qdcount₀ q.qdcount₁ q.answers₀ q.answers₁ ≢ stun_magic_cookie
    → parse_dns_query_echo (print q)
      ≡ some (
          some
            (record { txid = (q.id₀, q.id₁); qname = encode q.labels; qtype = (q.type₀, q.type₁) }))
unfolding parse_dns_query_echo has_stun_cookie echo_of_question
parse_dns_query_echo-print q h one in₀ in₁ cookie =
    let question : echo_of_question (print q)
        ≡ some (
            some (record {
              txid = (q.id₀, q.id₁);
              qname = encode q.labels;
              qtype = (q.type₀, q.type₁);
            })) =
      rw (echo_of_question, query_name q h) (query_class q h in₀ in₁ ∙ query_capture q h) in
    ground (arith, question, query_length q h, h.standard)
