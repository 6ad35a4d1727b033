-- ===== src/Proxy/Responder/Query.antt =====
-- src/proxy/responder.rs: what the responder reads of a DNS query. The outer `none` is a panic.
pub mod Laws
use awg_easy_rs.Prelude.{
  ℕ, ◌+◌, List, [], ◌∷◌, Option, none, some, Bool, true, false, ◌||◌, not, ◌==◌, ltb, leb,
  if◌then◌else◌, length, get_elem?, slice, ◌>>=◌, bit_and, u16_from_be_bytes, u32_from_be_bytes,
}
use awg_easy_rs.Proxy.Echo.{DnsEcho}
use awg_easy_rs.Proxy.Responder.Qname.{dns_qname_end}

abbrev pub stun_magic_cookie : ℕ
stun_magic_cookie = 0x2112A442

-- `u16::from_be_bytes` and `u32::from_be_bytes` of the bytes from an index on.
abbrev pub u16_at : List ℕ → ℕ → Option ℕ
u16_at packet i = do
  a ← get_elem? packet i
  b ← get_elem? packet (i + 1)
  some (u16_from_be_bytes a b)

abbrev pub u32_at : List ℕ → ℕ → Option ℕ
u32_at packet i = do
  a ← get_elem? packet i
  b ← get_elem? packet (i + 1)
  c ← get_elem? packet (i + 2)
  d ← get_elem? packet (i + 3)
  some (u32_from_be_bytes a b c d)

unfoldable pub has_stun_cookie : List ℕ → Option Bool
has_stun_cookie packet =
    if leb 8 (length packet)
    then (u32_at packet 4 >>= λ word. some (word == stun_magic_cookie))
    else some false

-- The last test: a class that a client emits.
unfoldable pub plausible_class : List ℕ → ℕ → Option Bool
plausible_class packet qname_end =
    if ltb (length packet) (qname_end + 4)
    then some false
    else (u16_at packet (qname_end + 2) >>= λ qclass.
        some (qclass == 1 || (qclass == 3 || (qclass == 4 || qclass == 255))))

unfoldable pub plausible_question : List ℕ → Option Bool
plausible_question packet = elim (dns_qname_end packet 12) [
  | none ↦ some false
  | some qname_end ↦ plausible_class packet qname_end
]

unfoldable pub is_plausible_dns_query : List ℕ → Option Bool
is_plausible_dns_query packet =
    if ltb (length packet) 12
    then some false
    else (u16_at packet 2 >>= λ flags. u16_at packet 4 >>= λ qdcount.
        if not (bit_and flags 0xF800 == 0) || not (qdcount == 1)
        then some false
        else plausible_question packet)

unfoldable pub capture : List ℕ → ℕ → Option (Option DnsEcho)
capture packet qname_end = do
  id₀ ← get_elem? packet 0
  id₁ ← get_elem? packet 1
  qname ← slice 12 qname_end packet
  type₀ ← get_elem? packet qname_end
  type₁ ← get_elem? packet (qname_end + 1)
  some (some (record { txid = (id₀, id₁); qname = qname; qtype = (type₀, type₁) }))

unfoldable pub echo_class : List ℕ → ℕ → Option (Option DnsEcho)
echo_class packet qname_end =
    if ltb (length packet) (qname_end + 4)
    then some none
    else (get_elem? packet (qname_end + 2) >>= λ class₀.
        get_elem? packet (qname_end + 3) >>= λ class₁.
        if not (class₀ == 0) || not (class₁ == 1) then some none else capture packet qname_end)

unfoldable pub echo_of_question : List ℕ → Option (Option DnsEcho)
echo_of_question packet = elim (dns_qname_end packet 12) [
  | none ↦ some none
  | some qname_end ↦ echo_class packet qname_end
]

unfoldable pub parse_dns_query_echo : List ℕ → Option (Option DnsEcho)
parse_dns_query_echo packet =
    if ltb (length packet) 12
    then some none
    else (has_stun_cookie packet >>= λ cookie.
        if cookie
        then some none
        else (u16_at packet 2 >>= λ flags. u16_at packet 4 >>= λ qdcount.
            if not (bit_and flags 0xF800 == 0) || ltb qdcount 1
            then some none
            else echo_of_question packet))
