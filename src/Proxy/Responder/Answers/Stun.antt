-- ===== src/Proxy/Responder/Answers/Stun.antt =====
-- The answer to a STUN probe tells the client its own address.
use awg_easy_rs.Prelude.{
  ℕ, suc, ◌/◌, ◌%◌, ◌^◌, ◌≤◌, ◌<◌, ◌≡◌, refl, ap, List, [], ◌∷◌, Option, none, some, ◌==◌,
  if◌then◌else◌, length, u16_from_be_bytes, u32_from_be_bytes, bit_xor, arith,
}
use awg_easy_rs.Prelude.Xor.{bit_xor-bit_xor, bit_xor_lt}
use awg_easy_rs.Proxy.Responder.Answers.{
  SocketAddr, v4, v6, xor_bytes, xor_port, mapped_value, attr_value_len,
}

-- An address as it can be: a port of 16 bits, and 32 bits or 16 octets.
abbrev pub IsAddress : SocketAddr → Type 0
IsAddress (v4 ip port) = (ip < 2 ^ 32) × (port < 2 ^ 16)
IsAddress (v6 octets port) = (length octets ≡ 16) × (port < 2 ^ 16)

-- RFC 8489: a client takes the cookie from the port and from the address, and for IPv6 the
-- transaction ID too.
abbrev pub unmask : List ℕ → List ℕ → List ℕ
unmask (m ∷ masked) (k ∷ key) = bit_xor m k ∷ unmask masked key
unmask masked key = masked

abbrev pub read_mapped : List ℕ → List ℕ → Option SocketAddr
read_mapped key (family ∷ p₀ ∷ p₁ ∷ a₀ ∷ a₁ ∷ a₂ ∷ a₃ ∷ rest) =
    let port = bit_xor (u16_from_be_bytes p₀ p₁) 0x2112 in
    if family == 1
    then some (v4 (bit_xor (u32_from_be_bytes a₀ a₁ a₂ a₃) 0x2112A442) port)
    else some (v6 (unmask (a₀ ∷ a₁ ∷ a₂ ∷ a₃ ∷ rest) key) port)
read_mapped key _ = none

unmask-xor_bytes :
    (bytes key : List ℕ) → length bytes ≤ length key → unmask (xor_bytes bytes key) key ≡ bytes
unfolding xor_bytes
unmask-xor_bytes [] key h = refl
unmask-xor_bytes (b ∷ bytes) [] h = absurd (omega arith)
unmask-xor_bytes (b ∷ bytes) (k ∷ key) h =
    rw (bit_xor-bit_xor b k, unmask-xor_bytes bytes key (omega arith)) refl

u16_back : (v : ℕ) → v < 65536 → u16_from_be_bytes (v / 256 % 256) (v % 256) ≡ v
u16_back v h = omega arith

u32_back :
    (v : ℕ)
    → v < 4294967296
    → u32_from_be_bytes (v / 16777216 % 256) (v / 65536 % 256) (v / 256 % 256) (v % 256) ≡ v
u32_back v h = omega arith

port_back :
    (port : ℕ)
    → port < 2 ^ 16
    → bit_xor (u16_from_be_bytes (xor_port port / 256 % 256) (xor_port port % 256)) 0x2112 ≡ port
unfolding xor_port
port_back port h =
    let fits = bit_xor_lt 16 port 0x2112 h (omega arith) in
    rw (u16_back (bit_xor port 0x2112) fits) (bit_xor-bit_xor port 0x2112)

read-mapped_v4 :
    (key txid : List ℕ) (ip port : ℕ)
    → IsAddress (v4 ip port)
    → read_mapped key (mapped_value txid (v4 ip port)) ≡ some (v4 ip port)
unfolding mapped_value
read-mapped_v4 key txid ip port h =
    let fits = bit_xor_lt 32 ip 0x2112A442 h.0 (omega arith) in
    rw (port_back port h.1, u32_back (bit_xor ip 0x2112A442) fits, bit_xor-bit_xor ip 0x2112A442)
      refl

abbrev pub key_of : List ℕ → List ℕ
key_of txid = 0x21 ∷ 0x12 ∷ 0xA4 ∷ 0x42 ∷ txid

read-mapped_v6 :
    (txid octets : List ℕ) (port : ℕ)
    → length txid ≡ 12
    → IsAddress (v6 octets port)
    → read_mapped (key_of txid) (mapped_value txid (v6 octets port)) ≡ some (v6 octets port)
unfolding mapped_value xor_bytes
read-mapped_v6 txid (a ∷ b ∷ c ∷ d ∷ rest) port t h =
    let back = unmask-xor_bytes (a ∷ b ∷ c ∷ d ∷ rest) (key_of txid) (omega (arith, h.0)) in
    rw (port_back port h.1, back) refl
read-mapped_v6 txid [] port t h = absurd (omega (arith, h.0))
read-mapped_v6 txid (a ∷ []) port t h = absurd (omega (arith, h.0))
read-mapped_v6 txid (a ∷ b ∷ []) port t h = absurd (omega (arith, h.0))
read-mapped_v6 txid (a ∷ b ∷ c ∷ []) port t h = absurd (omega (arith, h.0))

length-xor_bytes :
    (bytes key : List ℕ) → length bytes ≤ length key → length (xor_bytes bytes key) ≡ length bytes
unfolding xor_bytes
length-xor_bytes [] key h = refl
length-xor_bytes (b ∷ bytes) [] h = absurd (omega arith)
length-xor_bytes (b ∷ bytes) (k ∷ key) h = ap suc (length-xor_bytes bytes key (omega arith))

pub read-mapped :
    (txid : List ℕ) (addr : SocketAddr)
    → length txid ≡ 12
    → IsAddress addr
    → (read_mapped (key_of txid) (mapped_value txid addr) ≡ some addr)
      × (attr_value_len addr ≡ suc (length (mapped_value txid addr)))
unfolding mapped_value attr_value_len
read-mapped txid (v4 ip port) t h = (read-mapped_v4 (key_of txid) txid ip port h, omega arith)
read-mapped txid (v6 octets port) t h = (
  read-mapped_v6 txid octets port t h,
  omega (arith, h.0, length-xor_bytes octets (key_of txid) (omega (arith, h.0))),
)
