-- ===== src/Proxy/Responder/Detect.antt =====
-- src/proxy/responder.rs: which protocol a datagram of a client looks like. `none` is a panic.
pub mod Laws
use awg_easy_rs.Prelude.{
  ℕ, zero, suc, ◌+◌, ◌-◌, ◌%◌, List, [], ◌∷◌, Option, none, some, Bool, true, false, ◌&&◌, ◌||◌,
  not, ◌==◌, ltb, leb, if◌then◌else◌, length, get_elem?, take, min, ◌>>=◌, bit_and, codes,
}
use awg_easy_rs.Proxy.Packet.{Protocol, quic, dns, stun, sip}
use awg_easy_rs.Proxy.Responder.Query.{u16_at, u32_at, has_stun_cookie, is_plausible_dns_query}

unfoldable pub is_quic_version : ℕ → Bool
is_quic_version version =
    version == 0x00000001
    || (version == 0x6b3343cf
        || ((bit_and version 0xffffff00 == 0xff000000 && not (bit_and version 0xff == 0))
            || bit_and version 0x0f0f0f0f == 0x0a0a0a0a))

-- The two length fields behind the version.
unfoldable pub quic_lengths : List ℕ → ℕ → Option Bool
quic_lengths packet dcid_len =
    if ltb (6 + dcid_len) (length packet)
    then (get_elem? packet (6 + dcid_len) >>= λ scid_len.
        some (leb scid_len 20 && leb (6 + dcid_len + 1 + scid_len) (length packet)))
    else some false

unfoldable pub is_quic : List ℕ → Option Bool
is_quic packet =
    if ltb (length packet) 7
    then some false
    else (get_elem? packet 0 >>= λ first.
        if not (bit_and first 0xC0 == 0xC0)
        then some false
        else (u32_at packet 1 >>= λ version. get_elem? packet 5 >>= λ dcid_len.
            if is_quic_version version && leb dcid_len 20
            then quic_lengths packet dcid_len
            else some false))

unfoldable pub is_stun : List ℕ → Bool → Option Bool
is_stun packet cookie =
    if leb 20 (length packet) && cookie
    then (u16_at packet 0 >>= λ msg_type. u16_at packet 2 >>= λ msg_len. some (
        bit_and msg_type 0xC000 == 0
        && (msg_type == 1 && (msg_len % 4 == 0 && length packet == (20 + msg_len)))))
    else some false

-- `str::from_utf8`: the continuation bytes that a leading byte asks for, with the range of the
-- first of them.
unfoldable pub utf8_lead : ℕ → Option (ℕ × ℕ × ℕ)
utf8_lead b =
    if ltb b 0x80
    then some (0, 0x80, 0xBF)
    else (if ltb b 0xC2
        then none
        else (if ltb b 0xE0
            then some (1, 0x80, 0xBF)
            else (if b == 0xE0
                then some (2, 0xA0, 0xBF)
                else (if b == 0xED
                    then some (2, 0x80, 0x9F)
                    else (if ltb b 0xF0
                        then some (2, 0x80, 0xBF)
                        else (if b == 0xF0
                            then some (3, 0x90, 0xBF)
                            else (if ltb b 0xF4
                                then some (3, 0x80, 0xBF)
                                else (if b == 0xF4 then some (3, 0x80, 0x8F) else none))))))))

unfoldable pub utf8_from : ℕ → ℕ → ℕ → List ℕ → Bool
utf8_from need low high [] = need == 0
utf8_from zero low high (b ∷ bs) = elim (utf8_lead b) [
  | none ↦ false
  | some (need, low', high') ↦ utf8_from need low' high' bs
]
utf8_from (suc need) low high (b ∷ bs) = leb low b && (leb b high && utf8_from need 0x80 0xBF bs)

unfoldable pub is_utf8 : List ℕ → Bool
unfolding utf8_from
is_utf8 text = utf8_from 0 0x80 0xBF text

unfoldable pub to_ascii_lowercase : ℕ → ℕ
to_ascii_lowercase b = if leb 0x41 b && leb b 0x5A then b + 0x20 else b

-- `text.get(..n)` with `eq_ignore_ascii_case`. In UTF-8 an ASCII prefix ends at a character.
unfoldable pub starts_with_ignore_case : List ℕ → List ℕ → Bool
starts_with_ignore_case [] text = true
starts_with_ignore_case (w ∷ word) [] = false
starts_with_ignore_case (w ∷ word) (b ∷ text) =
    to_ascii_lowercase w == to_ascii_lowercase b && starts_with_ignore_case word text

abbrev pub sip_prefixes : List (List ℕ)
sip_prefixes =
    codes "SIP/"
    ∷ codes "INVITE "
    ∷ codes "CANCEL "
    ∷ codes "NOTIFY "
    ∷ codes "OPTIONS "
    ∷ codes "REGISTER "
    ∷ codes "SUBSCRIBE "
    ∷ codes "ACK "
    ∷ codes "BYE "
    ∷ codes "INFO "
    ∷ codes "MESSAGE "
    ∷ []

unfoldable pub starts_with_any : List (List ℕ) → List ℕ → Bool
starts_with_any [] text = false
starts_with_any (word ∷ words) text =
    starts_with_ignore_case word text || starts_with_any words text

unfoldable pub is_sip : List ℕ → Bool
is_sip packet =
    let prefix = take (min (length packet) 10) packet in
    leb 4 (length packet) && (is_utf8 prefix && starts_with_any sip_prefixes prefix)

unfoldable pub detect_sip : List ℕ → Option Protocol
detect_sip packet = if is_sip packet then some sip else none

-- Behind the QUIC test.
unfoldable pub detect_others : List ℕ → Option (Option Protocol)
detect_others packet = has_stun_cookie packet >>= λ cookie. is_stun packet cookie >>= λ looks_stun.
    if looks_stun
    then some (some stun)
    else (if cookie
        then some (detect_sip packet)
        else (is_plausible_dns_query packet >>= λ looks_dns.
            if looks_dns then some (some dns) else some (detect_sip packet)))

unfoldable pub detect_protocol : List ℕ → Option (Option Protocol)
detect_protocol packet =
    if length packet == 0
    then some none
    else (is_quic packet >>= λ looks_quic.
        if looks_quic then some (some quic) else detect_others packet)
