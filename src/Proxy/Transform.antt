-- ===== src/Proxy/Transform.antt =====
-- src/proxy/transform.rs: the padding of outgoing packets.
pub mod Random
pub mod Quic
pub mod Dns
pub mod Stun
pub mod Sip
pub mod Laws
mod Tests
use awg_easy_rs.Prelude.{
  ℕ, List, Option, none, some, Bool, true, false, leb, ◌==◌, ◌||◌, if◌then◌else◌, length, ◌>>=◌,
}
use awg_easy_rs.Proxy.Params.{AwgParams}
use awg_easy_rs.Proxy.Packet.{
  Protocol, quic, dns, stun, sip, AwgPacketType, padding_size, classify_awg_packet,
}
use awg_easy_rs.Proxy.Echo.{DnsEcho}
use Quic.{apply_quic_padding_short, apply_quic_padding_typed}
use Dns.{apply_dns_padding}
use Stun.{apply_stun_padding}
use Sip.{apply_sip_padding}

unfoldable pub apply_padding : List ℕ → ℕ → Protocol → Option (List ℕ)
apply_padding packet pad_size proto =
    if pad_size == 0 || leb (length packet) pad_size then some packet else elim proto [
      | quic ↦ apply_quic_padding_short packet pad_size
      | dns ↦ apply_dns_padding packet pad_size none
      | stun ↦ apply_stun_padding packet pad_size
      | sip ↦ apply_sip_padding packet pad_size
    ]

-- The `match` on the protocol.
unfoldable pub apply_typed :
    List ℕ → ℕ → AwgPacketType → Protocol → Option DnsEcho → Option (List ℕ)
unfolding apply_padding
apply_typed packet pad_size t quic echo = apply_quic_padding_typed packet pad_size t
apply_typed packet pad_size t dns echo = apply_dns_padding packet pad_size echo
apply_typed packet pad_size t proto echo = apply_padding packet pad_size proto

-- The packet afterwards, and whether it was transformed.
unfoldable pub apply_awg_transform :
    List ℕ → AwgParams → Protocol → Option DnsEcho → Option (List ℕ × Bool)
apply_awg_transform packet p proto echo = classify_awg_packet packet p >>= λ kind. elim kind [
  | none ↦ some (packet, false)
  | some t ↦
      if padding_size t p == 0 || leb (length packet) (padding_size t p)
      then some (packet, false)
      else (apply_typed packet (padding_size t p) t proto echo >>= λ out. some (out, true))
]
