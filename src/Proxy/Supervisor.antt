-- ===== src/Proxy/Supervisor.antt =====
-- src/proxy/supervisor.rs: what the supervisor makes of the settings.
mod Tests
pub mod Text
pub mod Params
pub mod Headers
pub mod Ports
pub mod Machine
use awg_easy_rs.Prelude.{
  ℕ, List, [], ◌∷◌, ◌++◌, Option, none, some, Bool, true, false, ◌&&◌, ◌||◌, not, if◌then◌else◌,
  codes, decimal, ◌^◌,
}
use awg_easy_rs.Prelude.Ints.{ℤ, pos, negsuc, ltz, lez, eqz, ◌+ℤ◌, decimal_int}
use awg_easy_rs.Prelude.Results.{Result, ok, err}
use awg_easy_rs.Prelude.Numerals.{parse_u32, from_str_radix, u32_bound}
use awg_easy_rs.Prelude.Strings.{same_text, split_once, strip_prefix}
use awg_easy_rs.Db.{Interface, ProxySettings}
use awg_easy_rs.Proxy.Params.{AwgParams}
use awg_easy_rs.Proxy.Settings.{ProxyConfig, default_config}
use awg_easy_rs.Proxy.Config.{ConfigError, parse_awg_config}
use awg_easy_rs.Proxy.Responder.Sip.Lines.{is_empty, trim}

unfoldable pub effective_backend_port : ProxySettings → ℤ → ℤ
effective_backend_port settings iface_port =
    if not (eqz settings.backend_port (pos 0))
    then settings.backend_port
    else (if ltz iface_port (pos 65535) then iface_port +ℤ pos 1 else iface_port +ℤ negsuc 0)

-- The reasons, with what their messages name.
pub data DisabledReason : Type 0 where
  proxy_disabled interface_disabled : DisabledReason
  unsupported_protocol : List ℕ → DisabledReason
  no_certificate_domain : DisabledReason
  port_collides port_out_of_range : ℤ → DisabledReason

unfoldable pub is_one_of : List (List ℕ) → List ℕ → Bool
is_one_of [] text = false
is_one_of (word ∷ words) text = same_text word text || is_one_of words text

abbrev pub valid_protocols : List (List ℕ)
valid_protocols = codes "quic" ∷ codes "dns" ∷ codes "stun" ∷ codes "sip" ∷ codes "auto" ∷ []

unfoldable pub should_remain_disabled : ProxySettings → Interface → Option DisabledReason
should_remain_disabled settings iface =
    let backend = effective_backend_port settings iface.port in
    if not settings.enabled
    then some proxy_disabled
    else (if not iface.enabled
        then some interface_disabled
        else (if not (is_one_of valid_protocols settings.protocol)
            then some (unsupported_protocol settings.protocol)
            else (if settings.quic_handshake
                  && (is_one_of (codes "quic" ∷ codes "auto" ∷ []) settings.protocol
                      && is_empty (trim settings.quic_cert_domain))
                then some no_certificate_domain
                else (if eqz backend iface.port
                    then some (port_collides backend)
                    else (if not (lez (pos 1) backend && lez backend (pos 65535))
                        then some (port_out_of_range backend)
                        else none)))))

-- `is_active` and `effective_listen_port`; the settings and the interface are what the database
-- returns, where it returns them.
unfoldable pub is_active : Option ProxySettings → Option Interface → Bool
is_active (some s) (some i) =
    s.enabled && elim (should_remain_disabled s i) [ none ↦ true | some reason ↦ false ]
is_active (some s) none = false
is_active none i = false

unfoldable pub effective_listen_port : Option ProxySettings → Interface → ℤ
effective_listen_port none iface = iface.port
effective_listen_port (some s) iface =
    if s.enabled && elim (should_remain_disabled s iface) [ none ↦ true | some reason ↦ false ]
    then effective_backend_port s iface.port
    else iface.port

-- `clamp`
unfoldable pub clamp : ℤ → ℕ → ℕ → ℕ
clamp (negsuc v) least most = least
clamp (pos v) least most =
    if ltz (pos v) (pos least) then least else (if ltz (pos most) (pos v) then most else v)

unfoldable pub hex_prefix : List ℕ → Option (List ℕ)
hex_prefix tok = elim (strip_prefix (codes "0x") tok) [
  | some hex ↦ some hex
  | none ↦ strip_prefix (codes "0X") tok
]

unfoldable pub token_value : List ℕ → Option (List ℕ) → Option ℕ
token_value tok (some hex) = from_str_radix 16 u32_bound hex
token_value tok none = parse_u32 tok

unfoldable pub parse_h_token : List ℕ → Option ℕ
parse_h_token tok = token_value (trim tok) (hex_prefix (trim tok))

abbrev pub printed_range : ℕ → ℕ → List ℕ
printed_range a b = decimal a ++ (0x2D ∷ decimal b)

unfoldable pub norm_range : List ℕ → Option ℕ → Option ℕ → List ℕ
norm_range h (some a) (some b) = printed_range a b
norm_range h (some a) none = h
norm_range h none b = h

unfoldable pub norm_number : List ℕ → Option ℕ → List ℕ
norm_number h (some v) = decimal v
norm_number h none = h

unfoldable pub norm_split : List ℕ → Option (List ℕ × List ℕ) → List ℕ
norm_split h (some (low, high)) = norm_range h (parse_h_token low) (parse_h_token high)
norm_split h none = norm_number h (parse_h_token h)

-- Behind the trim.
unfoldable pub norm_trimmed : List ℕ → List ℕ
norm_trimmed [] = codes "0"
norm_trimmed (b ∷ h) = norm_split (b ∷ h) (split_once 0x2D (b ∷ h))

unfoldable pub norm_h : List ℕ → List ℕ
norm_h h = norm_trimmed (trim h)

-- `unwrap_or(0)`
abbrev pub or_zero : Option ℤ → ℤ
or_zero none = pos 0
or_zero (some v) = v

-- Lines of the text: the keys with their equals signs, and the values.
unfoldable pub entry_lines : List (List ℕ × List ℕ) → List ℕ
entry_lines [] = []
entry_lines ((key, value) ∷ entries) = (key ++ value) ++ (0x0A ∷ entry_lines entries)

unfoldable pub awg_entries : Interface → List (List ℕ × List ℕ)
awg_entries iface =
    (codes "Jc=", decimal_int iface.j_c)
    ∷ (codes "Jmin=", decimal_int iface.j_min)
    ∷ (codes "Jmax=", decimal_int iface.j_max)
    ∷ (codes "S1=", decimal_int iface.s1)
    ∷ (codes "S2=", decimal_int iface.s2)
    ∷ (codes "S3=", decimal_int (or_zero iface.s3))
    ∷ (codes "S4=", decimal_int (or_zero iface.s4))
    ∷ (codes "H1=", norm_h iface.h1)
    ∷ (codes "H2=", norm_h iface.h2)
    ∷ (codes "H3=", norm_h iface.h3)
    ∷ (codes "H4=", norm_h iface.h4)
    ∷ []

unfoldable pub awg_text : Interface → List ℕ
awg_text iface = codes "[Interface]" ++ (0x0A ∷ entry_lines (awg_entries iface))

unfoldable pub accepted : Result ConfigError AwgParams → Option AwgParams
accepted (ok p) = some p
accepted (err e) = none

unfoldable pub build_awg_params : Interface → Option AwgParams
build_awg_params iface = accepted (parse_awg_config (awg_text iface))

-- The argument is the status file's path, made from an environment variable.
unfoldable pub build_proxy_config : List ℕ → ProxySettings → Interface → ProxyConfig
build_proxy_config status_file settings iface =
    let backend_port = effective_backend_port settings iface.port in
    record default_config {
      listen = codes "0.0.0.0:" ++ decimal_int iface.port;
      backend = codes "127.0.0.1:" ++ decimal_int backend_port;
      imitate_protocol = settings.protocol;
      quic_handshake_enabled = settings.quic_handshake;
      quic_certificate_domain =
          if is_empty (trim settings.quic_cert_domain)
          then codes "www.cloudflare.com"
          else settings.quic_cert_domain;
      dns_forward_enabled =
          settings.dns_forward && is_one_of (codes "dns" ∷ codes "auto" ∷ []) settings.protocol;
      dns_upstream = settings.dns_upstream;
      status_file = status_file;
      max_sessions = clamp settings.max_sessions 16 65536;
      session_ttl_secs = clamp settings.session_ttl 15 3600;
    }

unfoldable pub build_config : List ℕ → ProxySettings → Interface → ProxyConfig × Option AwgParams
build_config status_file settings iface =
    (build_proxy_config status_file settings iface, build_awg_params iface)
