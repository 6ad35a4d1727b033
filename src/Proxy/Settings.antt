-- ===== src/Proxy/Settings.antt =====
-- src/proxy/config.rs: the proxy's own configuration and its defaults.
use awg_easy_rs.Prelude.{ℕ, List, Option, none, Bool, true, false, codes}

-- What the TOML file holds; the limits and the times are not negative.
pub record ProxyConfig : Type 0 where
  pub listen : List ℕ
  pub backend : List ℕ
  pub session_ttl_secs : ℕ
  pub cleanup_interval_secs : ℕ
  pub rate_limit_per_sec : ℕ
  pub imitate_protocol : List ℕ
  pub quic_handshake_enabled : Bool
  pub quic_certificate_domain : List ℕ
  pub dns_forward_enabled : Bool
  pub dns_upstream : List ℕ
  pub dns_upstream_timeout_ms : ℕ
  pub buffer_size : ℕ
  pub relay_buffer_size : ℕ
  pub socket_buffer_bytes : ℕ
  pub max_sessions : ℕ
  pub status_file : List ℕ
  pub status_interval_secs : ℕ
  pub awg_config : Option (List ℕ)

abbrev pub default_config : ProxyConfig
default_config = record {
  listen = codes "0.0.0.0:51820";
  backend = codes "127.0.0.1:51821";
  session_ttl_secs = 300;
  cleanup_interval_secs = 60;
  rate_limit_per_sec = 16;
  imitate_protocol = codes "quic";
  quic_handshake_enabled = true;
  quic_certificate_domain = codes "localhost";
  dns_forward_enabled = false;
  dns_upstream = codes "1.1.1.1:53";
  dns_upstream_timeout_ms = 1500;
  buffer_size = 65535;
  relay_buffer_size = 8192;
  socket_buffer_bytes = 4194304;
  max_sessions = 10000;
  status_file = codes "/var/lib/amneziawg-proxy/sessions.json";
  status_interval_secs = 5;
  awg_config = none;
}
