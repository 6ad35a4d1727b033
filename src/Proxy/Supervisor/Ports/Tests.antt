-- ===== src/Proxy/Supervisor/Ports/Tests.antt =====
-- Runs of the choice of the ports.
use awg_easy_rs.Prelude.{ℕ, ◌≡◌, refl, List, [], ◌++◌, none, some, true, false, codes}
use awg_easy_rs.Prelude.Ints.{pos, eqz, decimal_int}
use awg_easy_rs.Db.{Interface, ProxySettings}
use awg_easy_rs.Proxy.Supervisor.{
  effective_backend_port, should_remain_disabled, port_collides, is_active, effective_listen_port,
  build_proxy_config,
}
use awg_easy_rs.Proxy.Supervisor.Ports.{IsPort, effective_listen_port_fronted}

abbrev no_text : List ℕ
no_text = []

abbrev settings : ProxySettings
settings = record {
  id = no_text;
  enabled = true;
  protocol = codes "sip";
  backend_port = pos 0;
  quic_handshake = true;
  quic_cert_domain = no_text;
  dns_forward = true;
  dns_upstream = codes "9.9.9.9:53";
  additional_config = no_text;
  max_sessions = pos 0;
  session_ttl = pos 120;
  created_at = no_text;
  updated_at = no_text;
}

abbrev iface : Interface
iface = record {
  name = codes "awg0";
  device = codes "eth0";
  port = pos 65535;
  private_key = no_text;
  public_key = no_text;
  ipv4_cidr = codes "10.8.0.0/24";
  ipv6_cidr = codes "fdcc::/112";
  mtu = pos 1420;
  j_c = pos 7;
  j_min = pos 10;
  j_max = pos 1000;
  s1 = pos 128;
  s2 = pos 56;
  s3 = none;
  s4 = none;
  h1 = no_text;
  h2 = no_text;
  h3 = no_text;
  h4 = no_text;
  i1 = no_text;
  i2 = no_text;
  i3 = no_text;
  i4 = no_text;
  i5 = no_text;
  firewall_enabled = false;
  dns_lockdown = false;
  dns_lockdown_target = no_text;
  dns_block_external = false;
  additional_config = no_text;
  enabled = true;
  created_at = no_text;
  updated_at = no_text;
}

-- The last usable port has its backend below it.
last_port : effective_listen_port (some settings) iface ≡ pos 65534
unfolding effective_listen_port should_remain_disabled awg_easy_rs.Proxy.Supervisor.is_one_of
    awg_easy_rs.Prelude.Strings.same_text effective_backend_port
last_port = refl

-- A backend port that is set to the public port.
collides :
    should_remain_disabled (record settings { backend_port = pos 65535 }) iface
    ≡ some (port_collides (pos 65535))
unfolding should_remain_disabled awg_easy_rs.Proxy.Supervisor.is_one_of
    awg_easy_rs.Prelude.Strings.same_text effective_backend_port
collides = refl

effective_listen_port_fronted_example :
    (is_active (some settings) (some iface) ≡ true
      → IsPort (effective_listen_port (some settings) iface)
        × (eqz (effective_listen_port (some settings) iface) iface.port ≡ false)
        × ((build_proxy_config (codes "/etc/s") settings iface).listen
            ≡ codes "0.0.0.0:" ++ decimal_int iface.port)
        × ((build_proxy_config (codes "/etc/s") settings iface).backend
            ≡ codes "127.0.0.1:" ++ decimal_int (effective_listen_port (some settings) iface)))
    × (is_active (some settings) (some iface) ≡ false
        → effective_listen_port (some settings) iface ≡ iface.port)
effective_listen_port_fronted_example =
    effective_listen_port_fronted (codes "/etc/s") settings iface
