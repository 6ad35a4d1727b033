-- ===== src/Db.antt =====
-- src/db.rs: the rows that the other parts read. A text is the bytes of its UTF-8.
pub mod Addresses
use awg_easy_rs.Prelude.{ℕ, List, Option, Bool}
use awg_easy_rs.Prelude.Ints.{ℤ}

pub record Interface : Type 0 where
  pub name : List ℕ
  pub device : List ℕ
  pub port : ℤ
  pub private_key : List ℕ
  pub public_key : List ℕ
  pub ipv4_cidr : List ℕ
  pub ipv6_cidr : List ℕ
  pub mtu : ℤ
  pub j_c : ℤ
  pub j_min : ℤ
  pub j_max : ℤ
  pub s1 : ℤ
  pub s2 : ℤ
  pub s3 : Option ℤ
  pub s4 : Option ℤ
  pub h1 : List ℕ
  pub h2 : List ℕ
  pub h3 : List ℕ
  pub h4 : List ℕ
  pub i1 : List ℕ
  pub i2 : List ℕ
  pub i3 : List ℕ
  pub i4 : List ℕ
  pub i5 : List ℕ
  pub firewall_enabled : Bool
  pub dns_lockdown : Bool
  pub dns_lockdown_target : List ℕ
  pub dns_block_external : Bool
  pub additional_config : List ℕ
  pub enabled : Bool
  pub created_at : List ℕ
  pub updated_at : List ℕ

pub record Client : Type 0 where
  pub id : ℤ
  pub user_id : Option ℤ
  pub interface_id : Option (List ℕ)
  pub name : List ℕ
  pub ipv4_address : Option (List ℕ)
  pub ipv6_address : Option (List ℕ)
  pub private_key : List ℕ
  pub public_key : List ℕ
  pub pre_shared_key : Option (List ℕ)
  pub pre_up : Option (List ℕ)
  pub post_up : Option (List ℕ)
  pub pre_down : Option (List ℕ)
  pub post_down : Option (List ℕ)
  pub expires_at : Option (List ℕ)
  pub allowed_ips : Option (List ℕ)
  pub server_allowed_ips : Option (List ℕ)
  pub firewall_ips : Option (List ℕ)
  pub persistent_keepalive : ℤ
  pub mtu : ℤ
  pub j_c : Option ℤ
  pub j_min : Option ℤ
  pub j_max : Option ℤ
  pub i1 : Option (List ℕ)
  pub i2 : Option (List ℕ)
  pub i3 : Option (List ℕ)
  pub i4 : Option (List ℕ)
  pub i5 : Option (List ℕ)
  pub dns : Option (List ℕ)
  pub server_endpoint : Option (List ℕ)
  pub advanced_security : Option Bool
  pub additional_config : Option (List ℕ)
  pub enabled : Bool
  pub created_at : List ℕ
  pub updated_at : List ℕ

pub record UserConfig : Type 0 where
  pub id : List ℕ
  pub default_mtu : ℤ
  pub default_persistent_keepalive : ℤ
  pub default_dns : List ℕ
  pub default_allowed_ips : List ℕ
  pub default_j_c : ℤ
  pub default_j_min : ℤ
  pub default_j_max : ℤ
  pub default_i1 : List ℕ
  pub default_i2 : List ℕ
  pub default_i3 : List ℕ
  pub default_i4 : List ℕ
  pub default_i5 : List ℕ
  pub default_additional_config : List ℕ
  pub host : List ℕ
  pub port : ℤ

pub record Hooks : Type 0 where
  pub id : List ℕ
  pub pre_up : List ℕ
  pub post_up : List ℕ
  pub pre_down : List ℕ
  pub post_down : List ℕ
  pub created_at : List ℕ
  pub updated_at : List ℕ

pub record ProxySettings : Type 0 where
  pub id : List ℕ
  pub enabled : Bool
  pub protocol : List ℕ
  pub backend_port : ℤ
  pub quic_handshake : Bool
  pub quic_cert_domain : List ℕ
  pub dns_forward : Bool
  pub dns_upstream : List ℕ
  pub additional_config : List ℕ
  pub max_sessions : ℤ
  pub session_ttl : ℤ
  pub created_at : List ℕ
  pub updated_at : List ℕ
