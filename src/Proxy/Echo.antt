-- ===== src/Proxy/Echo.antt =====
-- src/proxy/responder.rs: DNS names and the echo of a client's query.
use awg_easy_rs.Prelude.{ℕ, List}

pub record DnsEcho : Type 0 where
  pub txid : ℕ × ℕ
  pub qname : List ℕ
  pub qtype : ℕ × ℕ
