-- ===== src/Firewall/Policy.antt =====
-- src/firewall.rs: what the per-client chain is to let through, and the rules that the chain holds.
-- How nft compares an address with a literal is an argument.
use awg_easy_rs.Prelude.{
  ℕ, List, [], ◌∷◌, ◌++◌, Option, none, some, Bool, true, false, ◌&&◌, ◌||◌, not, ◌==◌,
  if◌then◌else◌, codes, decimal,
}
use awg_easy_rs.Prelude.Results.{Result, ok, err}
use awg_easy_rs.Db.{Client}
use awg_easy_rs.Firewall.{
  Transport, tcp, udp, Target, TargetError, parse_target, has_colon, unwrap_or,
}

-- A packet that reaches the chain. `none` is a protocol that is neither TCP nor UDP.
pub record Packet : Type 0 where
  pub is_v6 : Bool
  pub src : ℕ
  pub dst : ℕ
  pub transport : Option Transport
  pub dport : ℕ

-- An accepting rule of the chain.
pub record Rule : Type 0 where
  pub is_v6 : Bool
  pub saddr : List ℕ
  pub daddr : List ℕ
  pub dport : Option (Transport × ℕ)
  pub comment : List ℕ

abbrev pub print_port : Option (Transport × ℕ) → List ℕ
print_port none = []
print_port (some (tcp, p)) = codes " tcp dport " ++ decimal p
print_port (some (udp, p)) = codes " udp dport " ++ decimal p

abbrev pub print_family : Bool → List ℕ
print_family true = codes "ip6"
print_family false = codes "ip"

-- The line of nft that stands for a rule.
abbrev pub print_rule : Rule → List ℕ
print_rule r =
    codes "add rule inet awg-easy-rs wg-clients "
    ++ (print_family r.is_v6
        ++ (codes " saddr "
            ++ (r.saddr
                ++ (codes " "
                    ++ (print_family r.is_v6
                        ++ (codes " daddr "
                            ++ (r.daddr
                                ++ (print_port r.dport
                                    ++ (codes " accept comment \""
                                        ++ (r.comment ++ codes "\""))))))))))

-- The first of the stored texts that is there and not empty.
abbrev pub first_stored : List (Option (List ℕ)) → Option (List ℕ)
first_stored [] = none
first_stored (none ∷ stored) = first_stored stored
first_stored (some [] ∷ stored) = first_stored stored
first_stored (some (c ∷ text) ∷ stored) = some (c ∷ text)

-- The targets of a client: the firewall's own list, else the allowed addresses, else the default.
abbrev pub targets_of : (List ℕ → List (List ℕ)) → Client → List (List ℕ) → List (List ℕ)
targets_of parse_json client default_ips =
    elim (first_stored (client.firewall_ips ∷ client.allowed_ips ∷ [])) [
      | none ↦ default_ips
      | some text ↦ parse_json text
    ]

-- The rules as lines of a transaction.
abbrev pub print_rules : List Rule → List ℕ
print_rules [] = []
print_rules (r ∷ rules) = print_rule r ++ (0x0A ∷ print_rules rules)

abbrev pub same_family : Bool → Bool → Bool
same_family true b = b
same_family false b = not b

abbrev pub is_transport : Option Transport → Transport → Bool
is_transport none t = false
is_transport (some tcp) tcp = true
is_transport (some udp) udp = true
is_transport (some p) t = false

module _ (covers : List ℕ → ℕ → Bool) where
  abbrev pub port_matches : Option (Transport × ℕ) → Packet → Bool
  port_matches none p = true
  port_matches (some (t, n)) p = is_transport p.transport t && p.dport == n

  abbrev pub rule_matches : Rule → Packet → Bool
  rule_matches r p =
      same_family r.is_v6 p.is_v6
      && (covers r.saddr p.src && (covers r.daddr p.dst && port_matches r.dport p))

  -- The chain: the first rule that matches accepts, and the last rule drops.
  abbrev pub chain_accepts : List Rule → Packet → Bool
  chain_accepts [] p = false
  chain_accepts (r ∷ rules) p = rule_matches r p || chain_accepts rules p

  -- A target without a port opens every protocol, also where it names one.
  abbrev pub port_opened : Option ℕ → Option Transport → Packet → Bool
  port_opened none proto p = true
  port_opened (some n) none p = elim p.transport [ none ↦ false | some t ↦ p.dport == n ]
  port_opened (some n) (some t) p = is_transport p.transport t && p.dport == n

  -- What a client may reach by one of its targets.
  abbrev pub target_opens : Bool → Client → Result TargetError Target → Packet → Bool
  target_opens enable_ipv6 client (err e) p = false
  target_opens enable_ipv6 client (ok t) p =
      let src =
        if p.is_v6
        then unwrap_or client.ipv6_address (codes "::")
        else unwrap_or client.ipv4_address (codes "0.0.0.0") in
      (same_family (has_colon t.ip) p.is_v6 && (not p.is_v6 || enable_ipv6))
      && (covers src p.src && (covers t.ip p.dst && port_opened t.port t.proto p))

  module _ (is_address : List ℕ → Bool) (parse_json : List ℕ → List (List ℕ)) where
    abbrev pub any_target_opens : Bool → Client → List (List ℕ) → Packet → Bool
    any_target_opens enable_ipv6 client [] p = false
    any_target_opens enable_ipv6 client (t ∷ targets) p =
        target_opens enable_ipv6 client (parse_target is_address t) p
        || any_target_opens enable_ipv6 client targets p

    -- The policy: an enabled client reaches what one of its targets opens, and nothing else passes.
    abbrev pub permits : Bool → List (List ℕ) → List Client → Packet → Bool
    permits enable_ipv6 default_ips [] p = false
    permits enable_ipv6 default_ips (client ∷ clients) p =
        (client.enabled
          && any_target_opens enable_ipv6 client (targets_of parse_json client default_ips) p)
        || permits enable_ipv6 default_ips clients p
