-- ===== src/Firewall/Tests.antt =====
-- Runs of the firewall's rules.
use awg_easy_rs.Prelude.{
  ℕ, ◌+◌, ◌*◌, ◌≡◌, refl, List, [], ◌∷◌, ◌++◌, All, length, map, Option, none, some, Bool, true,
  false, ◌==◌, if◌then◌else◌, codes, sym,
}
use mathlib.Core.Path.{subst}
use awg_easy_rs.Prelude.Ints.{pos}
use awg_easy_rs.Prelude.Results.{ok, err}
use awg_easy_rs.Prelude.Strings.{same_text}
use awg_easy_rs.Prelude.Strings.Laws.{same_text_iff}
use awg_easy_rs.Db.{Client}
use awg_easy_rs.Firewall.{
  Transport, tcp, udp, Target, TargetError, bad_port, parse_target, count_of, rebuild_txn,
  flush_line, drop_line, push_lines,
}
use awg_easy_rs.Firewall.Policy.{Packet, print_rules, chain_accepts, permits}
use awg_easy_rs.Firewall.Refines.{rules_of, rebuild_txn-refines}
use awg_easy_rs.Firewall.Lines.{IsPlain, HasPlainSources, rebuild_txn-lines}
use awg_easy_rs.Firewall.Dns.{Family, v4, v6, dns_txn}
use awg_easy_rs.Firewall.Dns.Laws.{
  DnsPacket, accepted, passed, lockdown, nat_rules, filter_rules, print_nat, print_filter, promised,
  dns_txn-promised, print_all,
}

-- One address is known to the parser.
abbrev quad9 : List ℕ
quad9 = codes "9.9.9.9"

abbrev is_quad9 : List ℕ → Bool
is_quad9 ip = same_text quad9 ip

abbrev one_entry : List ℕ → List (List ℕ)
one_entry text = text ∷ []

abbrev laptop : List ℕ → Client
laptop target = record {
  id = pos 7;
  user_id = none;
  interface_id = none;
  name = codes "laptop";
  ipv4_address = some (codes "10.8.0.2");
  ipv6_address = none;
  private_key = [];
  public_key = [];
  pre_shared_key = none;
  pre_up = none;
  post_up = none;
  pre_down = none;
  post_down = none;
  expires_at = none;
  allowed_ips = none;
  server_allowed_ips = none;
  firewall_ips = some target;
  persistent_keepalive = pos 0;
  mtu = pos 1420;
  j_c = none;
  j_min = none;
  j_max = none;
  i1 = none;
  i2 = none;
  i3 = none;
  i4 = none;
  i5 = none;
  dns = none;
  server_endpoint = none;
  advanced_security = none;
  additional_config = none;
  enabled = true;
  created_at = [];
  updated_at = [];
}

-- The numbers 9 and 2 stand for the addresses 9.9.9.9 and 10.8.0.2.
abbrev covers : List ℕ → ℕ → Bool
covers ip n = same_text ip (if n == 9 then quad9 else codes "10.8.0.2")

abbrev packet : ℕ → ℕ → Transport → ℕ → Packet
packet src dst t port = record {
  is_v6 = false;
  src = src;
  dst = dst;
  transport = some t;
  dport = port;
}

abbrev accepts : List ℕ → Packet → Bool
accepts target p =
    chain_accepts covers (rules_of is_quad9 one_entry false [] (laptop target ∷ [])) p

with_port_and_protocol :
    parse_target is_quad9 (codes "9.9.9.9:443/tcp")
    ≡ ok (record { ip = quad9; port = some 443; proto = some tcp })
unfolding parse_target awg_easy_rs.Firewall.parse_body awg_easy_rs.Firewall.bracketed
    awg_easy_rs.Firewall.split_proto awg_easy_rs.Prelude.Strings.strip_suffix same_text
    awg_easy_rs.Firewall.with_port count_of awg_easy_rs.Prelude.Strings.split_once
    awg_easy_rs.Firewall.all_digits awg_easy_rs.Firewall.target_with awg_easy_rs.Firewall.checked_ip
    awg_easy_rs.Firewall.parse_port awg_easy_rs.Prelude.Numerals.from_str_radix
    awg_easy_rs.Prelude.Numerals.digits awg_easy_rs.Prelude.Numerals.digits_from
    awg_easy_rs.Prelude.Numerals.to_digit awg_easy_rs.Prelude.Numerals.digit_value
with_port_and_protocol = refl

without_digits : parse_target is_quad9 (codes "9.9.9.9:") ≡ err bad_port
unfolding parse_target awg_easy_rs.Firewall.parse_body awg_easy_rs.Firewall.bracketed
    awg_easy_rs.Firewall.split_proto awg_easy_rs.Prelude.Strings.strip_suffix same_text
    awg_easy_rs.Firewall.with_port count_of awg_easy_rs.Prelude.Strings.split_once
    awg_easy_rs.Firewall.all_digits awg_easy_rs.Firewall.target_with awg_easy_rs.Firewall.checked_ip
    awg_easy_rs.Firewall.parse_port awg_easy_rs.Prelude.Numerals.from_str_radix
without_digits = refl

one_port : accepts (codes "9.9.9.9:443/tcp") (packet 2 9 tcp 443) ≡ true
unfolding parse_target awg_easy_rs.Firewall.parse_body awg_easy_rs.Firewall.bracketed
    awg_easy_rs.Firewall.split_proto awg_easy_rs.Prelude.Strings.strip_suffix same_text
    awg_easy_rs.Firewall.with_port count_of awg_easy_rs.Prelude.Strings.split_once
    awg_easy_rs.Firewall.all_digits awg_easy_rs.Firewall.target_with awg_easy_rs.Firewall.checked_ip
    awg_easy_rs.Firewall.parse_port awg_easy_rs.Prelude.Numerals.from_str_radix
    awg_easy_rs.Prelude.Numerals.digits awg_easy_rs.Prelude.Numerals.digits_from
    awg_easy_rs.Prelude.Numerals.to_digit awg_easy_rs.Prelude.Numerals.digit_value
    awg_easy_rs.Firewall.client_targets awg_easy_rs.Firewall.list_or awg_easy_rs.Firewall.has_colon
one_port = refl

other_protocol : accepts (codes "9.9.9.9:443/tcp") (packet 2 9 udp 443) ≡ false
unfolding parse_target awg_easy_rs.Firewall.parse_body awg_easy_rs.Firewall.bracketed
    awg_easy_rs.Firewall.split_proto awg_easy_rs.Prelude.Strings.strip_suffix same_text
    awg_easy_rs.Firewall.with_port count_of awg_easy_rs.Prelude.Strings.split_once
    awg_easy_rs.Firewall.all_digits awg_easy_rs.Firewall.target_with awg_easy_rs.Firewall.checked_ip
    awg_easy_rs.Firewall.parse_port awg_easy_rs.Prelude.Numerals.from_str_radix
    awg_easy_rs.Prelude.Numerals.digits awg_easy_rs.Prelude.Numerals.digits_from
    awg_easy_rs.Prelude.Numerals.to_digit awg_easy_rs.Prelude.Numerals.digit_value
    awg_easy_rs.Firewall.client_targets awg_easy_rs.Firewall.list_or awg_easy_rs.Firewall.has_colon
other_protocol = refl

-- The protocol of a target without a port is not heeded.
protocol_without_port : accepts (codes "9.9.9.9/tcp") (packet 2 9 udp 53) ≡ true
unfolding parse_target awg_easy_rs.Firewall.client_targets awg_easy_rs.Firewall.list_or
    awg_easy_rs.Firewall.parse_body awg_easy_rs.Firewall.bracketed awg_easy_rs.Firewall.split_proto
    awg_easy_rs.Prelude.Strings.strip_suffix same_text awg_easy_rs.Firewall.with_port count_of
    awg_easy_rs.Prelude.Strings.split_once awg_easy_rs.Firewall.target_at
    awg_easy_rs.Firewall.checked_ip awg_easy_rs.Firewall.has_colon
protocol_without_port = refl

-- The answer to a permitted packet is dropped.
answer_dropped : accepts (codes "9.9.9.9") (packet 9 2 tcp 50000) ≡ false
unfolding parse_target awg_easy_rs.Firewall.client_targets awg_easy_rs.Firewall.list_or
    awg_easy_rs.Firewall.parse_body awg_easy_rs.Firewall.bracketed awg_easy_rs.Firewall.split_proto
    awg_easy_rs.Prelude.Strings.strip_suffix same_text awg_easy_rs.Firewall.with_port count_of
    awg_easy_rs.Prelude.Strings.split_once awg_easy_rs.Firewall.target_at
    awg_easy_rs.Firewall.checked_ip awg_easy_rs.Firewall.has_colon
answer_dropped = refl

rebuild_txn-refines_example :
    (rebuild_txn is_quad9 one_entry false [] (laptop quad9 ∷ [])
      ≡ codes "flush chain inet awg-easy-rs wg-clients"
        ++ (0x0A
            ∷ (print_rules (rules_of is_quad9 one_entry false [] (laptop quad9 ∷ []))
                ++ (codes "add rule inet awg-easy-rs wg-clients drop" ++ (0x0A ∷ [])))))
    × (accepts quad9 (packet 2 9 tcp 443)
        ≡ permits covers is_quad9 one_entry false [] (laptop quad9 ∷ []) (packet 2 9 tcp 443))
rebuild_txn-refines_example =
    rebuild_txn-refines is_quad9 one_entry covers (packet 2 9 tcp 443) false [] (laptop quad9 ∷ [])

quad9-IsPlain : (ip : List ℕ) → is_quad9 ip ≡ true → IsPlain ip
unfolding count_of
quad9-IsPlain ip h = subst IsPlain ((same_text_iff quad9 ip).0 h) (refl, refl)

laptop-HasPlainSources : HasPlainSources (laptop quad9)
unfolding count_of
laptop-HasPlainSources = ((refl, refl), (refl, refl))

rebuild_txn-lines_example :
    (count_of 0x0A (rebuild_txn is_quad9 one_entry false [] (laptop quad9 ∷ []))
      ≡ length (rules_of is_quad9 one_entry false [] (laptop quad9 ∷ [])) + 2)
    × (count_of 0x22 (rebuild_txn is_quad9 one_entry false [] (laptop quad9 ∷ []))
        ≡ 2 * length (rules_of is_quad9 one_entry false [] (laptop quad9 ∷ [])))
rebuild_txn-lines_example =
    rebuild_txn-lines is_quad9 one_entry false [] (laptop quad9 ∷ []) quad9-IsPlain
      (laptop-HasPlainSources, tt)

abbrev awg0 : List ℕ
awg0 = codes "awg0"

abbrev query : Family → ℕ → ℕ → DnsPacket
query family dst port = record {
  iface = awg0;
  family = family;
  dst = dst;
  transport = some udp;
  dport = port;
}

abbrev resolver : List ℕ → ℕ
resolver target = 9

-- With `dns_block_external`, every packet to the resolver's address passes the per-client chain by.
past_the_clients :
    lockdown resolver awg0 (nat_rules awg0 v4 quad9) (filter_rules true v4 quad9) (query v4 9 443)
    ≡ accepted (query v4 9 443)
unfolding same_text
past_the_clients = refl

dns_txn-promised_example :
    (dns_txn false awg0 v4 quad9
      ≡ print_all (
          codes "flush chain inet awg-easy-rs dns-prerouting"
          ∷ codes "flush chain inet awg-easy-rs dns-lockdown"
          ∷ (map print_nat (nat_rules awg0 v4 quad9)
              ++ map print_filter (filter_rules false v4 quad9))))
    × (lockdown resolver awg0
          (nat_rules awg0 v4 quad9)
          (filter_rules false v4 quad9)
          (query v6 1 853)
        ≡ (if same_text awg0 awg0
            then promised resolver false v4 quad9 (query v6 1 853)
            else passed (query v6 1 853)))
dns_txn-promised_example = dns_txn-promised resolver awg0 quad9 false v4 (query v6 1 853)
