-- ===== src/Firewall/Dns/Laws.antt =====
-- src/firewall.rs: what the DNS lockdown does to a packet.
use awg_easy_rs.Prelude.{
  ℕ, ◌≡◌, ◌∙◌, inl, inr, List, [], ◌∷◌, ◌++◌, append_assoc, map, Option, none, Bool, Bool-cases,
  true, false, ◌&&◌, ◌||◌, ◌==◌, if◌then◌else◌, codes, arith,
}
use awg_easy_rs.Prelude.Strings.{same_text}
use awg_easy_rs.Firewall.{Transport, tcp, udp, push_lines}
use awg_easy_rs.Firewall.Policy.{is_transport}
use awg_easy_rs.Firewall.Dns.{
  Family, v4, v6, dnat_rule, dns_dnat_rules, dns_filter_rules, dns_leak_guard_rules, dns_txn,
}

-- A new connection's packet that comes in by an interface.
pub record DnsPacket : Type 0 where
  pub iface : List ℕ
  pub family : Family
  pub dst : ℕ
  pub transport : Option Transport
  pub dport : ℕ

pub record NatRule : Type 0 where
  pub iface : List ℕ
  pub family : Family
  pub target : List ℕ
  pub transport : Transport

pub data FilterRule : Type 0 where
  accept_at : Family → List ℕ → FilterRule
  drop_dns : Transport → FilterRule
  drop_dns_of : Family → Transport → FilterRule

-- The end of a packet: accepted for good, handed on to the chains behind, or dropped.
pub data Verdict : Type 0 where
  accepted passed : DnsPacket → Verdict
  dropped : Verdict

-- What nft reads for a translation: the family and the protocol of a DNS packet, and the resolver's
-- address, an IPv6 address in brackets, with port 53.
abbrev print_nat_to : Family → Transport → List ℕ → List ℕ
print_nat_to v4 tcp target =
    codes "ipv4 tcp dport { 53, 853 } dnat ip to " ++ (target ++ codes ":53")
print_nat_to v4 udp target =
    codes "ipv4 udp dport { 53, 853 } dnat ip to " ++ (target ++ codes ":53")
print_nat_to v6 tcp target =
    codes "ipv6 tcp dport { 53, 853 } dnat ip6 to [" ++ (target ++ codes "]:53")
print_nat_to v6 udp target =
    codes "ipv6 udp dport { 53, 853 } dnat ip6 to [" ++ (target ++ codes "]:53")

abbrev pub print_nat : NatRule → List ℕ
print_nat r =
    codes "add rule inet awg-easy-rs dns-prerouting iifname \""
    ++ (r.iface ++ (codes "\" meta nfproto " ++ print_nat_to r.family r.transport r.target))

abbrev pub print_filter : FilterRule → List ℕ
print_filter (accept_at v4 target) =
    codes "add rule inet awg-easy-rs dns-lockdown ip daddr " ++ (target ++ codes " accept")
print_filter (accept_at v6 target) =
    codes "add rule inet awg-easy-rs dns-lockdown ip6 daddr " ++ (target ++ codes " accept")
print_filter (drop_dns tcp) =
    codes "add rule inet awg-easy-rs dns-lockdown tcp dport { 53, 853 } drop"
print_filter (drop_dns udp) =
    codes "add rule inet awg-easy-rs dns-lockdown udp dport { 53, 853 } drop"
print_filter (drop_dns_of v4 tcp) =
    codes "add rule inet awg-easy-rs dns-lockdown meta nfproto ipv4 tcp dport { 53, 853 } drop"
print_filter (drop_dns_of v4 udp) =
    codes "add rule inet awg-easy-rs dns-lockdown meta nfproto ipv4 udp dport { 53, 853 } drop"
print_filter (drop_dns_of v6 tcp) =
    codes "add rule inet awg-easy-rs dns-lockdown meta nfproto ipv6 tcp dport { 53, 853 } drop"
print_filter (drop_dns_of v6 udp) =
    codes "add rule inet awg-easy-rs dns-lockdown meta nfproto ipv6 udp dport { 53, 853 } drop"

-- The text of a whole chain of rules.
abbrev pub print_all : List (List ℕ) → List ℕ
print_all [] = []
print_all (rule ∷ rules) = rule ++ (0x0A ∷ print_all rules)

abbrev pub same_family : Family → Family → Bool
same_family v4 v4 = true
same_family v6 v6 = true
same_family a b = false

abbrev pub is_dns_port : ℕ → Bool
is_dns_port n = n == 53 || n == 853

abbrev pub is_dns : DnsPacket → Bool
is_dns p = (is_transport p.transport tcp || is_transport p.transport udp) && is_dns_port p.dport

module _ (address : List ℕ → ℕ) where
  abbrev pub to_resolver : List ℕ → DnsPacket → DnsPacket
  to_resolver target p = record p { dst = address target; dport = 53 }

  -- The first rule that matches rewrites the packet.
  abbrev pub translate : List NatRule → DnsPacket → DnsPacket
  translate [] p = p
  translate (r ∷ rules) p =
      if same_text r.iface p.iface
        && (same_family r.family p.family
            && (is_transport p.transport r.transport && is_dns_port p.dport))
      then to_resolver r.target p
      else translate rules p

  abbrev pub filter_matches : FilterRule → DnsPacket → Bool
  filter_matches (accept_at family target) p =
      same_family family p.family && address target == p.dst
  filter_matches (drop_dns t) p = is_transport p.transport t && is_dns_port p.dport
  filter_matches (drop_dns_of family t) p =
      same_family family p.family && (is_transport p.transport t && is_dns_port p.dport)

  abbrev pub verdict_of : FilterRule → DnsPacket → Verdict
  verdict_of (accept_at family target) p = accepted p
  verdict_of (drop_dns t) p = dropped
  verdict_of (drop_dns_of family t) p = dropped

  abbrev pub filter : List FilterRule → DnsPacket → Verdict
  filter [] p = passed p
  filter (r ∷ rules) p = if filter_matches r p then verdict_of r p else filter rules p

  -- The two chains. The second is entered for packets of the interface.
  abbrev pub lockdown : List ℕ → List NatRule → List FilterRule → DnsPacket → Verdict
  lockdown iface nat rules p =
      let q = translate nat p in if same_text iface q.iface then filter rules q else passed q

abbrev pub nat_rules : List ℕ → Family → List ℕ → List NatRule
nat_rules iface family target =
    record { iface = iface; family = family; target = target; transport = udp }
    ∷ record { iface = iface; family = family; target = target; transport = tcp }
    ∷ []

abbrev pub unlike : Family → Family
unlike v4 = v6
unlike v6 = v4

abbrev pub filter_rules : Bool → Family → List ℕ → List FilterRule
filter_rules true family target = accept_at family target ∷ drop_dns udp ∷ drop_dns tcp ∷ []
filter_rules false family target =
    drop_dns_of (unlike family) udp ∷ drop_dns_of (unlike family) tcp ∷ []

abbrev pub let_through : Bool → DnsPacket → Verdict
let_through true p = accepted p
let_through false p = passed p

-- What the lockdown promises: DNS goes to the resolver or nowhere.
abbrev pub promised : (List ℕ → ℕ) → Bool → Family → List ℕ → DnsPacket → Verdict
promised address block_external family target p =
    if is_dns p
    then (if same_family family p.family
        then let_through block_external (to_resolver address target p)
        else dropped)
    else let_through (block_external && (same_family family p.family && address target == p.dst)) p

module _ (address : List ℕ → ℕ) (iface target : List ℕ) where
  lockdown_at :
      (block_external : Bool) (f g : Family) (t : Option Transport) (i : List ℕ) (d n : ℕ)
      → same_text iface i ≡ true
      → lockdown address iface
          (nat_rules iface f target)
          (filter_rules block_external f target)
          (record { iface = i; family = g; dst = d; transport = t; dport = n })
        ≡ promised address block_external f target
            (record { iface = i; family = g; dst = d; transport = t; dport = n })
  lockdown_at true v4 v4 none i d n h = ground arith
  lockdown_at block_external f g t i d n h = ground arith

  elsewhere :
      (block_external : Bool) (f g : Family) (t : Option Transport) (i : List ℕ) (d n : ℕ)
      → same_text iface i ≡ false
      → lockdown address iface
          (nat_rules iface f target)
          (filter_rules block_external f target)
          (record { iface = i; family = g; dst = d; transport = t; dport = n })
        ≡ passed (record { iface = i; family = g; dst = d; transport = t; dport = n })
  elsewhere block_external f g t i d n h = rw (h, h)

  -- The lockdown's transaction flushes both chains and fills them with rules under which a packet of
  -- the interface that asks a DNS port, by TCP or UDP, goes to port 53 of the resolver if it is of
  -- the resolver's family and is dropped if it is not. Another packet of the interface passes
  -- unchanged, and is accepted for good only where the setting `dns_block_external` is on and it goes
  -- to the resolver's address. A packet of another interface passes unchanged.
  pub dns_txn-promised :
      (block_external : Bool) (family : Family) (p : DnsPacket)
      → (dns_txn block_external iface family target
          ≡ print_all (
              codes "flush chain inet awg-easy-rs dns-prerouting"
              ∷ codes "flush chain inet awg-easy-rs dns-lockdown"
              ∷ (map print_nat (nat_rules iface family target)
                  ++ map print_filter (filter_rules block_external family target))))
        × (lockdown address iface
              (nat_rules iface family target)
              (filter_rules block_external family target)
              p
            ≡ (if same_text iface p.iface
                then promised address block_external family target p
                else passed p))
  unfolding dns_txn dns_dnat_rules dns_filter_rules dns_leak_guard_rules dnat_rule push_lines
  dns_txn-promised block_external family p = (
    printed block_external family,
    elim (Bool-cases (same_text iface p.iface)) [
      | inl y ↦
          lockdown_at block_external family p.family p.transport p.iface p.dst p.dport y ∙ rw y
      | inr n ↦ elsewhere block_external family p.family p.transport p.iface p.dst p.dport n ∙ rw n
    ],
  )
    where
      printed :
          (b : Bool) (f : Family)
          → dns_txn b iface f target
            ≡ print_all (
                codes "flush chain inet awg-easy-rs dns-prerouting"
                ∷ codes "flush chain inet awg-easy-rs dns-lockdown"
                ∷ (map print_nat (nat_rules iface f target)
                    ++ map print_filter (filter_rules b f target)))
      printed true v4 = simp (append_assoc)
      printed true v6 = simp (append_assoc)
      printed false v4 = simp (append_assoc)
      printed false v6 = simp (append_assoc)
