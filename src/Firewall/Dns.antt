-- ===== src/Firewall/Dns.antt =====
-- src/firewall.rs: the DNS lockdown, as the transaction that is piped to nft. Reading an address and
-- printing it in its canonical form are arguments.
pub mod Laws
use awg_easy_rs.Prelude.{
  ℕ, List, [], ◌∷◌, ◌++◌, take, Option, none, some, Bool, true, false, ◌&&◌, ◌||◌, not, leb, ◌==◌,
  if◌then◌else◌, codes,
}
use awg_easy_rs.Prelude.Results.{Result, ok, err, ok_or, fail_if, ◌>>=◌, ◌>>◌}
use awg_easy_rs.Prelude.Strings.{strip_prefix, strip_suffix}
use awg_easy_rs.Proxy.Responder.Sip.Lines.{is_empty, trim}
use awg_easy_rs.Db.{Interface}
use awg_easy_rs.Firewall.{has_colon, keep, push_lines}

pub data Family : Type 0 where
  v4 v6 : Family

pub data DnsError : Type 0 where
  empty_target no_literal not_an_address ipv6_disabled : DnsError

unfoldable pub has_dot : List ℕ → Bool
has_dot [] = false
has_dot (b ∷ text) = b == 0x2E || has_dot text

unfoldable pub without_brackets : List ℕ → List ℕ
without_brackets t = elim (strip_prefix (codes "[") t) [
  | none ↦ t
  | some s ↦ elim (strip_suffix (codes "]") s) [ none ↦ t | some inner ↦ inner ]
]

unfoldable pub is_iface_char : ℕ → Bool
is_iface_char c =
    (leb 0x30 c && leb c 0x39)
    || ((leb 0x41 c && leb c 0x5A) || ((leb 0x61 c && leb c 0x7A) || (c == 0x5F || c == 0x2D)))

unfoldable pub sanitize_iface : List ℕ → List ℕ
sanitize_iface iface = take 15 (keep is_iface_char iface)

abbrev pub nfproto_word : Family → List ℕ
nfproto_word v4 = codes "ipv4"
nfproto_word v6 = codes "ipv6"

abbrev pub dnat_word : Family → List ℕ
dnat_word v4 = codes "dnat ip to"
dnat_word v6 = codes "dnat ip6 to"

abbrev pub dnat_dst : Family → List ℕ → List ℕ
dnat_dst v4 target = target
dnat_dst v6 target = codes "[" ++ (target ++ codes "]")

unfoldable pub dnat_rule : List ℕ → Family → List ℕ → List ℕ → List ℕ
dnat_rule iface family target proto =
    codes "add rule inet awg-easy-rs dns-prerouting iifname \""
    ++ (iface
        ++ (codes "\" meta nfproto "
            ++ (nfproto_word family
                ++ (codes " "
                    ++ (proto
                        ++ (codes " dport { 53, 853 } "
                            ++ (dnat_word family
                                ++ (codes " " ++ (dnat_dst family target ++ codes ":53")))))))))

unfoldable pub dns_dnat_rules : List ℕ → Family → List ℕ → List (List ℕ)
dns_dnat_rules iface family target =
    dnat_rule iface family target (codes "udp") ∷ dnat_rule iface family target (codes "tcp") ∷ []

abbrev pub daddr_word : Family → List ℕ
daddr_word v4 = codes "ip daddr"
daddr_word v6 = codes "ip6 daddr"

abbrev pub filter_prefix : List ℕ
filter_prefix = codes "add rule inet awg-easy-rs dns-lockdown "

unfoldable pub dns_filter_rules : Family → List ℕ → List (List ℕ)
dns_filter_rules family target =
    (filter_prefix ++ (daddr_word family ++ (codes " " ++ (target ++ codes " accept"))))
    ∷ (filter_prefix ++ codes "udp dport { 53, 853 } drop")
    ∷ (filter_prefix ++ codes "tcp dport { 53, 853 } drop")
    ∷ []

abbrev pub other_family : Family → Family
other_family v4 = v6
other_family v6 = v4

unfoldable pub dns_leak_guard_rules : Family → List (List ℕ)
dns_leak_guard_rules family =
    (filter_prefix
      ++ (codes "meta nfproto "
          ++ (nfproto_word (other_family family) ++ codes " udp dport { 53, 853 } drop")))
    ∷ (filter_prefix
        ++ (codes "meta nfproto "
            ++ (nfproto_word (other_family family) ++ codes " tcp dport { 53, 853 } drop")))
    ∷ []

-- What is done: the chains are taken away, or they are made sure of for an interface and then filled
-- by a transaction.
pub data DnsPlan : Type 0 where
  remove_lockdown : List ℕ → DnsPlan
  fill_chains : List ℕ → List ℕ → DnsPlan

unfoldable pub dns_txn : Bool → List ℕ → Family → List ℕ → List ℕ
dns_txn block_external iface_name family target =
    push_lines
      (if block_external then dns_filter_rules family target else dns_leak_guard_rules family)
      (push_lines (dns_dnat_rules iface_name family target) (
        (codes "flush chain inet awg-easy-rs dns-prerouting" ++ (0x0A ∷ []))
        ++ (codes "flush chain inet awg-easy-rs dns-lockdown" ++ (0x0A ∷ []))))

abbrev pub is_family_v6 : Family → Bool
is_family_v6 v4 = false
is_family_v6 v6 = true

module _ (parse_v4 parse_v6 : List ℕ → Option (List ℕ)) where
  unfoldable pub parse_literal : List ℕ → Result DnsError (Family × List ℕ)
  parse_literal t = elim (parse_v4 t) [
    | some canonical ↦ ok (v4, canonical)
    | none ↦ elim (parse_v6 (without_brackets t)) [
      | some canonical ↦ ok (v6, canonical)
      | none ↦ err not_an_address
    ]
  ]

  unfoldable pub parse_target_ip : List ℕ → Result DnsError (Family × List ℕ)
  parse_target_ip target = do
    fail_if (is_empty (trim target)) empty_target
    fail_if (not (has_dot (trim target) || has_colon (trim target))) no_literal
    parse_literal (trim target)

  unfoldable pub rebuild_dns_lockdown : Bool → Interface → Result DnsError DnsPlan
  rebuild_dns_lockdown enable_ipv6 iface =
      if not iface.dns_lockdown || is_empty (trim iface.dns_lockdown_target)
      then ok (remove_lockdown iface.name)
      else (parse_target_ip iface.dns_lockdown_target >>= λ (family, target). do
        fail_if (is_family_v6 family && not enable_ipv6) ipv6_disabled
        ok (
            fill_chains iface.name
              (dns_txn iface.dns_block_external (sanitize_iface iface.name) family target)))
