-- ===== src/Firewall.antt =====
-- src/firewall.rs: the rules of the per-client chain, as the text that is piped to nft. Parsing an
-- address or a JSON list is not the repository's, so these are arguments.
pub mod Policy
pub mod Rules
pub mod Chain
pub mod Refines
pub mod Counts
pub mod Targets
pub mod Lines
pub mod Dns
mod Tests
use awg_easy_rs.Prelude.{
  ℕ, ◌+◌, ◌^◌, List, [], ◌∷◌, ◌++◌, take, Option, none, some, Bool, true, false, ◌&&◌, ◌||◌, not,
  ltb, leb, ◌==◌, if◌then◌else◌, codes, decimal,
}
use awg_easy_rs.Prelude.Ints.{ℤ, decimal_int}
use awg_easy_rs.Prelude.Results.{Result, ok, err, ok_or, fail_if, ◌>>=◌, ◌>>◌}
use awg_easy_rs.Prelude.Numerals.{from_str_radix}
use awg_easy_rs.Prelude.Strings.{split_once, strip_prefix, strip_suffix}
use awg_easy_rs.Proxy.Responder.Sip.Lines.{is_empty}
use awg_easy_rs.Db.{Client}

pub data Transport : Type 0 where
  tcp udp : Transport

pub data TargetError : Type 0 where
  bad_address bad_port : TargetError

-- An address or a network, and the port and protocol that it is opened for.
pub record Target : Type 0 where
  pub ip : List ℕ
  pub port : Option ℕ
  pub proto : Option Transport

unfoldable pub count_of : ℕ → List ℕ → ℕ
count_of c [] = 0
count_of c (b ∷ text) = if b == c then count_of c text + 1 else count_of c text

unfoldable pub all_digits : List ℕ → Bool
all_digits [] = true
all_digits (b ∷ text) = (leb 0x30 b && leb b 0x39) && all_digits text

unfoldable pub split_proto : List ℕ → List ℕ × Option Transport
split_proto entry = elim (strip_suffix (codes "/tcp") entry) [
  | some rest ↦ (rest, some tcp)
  | none ↦ elim (strip_suffix (codes "/udp") entry) [
    | some rest ↦ (rest, some udp)
    | none ↦ (entry, none)
  ]
]

-- `[ip]` and what is behind the bracket.
unfoldable pub bracketed : List ℕ → Option (List ℕ × List ℕ)
bracketed [] = none
bracketed (b ∷ body) = elim (b == 0x5B) [ true ↦ split_once 0x5D body | false ↦ none ]

-- `ip:port` with one colon, where the port is digits only.
unfoldable pub with_port : List ℕ → Option (List ℕ × List ℕ)
with_port body = elim (leb (count_of 0x3A body) 1) [
  | false ↦ none
  | true ↦ elim (split_once 0x3A body) [
    | none ↦ none
    | some (ip, maybe_port) ↦ if all_digits maybe_port then some (ip, maybe_port) else none
  ]
]

-- `parse::<u16>()`
unfoldable pub parse_port : List ℕ → Result TargetError ℕ
parse_port text = ok_or (from_str_radix 10 (2 ^ 16) text) bad_port

module _ (is_address : List ℕ → Bool) where
  unfoldable pub checked_ip : List ℕ → Result TargetError (List ℕ)
  checked_ip ip = if is_address ip then ok ip else err bad_address

  unfoldable pub target_at : List ℕ → Option Transport → Result TargetError Target
  target_at ip proto = do ip ← checked_ip ip; ok (record { ip = ip; port = none; proto = proto })

  unfoldable pub target_with : List ℕ → List ℕ → Option Transport → Result TargetError Target
  target_with ip port_str proto = do
    ip ← checked_ip ip
    port ← parse_port port_str
    ok (record { ip = ip; port = some port; proto = proto })

  unfoldable pub parse_body : List ℕ → Option Transport → Result TargetError Target
  parse_body body proto = elim (bracketed body) [
    | some (ip, rest) ↦ elim (strip_prefix (codes ":") rest) [
      | some port_str ↦ target_with ip port_str proto
      | none ↦ target_at ip proto
    ]
    | none ↦ elim (with_port body) [
      | some (ip, port_str) ↦ target_with ip port_str proto
      | none ↦ target_at body proto
    ]
  ]

  unfoldable pub parse_target : List ℕ → Result TargetError Target
  parse_target entry = let (body, proto) = split_proto entry in parse_body body proto

-- The characters that a name keeps in a comment.
unfoldable pub is_comment_char : ℕ → Bool
is_comment_char c =
    (leb 0x30 c && leb c 0x39)
    || ((leb 0x41 c && leb c 0x5A)
        || ((leb 0x61 c && leb c 0x7A) || (c == 0x20 || (c == 0x5F || (c == 0x2D || c == 0x2E)))))

unfoldable pub keep : (ℕ → Bool) → List ℕ → List ℕ
keep test [] = []
keep test (c ∷ text) = if test c then c ∷ keep test text else keep test text

unfoldable pub sanitize_comment : List ℕ → ℤ → List ℕ
sanitize_comment name id =
    codes "client " ++ (decimal_int id ++ (codes ": " ++ take 80 (keep is_comment_char name)))

abbrev pub family_word : Bool → List ℕ
family_word is_v6 = if is_v6 then codes "ip6" else codes "ip"

unfoldable pub rule_prefix : List ℕ → List ℕ → Bool → List ℕ
rule_prefix src dst is_v6 =
    codes "add rule inet awg-easy-rs wg-clients "
    ++ (family_word is_v6
        ++ (codes " saddr "
            ++ (src ++ (codes " " ++ (family_word is_v6 ++ (codes " daddr " ++ dst))))))

abbrev pub transport_word : Transport → List ℕ
transport_word tcp = codes " tcp"
transport_word udp = codes " udp"

unfoldable pub mk : List ℕ → List ℕ → List ℕ → List ℕ → List ℕ
mk prefix proto_clause port_clause comment =
    prefix
    ++ (proto_clause ++ (port_clause ++ (codes " accept comment \"" ++ (comment ++ codes "\""))))

abbrev pub wants : Option Transport → Transport → Bool
wants none t = true
wants (some tcp) tcp = true
wants (some udp) udp = true
wants (some p) t = false

unfoldable pub push_if : Bool → List ℕ → List (List ℕ) → List (List ℕ)
push_if true rule rules = rule ∷ rules
push_if false rule rules = rules

unfoldable pub gen_rules :
    List ℕ → List ℕ → Option ℕ → Option Transport → List ℕ → Bool → List (List ℕ)
gen_rules src dst (some p) proto comment is_v6 =
    let prefix = rule_prefix src dst is_v6 in
    let dport = codes " dport " ++ decimal p in
    push_if (wants proto tcp) (mk prefix (transport_word tcp) dport comment)
      (push_if (wants proto udp) (mk prefix (transport_word udp) dport comment) [])
gen_rules src dst none proto comment is_v6 = mk (rule_prefix src dst is_v6) [] [] comment ∷ []

-- The first text that is there and not empty, read as a JSON list; else the default.
unfoldable pub list_or : (List ℕ → List (List ℕ)) → Option (List ℕ) → List (List ℕ) → List (List ℕ)
list_or parse_json none other = other
list_or parse_json (some []) other = other
list_or parse_json (some (c ∷ text)) other = parse_json (c ∷ text)

abbrev pub unwrap_or : Option (List ℕ) → List ℕ → List ℕ
unwrap_or (some text) other = text
unwrap_or none other = other

unfoldable pub push_lines : List (List ℕ) → List ℕ → List ℕ
push_lines [] txn = txn
push_lines (rule ∷ rules) txn = push_lines rules (txn ++ (rule ++ (0x0A ∷ [])))

unfoldable pub has_colon : List ℕ → Bool
has_colon [] = false
has_colon (b ∷ text) = b == 0x3A || has_colon text

-- The rules for one target. A target that is no address is passed over.
unfoldable pub target_rules : Bool → Client → Result TargetError Target → List (List ℕ)
target_rules enable_ipv6 client (err e) = []
target_rules enable_ipv6 client (ok t) =
    let is_v6 = has_colon t.ip in
    let src =
      if is_v6
      then unwrap_or client.ipv6_address (codes "::")
      else unwrap_or client.ipv4_address (codes "0.0.0.0") in
    if is_v6 && not enable_ipv6
    then []
    else gen_rules src t.ip t.port t.proto (sanitize_comment client.name client.id) is_v6

unfoldable pub client_targets : (List ℕ → List (List ℕ)) → Client → List (List ℕ) → List (List ℕ)
client_targets parse_json client default_ips =
    list_or parse_json client.firewall_ips (list_or parse_json client.allowed_ips default_ips)

abbrev pub flush_line : List ℕ
flush_line = codes "flush chain inet awg-easy-rs wg-clients" ++ (0x0A ∷ [])

abbrev pub drop_line : List ℕ
drop_line = codes "add rule inet awg-easy-rs wg-clients drop" ++ (0x0A ∷ [])

module _ (is_address : List ℕ → Bool) (parse_json : List ℕ → List (List ℕ)) where
  unfoldable pub append_targets : Bool → Client → List (List ℕ) → List ℕ → List ℕ
  append_targets enable_ipv6 client [] txn = txn
  append_targets enable_ipv6 client (t ∷ targets) txn =
      append_targets enable_ipv6 client targets
        (push_lines (target_rules enable_ipv6 client (parse_target is_address t)) txn)

  unfoldable pub append_client_rules : Bool → List (List ℕ) → Client → List ℕ → List ℕ
  append_client_rules enable_ipv6 default_ips client txn =
      append_targets enable_ipv6 client (client_targets parse_json client default_ips) txn

  -- The loop over the clients.
  unfoldable pub append_clients : Bool → List (List ℕ) → List Client → List ℕ → List ℕ
  append_clients enable_ipv6 default_ips [] txn = txn
  append_clients enable_ipv6 default_ips (client ∷ clients) txn =
      append_clients enable_ipv6 default_ips clients
        (if client.enabled then append_client_rules enable_ipv6 default_ips client txn else txn)

  -- The transaction of `rebuild_rules`.
  unfoldable pub rebuild_txn : Bool → List (List ℕ) → List Client → List ℕ
  rebuild_txn enable_ipv6 default_ips clients =
      append_clients enable_ipv6 default_ips clients flush_line ++ drop_line
