-- ===== src/Firewall/Rules.antt =====
-- src/firewall.rs: the rules that the lines of the transaction print.
use awg_easy_rs.Prelude.{
  ℕ, ◌≡◌, refl, sym, ap, ◌∙◌, List, [], ◌∷◌, ◌++◌, append_assoc, append-nil, map, Option, none,
  some, Bool, true, false, ◌&&◌, not, if◌then◌else◌, codes,
}
use awg_easy_rs.Prelude.Results.{Result, ok, err}
use awg_easy_rs.Db.{Client}
use awg_easy_rs.Firewall.{
  Transport, tcp, udp, Target, TargetError, has_colon, unwrap_or, push_if, gen_rules, push_lines,
  target_rules, sanitize_comment, family_word, rule_prefix, mk,
}
use awg_easy_rs.Firewall.Policy.{Rule, print_family, print_port, print_rule, print_rules}

-- The rules that the chain holds, one to a protocol where there is a port.
abbrev pub ports_of : Option ℕ → Option Transport → List (Option (Transport × ℕ))
ports_of none proto = none ∷ []
ports_of (some n) none = some (tcp, n) ∷ some (udp, n) ∷ []
ports_of (some n) (some t) = some (t, n) ∷ []

abbrev pub rules_to : List ℕ → List ℕ → List ℕ → Bool → List (Option (Transport × ℕ)) → List Rule
rules_to src dst comment is_v6 [] = []
rules_to src dst comment is_v6 (d ∷ ports) =
    record { is_v6 = is_v6; saddr = src; daddr = dst; dport = d; comment = comment }
    ∷ rules_to src dst comment is_v6 ports

abbrev pub source_of : Bool → Client → List ℕ
source_of is_v6 client =
    if is_v6
    then unwrap_or client.ipv6_address (codes "::")
    else unwrap_or client.ipv4_address (codes "0.0.0.0")

abbrev pub rules_for : Bool → Client → Result TargetError Target → List Rule
rules_for enable_ipv6 client (err e) = []
rules_for enable_ipv6 client (ok t) =
    if has_colon t.ip && not enable_ipv6
    then []
    else rules_to (source_of (has_colon t.ip) client) t.ip (sanitize_comment client.name client.id)
        (has_colon t.ip) (ports_of t.port t.proto)

regroup :
    (a f b s g e d p q m : List ℕ)
    → (a ++ (f ++ (b ++ (s ++ (g ++ (f ++ (e ++ d))))))) ++ (p ++ (q ++ m))
      ≡ a ++ (f ++ (b ++ (s ++ (g ++ (f ++ (e ++ (d ++ ((p ++ q) ++ m))))))))
regroup a f b s g e d p q m = simp (append_assoc)

family_word-print : (is_v6 : Bool) → family_word is_v6 ≡ print_family is_v6
family_word-print true = refl
family_word-print false = refl

-- The code's prefix and clauses make the line of a rule.
mk-print :
    (src dst comment : List ℕ) (is_v6 : Bool) (p q : List ℕ) (d : Option (Transport × ℕ))
    → p ++ q ≡ print_port d
    → mk (rule_prefix src dst is_v6) p q comment
      ≡ print_rule
          (record { is_v6 = is_v6; saddr = src; daddr = dst; dport = d; comment = comment })
unfolding mk rule_prefix
mk-print src dst comment is_v6 p q d h =
    rw (← h, ← family_word-print is_v6)
      (regroup (codes "add rule inet awg-easy-rs wg-clients ") (family_word is_v6) (codes " saddr ")
        src (codes " ") (codes " daddr ") dst p q
        (codes " accept comment \"" ++ (comment ++ codes "\"")))

gen_rules-print :
    (src dst : List ℕ) (port : Option ℕ) (proto : Option Transport) (comment : List ℕ)
    (is_v6 : Bool)
    → gen_rules src dst port proto comment is_v6
      ≡ map print_rule (rules_to src dst comment is_v6 (ports_of port proto))
unfolding gen_rules push_if
gen_rules-print src dst none proto comment is_v6 =
    ap (λ l. l ∷ []) (mk-print src dst comment is_v6 [] [] none refl)
gen_rules-print src dst (some n) none comment is_v6 =
    rw
      (
        mk-print src dst comment is_v6 (codes " tcp") _ (some (tcp, n)) refl,
        mk-print src dst comment is_v6 (codes " udp") _ (some (udp, n)) refl,
      )
      refl
gen_rules-print src dst (some n) (some tcp) comment is_v6 =
    ap (λ l. l ∷ []) (mk-print src dst comment is_v6 _ _ (some (tcp, n)) refl)
gen_rules-print src dst (some n) (some udp) comment is_v6 =
    ap (λ l. l ∷ []) (mk-print src dst comment is_v6 _ _ (some (udp, n)) refl)

pub target_rules-print :
    (enable_ipv6 : Bool) (client : Client) (r : Result TargetError Target)
    → target_rules enable_ipv6 client r ≡ map print_rule (rules_for enable_ipv6 client r)
unfolding target_rules
target_rules-print enable_ipv6 client (err e) = refl
target_rules-print enable_ipv6 client (ok t) = go (has_colon t.ip && not enable_ipv6) _ _ (
    gen_rules-print (source_of (has_colon t.ip) client) t.ip t.port t.proto
      (sanitize_comment client.name client.id) (has_colon t.ip))
  where
    go :
        (b : Bool) (texts : List (List ℕ)) (rules : List Rule)
        → texts ≡ map print_rule rules
        → (if b then [] else texts) ≡ map print_rule (if b then [] else rules)
    go true texts rules h = refl
    go false texts rules h = h

pub push_lines-print :
    (rules : List Rule) (txn : List ℕ)
    → push_lines (map print_rule rules) txn ≡ txn ++ print_rules rules
unfolding push_lines
push_lines-print [] txn = sym (append-nil txn)
push_lines-print (r ∷ rules) txn =
    push_lines-print rules (txn ++ (print_rule r ++ (0x0A ∷ []))) ∙ simp (append_assoc)

-- A disjunction over an append.
pub print_rules-append :
    (xs ys : List Rule) → print_rules (xs ++ ys) ≡ print_rules xs ++ print_rules ys
print_rules-append [] ys = refl
print_rules-append (r ∷ xs) ys = simp (print_rules-append xs ys, append_assoc)
