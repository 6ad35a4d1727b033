-- ===== src/Firewall/Chain.antt =====
-- src/firewall.rs: the packets that the rules for one target accept.
use awg_easy_rs.Prelude.{
  ℕ, ◌≡◌, refl, sym, ap, ◌∙◌, List, [], ◌∷◌, ◌++◌, Option, none, some, Bool, true, false, ◌&&◌,
  ◌||◌, not, ◌==◌, if◌then◌else◌,
}
use awg_easy_rs.Prelude.Results.{Result, ok, err}
use awg_easy_rs.Db.{Client}
use awg_easy_rs.Firewall.{Transport, tcp, udp, Target, TargetError, has_colon, sanitize_comment}
use awg_easy_rs.Firewall.Policy.{
  Packet, Rule, same_family, is_transport, port_matches, rule_matches, chain_accepts, port_opened,
  target_opens,
}
use awg_easy_rs.Firewall.Rules.{ports_of, rules_to, source_of, rules_for}

or_assoc : (a b c : Bool) → ((a || b) || c) ≡ (a || (b || c))
or_assoc true b c = refl
or_assoc false b c = refl

or_false : (a : Bool) → (a || false) ≡ a
or_false true = refl
or_false false = refl

module _ (covers : List ℕ → ℕ → Bool) (p : Packet) where
  pub chain_accepts-append :
      (xs ys : List Rule)
      → chain_accepts covers (xs ++ ys) p ≡ (chain_accepts covers xs p || chain_accepts covers ys p)
  chain_accepts-append [] ys = refl
  chain_accepts-append (r ∷ xs) ys =
      rw (chain_accepts-append xs ys) (sym (or_assoc (rule_matches covers r p) _ _))

  abbrev any_port : List (Option (Transport × ℕ)) → Bool
  any_port [] = false
  any_port (d ∷ ports) = port_matches covers d p || any_port ports

  any_port-opened :
      (port : Option ℕ) (proto : Option Transport)
      → any_port (ports_of port proto) ≡ port_opened covers port proto p
  any_port-opened none proto = refl
  any_port-opened (some n) none = tested p.transport (p.dport == n)
    where
      tested :
          (t : Option Transport) (b : Bool)
          → ((is_transport t tcp && b) || ((is_transport t udp && b) || false))
            ≡ elim t [ none ↦ false | some t' ↦ b ]
      tested none b = refl
      tested (some tcp) true = refl
      tested (some tcp) false = refl
      tested (some udp) true = refl
      tested (some udp) false = refl
  any_port-opened (some n) (some w) = tested p.transport w (p.dport == n)
    where
      tested :
          (t : Option Transport) (w : Transport) (b : Bool)
          → ((is_transport t w && b) || false) ≡ (is_transport t w && b)
      tested t w b = or_false (is_transport t w && b)

  spread :
      (a b c q r : Bool)
      → ((a && (b && (c && q))) || (a && (b && (c && r)))) ≡ (a && (b && (c && (q || r))))
  spread false b c q r = refl
  spread true false c q r = refl
  spread true true false q r = refl
  spread true true true q r = refl

  none_left : (a b c : Bool) → false ≡ (a && (b && (c && false)))
  none_left true true true = refl
  none_left true true false = refl
  none_left true false c = refl
  none_left false b c = refl

  rules_to-accepts :
      (src dst comment : List ℕ) (is_v6 : Bool) (ports : List (Option (Transport × ℕ)))
      → chain_accepts covers (rules_to src dst comment is_v6 ports) p
        ≡ (same_family is_v6 p.is_v6 && (covers src p.src && (covers dst p.dst && any_port ports)))
  rules_to-accepts src dst comment is_v6 [] = none_left (same_family is_v6 p.is_v6) _ _
  rules_to-accepts src dst comment is_v6 (d ∷ ports) =
      rw (rules_to-accepts src dst comment is_v6 ports) (
        spread (same_family is_v6 p.is_v6) (covers src p.src) (covers dst p.dst)
          (port_matches covers d p) (any_port ports))

  unless_empty :
      (b : Bool) (rules : List Rule)
      → chain_accepts covers (if b then [] else rules) p
        ≡ (if b then false else chain_accepts covers rules p)
  unless_empty true rules = refl
  unless_empty false rules = refl

  -- The family of the address and that of the packet give the same source where the rule matches.
  one_family :
      (v w enabled : Bool) (from : Bool → Bool) (rest : Bool)
      → (if v && not enabled then false else (same_family v w && (from v && rest)))
        ≡ ((same_family v w && (not w || enabled)) && (from w && rest))
  one_family true true true from rest = refl
  one_family true true false from rest = refl
  one_family true false true from rest = refl
  one_family true false false from rest = refl
  one_family false true enabled from rest = refl
  one_family false false enabled from rest = refl

  pub rules_for-accepts :
      (enable_ipv6 : Bool) (client : Client) (r : Result TargetError Target)
      → chain_accepts covers (rules_for enable_ipv6 client r) p
        ≡ target_opens covers enable_ipv6 client r p
  rules_for-accepts enable_ipv6 client (err e) = refl
  rules_for-accepts enable_ipv6 client (ok t) =
      unless_empty (has_colon t.ip && not enable_ipv6) _
      ∙ ap (λ b. if has_colon t.ip && not enable_ipv6 then false else b)
          (rules_to-accepts (source_of (has_colon t.ip) client) t.ip
              (sanitize_comment client.name client.id) (has_colon t.ip) (ports_of t.port t.proto)
            ∙ ap
                (λ b.
                  same_family (has_colon t.ip) p.is_v6
                  && (covers (source_of (has_colon t.ip) client) p.src && (covers t.ip p.dst && b)))
                (any_port-opened t.port t.proto))
      ∙ one_family (has_colon t.ip) p.is_v6 enable_ipv6 (λ v. covers (source_of v client) p.src)
          (covers t.ip p.dst && port_opened covers t.port t.proto p)
