-- ===== src/Firewall/Refines.antt =====
-- src/firewall.rs: the printed chain lets through what the policy permits.
use awg_easy_rs.Prelude.{
  ℕ, ◌≡◌, refl, sym, ap, ◌∙◌, List, [], ◌∷◌, ◌++◌, append_assoc, append-nil, Option, none, some,
  codes, Bool, true, false, ◌&&◌, ◌||◌, if◌then◌else◌,
}
use awg_easy_rs.Db.{Client}
use awg_easy_rs.Firewall.{
  parse_target, list_or, client_targets, push_lines, append_targets, append_client_rules,
  append_clients, flush_line, drop_line, rebuild_txn,
}
use awg_easy_rs.Firewall.Policy.{
  Packet, Rule, print_rules, chain_accepts, any_target_opens, permits, first_stored, targets_of,
}
use awg_easy_rs.Firewall.Rules.{rules_for, target_rules-print, push_lines-print, print_rules-append}
use awg_easy_rs.Firewall.Chain.{chain_accepts-append, rules_for-accepts}

module _ (is_address : List ℕ → Bool) (parse_json : List ℕ → List (List ℕ)) where
  -- The texts that the settings choose from.
  client_targets-of :
      (client : Client) (default_ips : List (List ℕ))
      → client_targets parse_json client default_ips ≡ targets_of parse_json client default_ips
  unfolding client_targets list_or
  client_targets-of client default_ips = chosen client.firewall_ips client.allowed_ips
    where
      chosen :
          (f a : Option (List ℕ))
          → list_or parse_json f (list_or parse_json a default_ips)
            ≡ elim (first_stored (f ∷ a ∷ [])) [ none ↦ default_ips | some text ↦ parse_json text ]
      chosen (some (c ∷ text)) a = refl
      chosen (some []) (some (c ∷ text)) = refl
      chosen (some []) (some []) = refl
      chosen (some []) none = refl
      chosen none (some (c ∷ text)) = refl
      chosen none (some []) = refl
      chosen none none = refl

  abbrev pub rules_of_targets : Bool → Client → List (List ℕ) → List Rule
  rules_of_targets enable_ipv6 client [] = []
  rules_of_targets enable_ipv6 client (t ∷ targets) =
      rules_for enable_ipv6 client (parse_target is_address t)
      ++ rules_of_targets enable_ipv6 client targets

  abbrev pub rules_of_client : Bool → List (List ℕ) → Client → List Rule
  rules_of_client enable_ipv6 default_ips client =
      rules_of_targets enable_ipv6 client (client_targets parse_json client default_ips)

  -- All the rules of the chain but the last.
  abbrev pub rules_of : Bool → List (List ℕ) → List Client → List Rule
  rules_of enable_ipv6 default_ips [] = []
  rules_of enable_ipv6 default_ips (client ∷ clients) =
      (if client.enabled then rules_of_client enable_ipv6 default_ips client else [])
      ++ rules_of enable_ipv6 default_ips clients

  append_targets-print :
      (enable_ipv6 : Bool) (client : Client) (targets : List (List ℕ)) (txn : List ℕ)
      → append_targets is_address parse_json enable_ipv6 client targets txn
        ≡ txn ++ print_rules (rules_of_targets enable_ipv6 client targets)
  unfolding append_targets
  append_targets-print enable_ipv6 client [] txn = sym (append-nil txn)
  append_targets-print enable_ipv6 client (t ∷ targets) txn =
      let rules = rules_for enable_ipv6 client (parse_target is_address t) in
      let rest = rules_of_targets enable_ipv6 client targets in
      append_targets-print enable_ipv6 client targets _
      ∙ ap (λ l. l ++ print_rules rest)
          (ap (λ l. push_lines l txn)
              (target_rules-print enable_ipv6 client (parse_target is_address t))
            ∙ push_lines-print rules txn)
      ∙ (append_assoc txn (print_rules rules) (print_rules rest)
          ∙ ap (λ l. txn ++ l) (sym (print_rules-append rules rest)))

  append_clients-print :
      (enable_ipv6 : Bool) (default_ips : List (List ℕ)) (clients : List Client) (txn : List ℕ)
      → append_clients is_address parse_json enable_ipv6 default_ips clients txn
        ≡ txn ++ print_rules (rules_of enable_ipv6 default_ips clients)
  unfolding append_clients append_client_rules
  append_clients-print enable_ipv6 default_ips [] txn = sym (append-nil txn)
  append_clients-print enable_ipv6 default_ips (client ∷ clients) txn =
      let rest = rules_of enable_ipv6 default_ips clients in
      append_clients-print enable_ipv6 default_ips clients _
      ∙ (ap (λ l. l ++ print_rules rest) (one client.enabled)
          ∙ (append_assoc txn _ (print_rules rest)
              ∙ ap (λ l. txn ++ l)
                  (sym (
                    print_rules-append
                      (if client.enabled
                        then rules_of_client enable_ipv6 default_ips client
                        else [])
                      rest))))
    where
      one :
          (b : Bool)
          → (if b
              then append_client_rules is_address parse_json enable_ipv6 default_ips client txn
              else txn)
            ≡ txn ++ print_rules (if b then rules_of_client enable_ipv6 default_ips client else [])
      one true =
          append_targets-print enable_ipv6 client (client_targets parse_json client default_ips) txn
      one false = sym (append-nil txn)

  pub rebuild_txn-print :
      (enable_ipv6 : Bool) (default_ips : List (List ℕ)) (clients : List Client)
      → rebuild_txn is_address parse_json enable_ipv6 default_ips clients
        ≡ flush_line ++ (print_rules (rules_of enable_ipv6 default_ips clients) ++ drop_line)
  unfolding rebuild_txn
  rebuild_txn-print enable_ipv6 default_ips clients =
      ap (λ l. l ++ drop_line) (append_clients-print enable_ipv6 default_ips clients flush_line)
      ∙ append_assoc flush_line (print_rules (rules_of enable_ipv6 default_ips clients)) drop_line

  module _ (covers : List ℕ → ℕ → Bool) (p : Packet) where
    rules_of_targets-accepts :
        (enable_ipv6 : Bool) (client : Client) (targets : List (List ℕ))
        → chain_accepts covers (rules_of_targets enable_ipv6 client targets) p
          ≡ any_target_opens covers is_address parse_json enable_ipv6 client targets p
    rules_of_targets-accepts enable_ipv6 client [] = refl
    rules_of_targets-accepts enable_ipv6 client (t ∷ targets) =
        chain_accepts-append covers p (rules_for enable_ipv6 client (parse_target is_address t)) _
        ∙ rw (rules_for-accepts covers p enable_ipv6 client (parse_target is_address t))
            (rw (rules_of_targets-accepts enable_ipv6 client targets) refl)

    rules_of-accepts :
        (enable_ipv6 : Bool) (default_ips : List (List ℕ)) (clients : List Client)
        → chain_accepts covers (rules_of enable_ipv6 default_ips clients) p
          ≡ permits covers is_address parse_json enable_ipv6 default_ips clients p
    rules_of-accepts enable_ipv6 default_ips [] = refl
    rules_of-accepts enable_ipv6 default_ips (client ∷ clients) =
        chain_accepts-append covers p
          (if client.enabled then rules_of_client enable_ipv6 default_ips client else []) _
        ∙ rw (rules_of-accepts enable_ipv6 default_ips clients) (
            ap (λ b. b || permits covers is_address parse_json enable_ipv6 default_ips clients p)
              (one client.enabled))
      where
        one :
            (b : Bool)
            → chain_accepts covers
                (if b then rules_of_client enable_ipv6 default_ips client else [])
                p
              ≡ (b
                  && any_target_opens covers is_address parse_json enable_ipv6 client
                      (targets_of parse_json client default_ips)
                      p)
        one true =
            rules_of_targets-accepts enable_ipv6 client
              (client_targets parse_json client default_ips)
            ∙ ap (λ l. any_target_opens covers is_address parse_json enable_ipv6 client l p)
                (client_targets-of client default_ips)
        one false = refl

    -- The transaction flushes the chain and adds rules that accept a packet exactly where the policy
    -- permits it, in any settings and for any clients; its last rule drops all else. The targets are
    -- those that `parse_target` reads.
    pub rebuild_txn-refines :
        (enable_ipv6 : Bool) (default_ips : List (List ℕ)) (clients : List Client)
        → (rebuild_txn is_address parse_json enable_ipv6 default_ips clients
            ≡ codes "flush chain inet awg-easy-rs wg-clients"
              ++ (0x0A
                  ∷ (print_rules (rules_of enable_ipv6 default_ips clients)
                      ++ (codes "add rule inet awg-easy-rs wg-clients drop" ++ (0x0A ∷ [])))))
          × (chain_accepts covers (rules_of enable_ipv6 default_ips clients) p
              ≡ permits covers is_address parse_json enable_ipv6 default_ips clients p)
    rebuild_txn-refines enable_ipv6 default_ips clients = (
      rebuild_txn-print enable_ipv6 default_ips clients,
      rules_of-accepts enable_ipv6 default_ips clients,
    )
