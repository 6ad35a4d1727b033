-- ===== src/Firewall/Lines.antt =====
-- src/firewall.rs: nothing that is stored breaks out of its line or its comment.
use awg_easy_rs.Prelude.{
  ℕ, ◌+◌, ◌*◌, ◌≡◌, refl, ap, ◌∙◌, inl, inr, List, [], ◌∷◌, ◌++◌, All, length, Bool, true, false,
  ◌&&◌, not, if◌then◌else◌, arith,
}
use awg_easy_rs.Prelude.Numerals.Laws.{All-append}
use awg_easy_rs.Prelude.Results.{Result-cases}
use awg_easy_rs.Db.{Client}
use awg_easy_rs.Firewall.{
  count_of, is_comment_char, sanitize_comment, has_colon, parse_target, client_targets, flush_line,
  drop_line, rebuild_txn,
}
use awg_easy_rs.Firewall.Policy.{Rule, print_family, print_rules}
use awg_easy_rs.Firewall.Rules.{ports_of, source_of, rules_for}
use awg_easy_rs.Firewall.Refines.{rules_of_targets, rules_of_client, rules_of, rebuild_txn-print}
use awg_easy_rs.Firewall.Counts.{
  count_of-append, IsSpecial, IsClean, count_of-comment, count_of-rules, rules_to-IsClean,
}
use awg_easy_rs.Firewall.Targets.{parse_target-true}

-- Neither a newline nor a quotation mark.
abbrev pub IsPlain : List ℕ → Type 0
IsPlain text = (count_of 0x0A text ≡ 0) × (count_of 0x22 text ≡ 0)

-- The sources that are stored for a client.
abbrev pub HasPlainSources : Client → Type 0
HasPlainSources client = IsPlain (source_of true client) × IsPlain (source_of false client)

module _ (is_address : List ℕ → Bool) (parse_json : List ℕ → List (List ℕ)) (c k : ℕ)
    (special : IsSpecial c k)
    (plain : (ip : List ℕ) → is_address ip ≡ true → count_of c ip ≡ 0) where
  abbrev Sources : Client → Type 0
  Sources client = (v6 : Bool) → count_of c (source_of v6 client) ≡ 0

  rules_for-IsClean :
      (enable_ipv6 : Bool) (client : Client) (entry : List ℕ)
      → Sources client
      → All (IsClean c k special) (rules_for enable_ipv6 client (parse_target is_address entry))
  rules_for-IsClean enable_ipv6 client entry s =
      elim (Result-cases (parse_target is_address entry)) [
        | inr (e, n) ↦ rw n tt
        | inl (t, y) ↦ rw y (
            unless (has_colon t.ip && not enable_ipv6) _ (
              rules_to-IsClean c k special (source_of (has_colon t.ip) client) t.ip
                (sanitize_comment client.name client.id) (has_colon t.ip) (ports_of t.port t.proto)
                (s (has_colon t.ip)) (plain t.ip (parse_target-true is_address entry t y))
                (count_of-comment c k special client.name client.id)))
      ]
    where
      unless :
          (b : Bool) (rules : List Rule)
          → All (IsClean c k special) rules
          → All (IsClean c k special) (if b then [] else rules)
      unless true rules h = tt
      unless false rules h = h

  rules_of_targets-IsClean :
      (enable_ipv6 : Bool) (client : Client) (targets : List (List ℕ))
      → Sources client
      → All
          (IsClean c k special)
          (rules_of_targets is_address parse_json enable_ipv6 client targets)
  rules_of_targets-IsClean enable_ipv6 client [] s = tt
  rules_of_targets-IsClean enable_ipv6 client (t ∷ targets) s =
      All-append (IsClean c k special) (rules_for enable_ipv6 client (parse_target is_address t)) _
        (rules_for-IsClean enable_ipv6 client t s)
        (rules_of_targets-IsClean enable_ipv6 client targets s)

  rules_of-IsClean :
      (enable_ipv6 : Bool) (default_ips : List (List ℕ)) (clients : List Client)
      → All Sources clients
      → All (IsClean c k special) (rules_of is_address parse_json enable_ipv6 default_ips clients)
  rules_of-IsClean enable_ipv6 default_ips [] h = tt
  rules_of-IsClean enable_ipv6 default_ips (client ∷ clients) (s, h) =
      All-append (IsClean c k special) _ _ (one client.enabled)
        (rules_of-IsClean enable_ipv6 default_ips clients h)
    where
      one :
          (b : Bool)
          → All (IsClean c k special) (
              if b
              then rules_of_client is_address parse_json enable_ipv6 default_ips client
              else [])
      one true =
          rules_of_targets-IsClean enable_ipv6 client (client_targets parse_json client default_ips)
            s
      one false = tt

  count_of-txn :
      (enable_ipv6 : Bool) (default_ips : List (List ℕ)) (clients : List Client)
      → All Sources clients
      → count_of c (rebuild_txn is_address parse_json enable_ipv6 default_ips clients)
        ≡ count_of c flush_line
          + (length (rules_of is_address parse_json enable_ipv6 default_ips clients)
                * (k + k + count_of c (0x0A ∷ []))
              + count_of c drop_line)
  count_of-txn enable_ipv6 default_ips clients h =
      let rules = rules_of is_address parse_json enable_ipv6 default_ips clients in
      let each =
        count_of-rules c k special rules (rules_of-IsClean enable_ipv6 default_ips clients h) in
      ap (count_of c) (rebuild_txn-print is_address parse_json enable_ipv6 default_ips clients)
      ∙ (count_of-append c flush_line (print_rules rules ++ drop_line)
          ∙ ap (λ n. count_of c flush_line + n)
              (count_of-append c (print_rules rules) drop_line
                ∙ ap (λ n. n + count_of c drop_line) each))

newline-IsSpecial : IsSpecial 0x0A 0
unfolding count_of is_comment_char
newline-IsSpecial = record {
  low = omega arith;
  dropped = refl;
  start = refl;
  families =
      λ v6. elim v6 as (λ b. count_of 0x0A (print_family b) ≡ 0) [ true ↦ refl | false ↦ refl ];
  between = (refl, refl, refl);
  ports = (refl, refl);
  names = (refl, refl);
  opening = refl;
  closing = refl;
}

quote-IsSpecial : IsSpecial 0x22 1
unfolding count_of is_comment_char
quote-IsSpecial = record {
  low = omega arith;
  dropped = refl;
  start = refl;
  families =
      λ v6. elim v6 as (λ b. count_of 0x22 (print_family b) ≡ 0) [ true ↦ refl | false ↦ refl ];
  between = (refl, refl, refl);
  ports = (refl, refl);
  names = (refl, refl);
  opening = refl;
  closing = refl;
}

All-sources :
    (clients : List Client)
    → All HasPlainSources clients
    → All (λ client. (v6 : Bool) → count_of 0x0A (source_of v6 client) ≡ 0) clients
      × All (λ client. (v6 : Bool) → count_of 0x22 (source_of v6 client) ≡ 0) clients
All-sources [] h = (tt, tt)
All-sources (client ∷ clients) ((v6, v4), h) =
    let (a, b) = All-sources clients h in
    (
      (
        λ v. elim v as (λ b. count_of 0x0A (source_of b client) ≡ 0) [ true ↦ v6.0 | false ↦ v4.0 ],
        a,
      ),
      (
        λ v. elim v as (λ b. count_of 0x22 (source_of b client) ≡ 0) [ true ↦ v6.1 | false ↦ v4.1 ],
        b,
      ),
    )

-- Where the parser of addresses takes no text with a newline or a quotation mark, and the stored
-- addresses of the clients have none, the transaction has one line for each rule and the first and
-- last line, and two quotation marks for each rule: no name and no target, however they are stored,
-- adds a line or ends a comment.
pub rebuild_txn-lines :
    (is_address : List ℕ → Bool) (parse_json : List ℕ → List (List ℕ)) (enable_ipv6 : Bool)
    (default_ips : List (List ℕ)) (clients : List Client)
    → ((ip : List ℕ) → is_address ip ≡ true → IsPlain ip)
    → All HasPlainSources clients
    → (count_of 0x0A (rebuild_txn is_address parse_json enable_ipv6 default_ips clients)
        ≡ length (rules_of is_address parse_json enable_ipv6 default_ips clients) + 2)
      × (count_of 0x22 (rebuild_txn is_address parse_json enable_ipv6 default_ips clients)
          ≡ 2 * length (rules_of is_address parse_json enable_ipv6 default_ips clients))
unfolding count_of
rebuild_txn-lines is_address parse_json enable_ipv6 default_ips clients plain h =
    let (a, b) = All-sources clients h in
    (
      newlines _ _ (
          count_of-txn is_address parse_json 0x0A 0 newline-IsSpecial (λ ip y. (plain ip y).0)
            enable_ipv6 default_ips clients a),
      quotes _ _ (
          count_of-txn is_address parse_json 0x22 1 quote-IsSpecial (λ ip y. (plain ip y).1)
            enable_ipv6 default_ips clients b),
    )
  where
    newlines :
        (n m : ℕ)
        → n
          ≡ count_of 0x0A flush_line
            + (m * (0 + 0 + count_of 0x0A (0x0A ∷ [])) + count_of 0x0A drop_line)
        → n ≡ m + 2
    newlines n m e = omega arith

    quotes :
        (n m : ℕ)
        → n
          ≡ count_of 0x22 flush_line
            + (m * (1 + 1 + count_of 0x22 (0x0A ∷ [])) + count_of 0x22 drop_line)
        → n ≡ 2 * m
    quotes n m e = omega arith
