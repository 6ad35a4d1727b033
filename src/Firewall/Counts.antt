-- ===== src/Firewall/Counts.antt =====
-- src/firewall.rs: how often a character stands in the printed rules.
use awg_easy_rs.Prelude.{
  ℕ, zero, suc, ◌+◌, ◌*◌, ◌≤◌, ◌≡◌, refl, ap, ◌∙◌, inl, inr, List, [], ◌∷◌, ◌++◌, All, length, take,
  Option, none, some, Bool, Bool-cases, true, false, ◌==◌, codes, decimal, arith,
}
use awg_easy_rs.Prelude.Ints.{ℤ, pos, negsuc, decimal_int}
use awg_easy_rs.Prelude.Numerals.Laws.{IsDigit, decimal_digits}
use awg_easy_rs.Firewall.{Transport, tcp, udp, count_of, keep, is_comment_char, sanitize_comment}
use awg_easy_rs.Firewall.Policy.{Rule, print_rule, print_rules, print_family, print_port}
use awg_easy_rs.Firewall.Rules.{rules_to}

pub count_of-append :
    (c : ℕ) (xs ys : List ℕ) → count_of c (xs ++ ys) ≡ count_of c xs + count_of c ys
unfolding count_of
count_of-append c [] ys = omega arith
count_of-append c (x ∷ xs) ys = ground (arith, count_of-append c xs ys)

-- A character that the test takes is another one.
count_of-cons :
    (c b : ℕ) (text : List ℕ) → (b == c) ≡ false → count_of c (b ∷ text) ≡ count_of c text
unfolding count_of
count_of-cons c b text h = rw h

another : (test : ℕ → Bool) (c b : ℕ) → test c ≡ false → test b ≡ true → (b == c) ≡ false
another test c b h y = ground (arith, ap test)

count_of-keep :
    (c : ℕ) (test : ℕ → Bool) (text : List ℕ) → test c ≡ false → count_of c (keep test text) ≡ 0
unfolding keep count_of
count_of-keep c test [] h = refl
count_of-keep c test (b ∷ text) h = elim (Bool-cases (test b)) [
  | inr n ↦ rw n (count_of-keep c test text h)
  | inl y ↦ rw y (count_of-cons c b _ (another test c b h y) ∙ count_of-keep c test text h)
]

count_of-take : (c n : ℕ) (text : List ℕ) → count_of c text ≡ 0 → count_of c (take n text) ≡ 0
unfolding count_of
count_of-take c zero text h = refl
count_of-take c (suc n) [] h = refl
count_of-take c (suc n) (b ∷ text) h = ground (arith, count_of-take c n text)

count_of-digits : (c : ℕ) (text : List ℕ) → c ≤ 0x2F → All IsDigit text → count_of c text ≡ 0
unfolding count_of
count_of-digits c [] h d = refl
count_of-digits c (b ∷ text) h (d, ds) = ground (arith, count_of-digits c text h ds)

-- A character that stands in no text of the code but around a comment: a newline, or a quotation
-- mark, which stands there once on each side.
pub record IsSpecial (c k : ℕ) : Type 0 where
  pub low : c ≤ 0x2C
  pub dropped : is_comment_char c ≡ false
  pub start : count_of c (codes "add rule inet awg-easy-rs wg-clients ") ≡ 0
  pub families : (v6 : Bool) → count_of c (print_family v6) ≡ 0
  pub between :
      (count_of c (codes " saddr ") ≡ 0)
      × (count_of c (codes " ") ≡ 0)
      × (count_of c (codes " daddr ") ≡ 0)
  pub ports : (count_of c (codes " tcp dport ") ≡ 0) × (count_of c (codes " udp dport ") ≡ 0)
  pub names : (count_of c (codes "client ") ≡ 0) × (count_of c (codes ": ") ≡ 0)
  pub opening : count_of c (codes " accept comment \"") ≡ k
  pub closing : count_of c (codes "\"") ≡ k

not_minus : (c : ℕ) → c ≤ 0x2C → (0x2D == c) ≡ false
not_minus c h = ground arith

count_of-nil : (c : ℕ) → count_of c [] ≡ 0
unfolding count_of
count_of-nil c = refl

module _ (c k : ℕ) (special : IsSpecial c k) where
  count_of-decimal : (n : ℕ) → count_of c (decimal n) ≡ 0
  count_of-decimal n =
      let l = special.low in count_of-digits c (decimal n) (omega arith) (decimal_digits n)

  count_of-int : (i : ℤ) → count_of c (decimal_int i) ≡ 0
  unfolding decimal_int
  count_of-int (pos n) = count_of-decimal n
  count_of-int (negsuc n) =
      count_of-cons c 0x2D _ (not_minus c special.low) ∙ count_of-decimal (suc n)

  pub count_of-comment : (name : List ℕ) (id : ℤ) → count_of c (sanitize_comment name id) ≡ 0
  unfolding sanitize_comment
  count_of-comment name id =
      let kept =
        count_of-take c 80 (keep is_comment_char name)
          (count_of-keep c is_comment_char name special.dropped) in
      let number = count_of-int id in let words = special.names in omega (arith, count_of-append)

  count_of-ports : (d : Option (Transport × ℕ)) → count_of c (print_port d) ≡ 0
  count_of-ports none = count_of-nil c
  count_of-ports (some (tcp, n)) =
      let word = special.ports.0 in
      let number = count_of-decimal n in
      omega (arith, count_of-append c (codes " tcp dport ") (decimal n))
  count_of-ports (some (udp, n)) =
      let word = special.ports.1 in
      let number = count_of-decimal n in
      omega (arith, count_of-append c (codes " udp dport ") (decimal n))

  -- The stored texts of a rule have none of the character.
  abbrev pub IsClean : Rule → Type 0
  IsClean r = (count_of c r.saddr ≡ 0) × (count_of c r.daddr ≡ 0) × (count_of c r.comment ≡ 0)

  count_of-rule : (r : Rule) → IsClean r → count_of c (print_rule r) ≡ k + k
  count_of-rule r (s, d, m) =
      let start = special.start in
      let (b0, b1, b2) = special.between in
      let family = special.families r.is_v6 in
      let ports = count_of-ports r.dport in
      let opening = special.opening in
      let closing = special.closing in omega (arith, count_of-append)

  pub count_of-rules :
      (rules : List Rule)
      → All IsClean rules
      → count_of c (print_rules rules) ≡ length rules * (k + k + count_of c (0x0A ∷ []))
  count_of-rules [] h = let n = count_of-nil c in omega arith
  count_of-rules (r ∷ rules) (h, hs) =
      let here = count_of-rule r h in
      let there = count_of-rules rules hs in
      let at = count_of-append c (print_rule r) ((0x0A ∷ []) ++ print_rules rules) in
      let behind = count_of-append c (0x0A ∷ []) (print_rules rules) in grind arith

  pub rules_to-IsClean :
      (src dst comment : List ℕ) (is_v6 : Bool) (ports : List (Option (Transport × ℕ)))
      → count_of c src ≡ 0
      → count_of c dst ≡ 0
      → count_of c comment ≡ 0
      → All IsClean (rules_to src dst comment is_v6 ports)
  rules_to-IsClean src dst comment is_v6 [] s d m = tt
  rules_to-IsClean src dst comment is_v6 (p ∷ ports) s d m =
      ((s, d, m), rules_to-IsClean src dst comment is_v6 ports s d m)
