-- ===== src/Firewall/Targets.antt =====
-- src/firewall.rs: a target that is read has an address.
mod Tests
use awg_easy_rs.Prelude.{
  ℕ, ◌≡◌, sym, inl, inr, List, Option, none, some, Bool, Bool-cases, Option-cases, true, codes,
}
use awg_easy_rs.Prelude.Results.{ok, bind_ok}
use awg_easy_rs.Prelude.Strings.{strip_prefix}
use awg_easy_rs.Firewall.{
  Transport, Target, parse_port, checked_ip, bracketed, with_port, split_proto, target_at,
  target_with, parse_body, parse_target,
}

module _ (is_address : List ℕ → Bool) where
  checked_ip-true : (ip t : List ℕ) → checked_ip is_address ip ≡ ok t → is_address t ≡ true
  unfolding checked_ip
  checked_ip-true ip t h = elim (Bool-cases (is_address ip)) [
    | inl y ↦ let e : ip ≡ t = cc (rw y at h) in rw (sym e) y
    | inr n ↦ cc (rw n at h)
  ]

  target_at-true :
      (ip : List ℕ) (proto : Option Transport) (t : Target)
      → target_at is_address ip proto ≡ ok t
      → is_address t.ip ≡ true
  unfolding target_at
  target_at-true ip proto t h =
      let (a, p, e) = bind_ok (checked_ip is_address ip) _ t h in
      let same : a ≡ t.ip = cc in rw (sym same) (checked_ip-true ip a p)

  target_with-true :
      (ip port_str : List ℕ) (proto : Option Transport) (t : Target)
      → target_with is_address ip port_str proto ≡ ok t
      → is_address t.ip ≡ true
  unfolding target_with
  target_with-true ip port_str proto t h =
      let (a, p, e) = bind_ok (checked_ip is_address ip) _ t h in
      let (n, q, f) = bind_ok (parse_port port_str) _ t e in
      let same : a ≡ t.ip = cc in rw (sym same) (checked_ip-true ip a p)

  bracketed-true :
      (ip rest : List ℕ) (proto : Option Transport) (t : Target)
      → elim (strip_prefix (codes ":") rest) [
        | some port_str ↦ target_with is_address ip port_str proto
        | none ↦ target_at is_address ip proto
      ]
        ≡ ok t
      → is_address t.ip ≡ true
  bracketed-true ip rest proto t h = elim (Option-cases (strip_prefix (codes ":") rest)) [
    | inl n ↦ target_at-true ip proto t (rw n at h)
    | inr (port_str, y) ↦ target_with-true ip port_str proto t (rw y at h)
  ]

  parse_body-true :
      (body : List ℕ) (proto : Option Transport) (t : Target)
      → parse_body is_address body proto ≡ ok t
      → is_address t.ip ≡ true
  unfolding parse_body
  parse_body-true body proto t h = elim (Option-cases (bracketed body)) [
    | inr ((ip, rest), y) ↦ bracketed-true ip rest proto t (rw (y, parse_body) at h)
    | inl n ↦ elim (Option-cases (with_port body)) [
      | inr ((ip, port_str), y) ↦ target_with-true ip port_str proto t (rw (n, parse_body, y) at h)
      | inl m ↦ target_at-true body proto t (rw (n, parse_body, m) at h)
    ]
  ]

  pub parse_target-true :
      (entry : List ℕ) (t : Target) → parse_target is_address entry ≡ ok t → is_address t.ip ≡ true
  unfolding parse_target
  parse_target-true entry t h = parse_body-true (split_proto entry).0 (split_proto entry).1 t h
