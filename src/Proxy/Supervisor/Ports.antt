-- ===== src/Proxy/Supervisor/Ports.antt =====
-- src/proxy/supervisor.rs: the ports of the proxy and of AmneziaWG behind it.
mod Tests
use awg_easy_rs.Prelude.{
  ℕ, ◌≤◌, ◌≡◌, refl, sym, ap, ◌∙◌, inl, inr, List, ◌++◌, Option, none, some, Bool, Bool-cases,
  Option-cases, true, false, ◌&&◌, ◌||◌, not, if◌then◌else◌, codes, decimal, arith,
}
use awg_easy_rs.Prelude.Ints.{ℤ, pos, negsuc, ltz, lez, eqz, decimal_int}
use awg_easy_rs.Db.{Interface, ProxySettings}
use awg_easy_rs.Proxy.Settings.{ProxyConfig}
use awg_easy_rs.Proxy.Supervisor.{
  DisabledReason, effective_backend_port, should_remain_disabled, is_one_of, valid_protocols,
  is_active, effective_listen_port, build_proxy_config, clamp,
}

-- A port that the kernel takes.
abbrev pub IsPort : ℤ → Type 0
IsPort (pos n) = (1 ≤ n) × (n ≤ 65535)
IsPort (negsuc n) = ⊥

range-IsPort : (v : ℤ) → (lez (pos 1) v && lez v (pos 65535)) ≡ true → IsPort v
range-IsPort (pos n) h = (ground arith, ground arith)
range-IsPort (negsuc n) h = cc

-- An early return that is not taken.
passed :
    (t : Bool) (r : DisabledReason) (rest : Option DisabledReason)
    → (if t then some r else rest) ≡ none
    → (t ≡ false) × (rest ≡ none)
passed true r rest h = cc
passed false r rest h = (refl, h)

not-false : (t : Bool) → not t ≡ false → t ≡ true
not-false true h = refl
not-false false h = cc

-- What the last two tests have decided.
enabled-ports :
    (s : ProxySettings) (i : Interface)
    → should_remain_disabled s i ≡ none
    → (eqz (effective_backend_port s i.port) i.port ≡ false)
      × IsPort (effective_backend_port s i.port)
unfolding should_remain_disabled
enabled-ports s i h =
    let (t1, h1) = passed (not s.enabled) _ _ h in
    let (t2, h2) = passed (not i.enabled) _ _ h1 in
    let (t3, h3) = passed (not (is_one_of valid_protocols s.protocol)) _ _ h2 in
    let (t4, h4) = passed _ _ _ h3 in
    let (t5, h5) = passed (eqz (effective_backend_port s i.port) i.port) _ _ h4 in
    let (t6, h6) =
      passed
        (not (
          lez (pos 1) (effective_backend_port s i.port)
          && lez (effective_backend_port s i.port) (pos 65535)))
        _ _ h5 in
    (t5, range-IsPort (effective_backend_port s i.port) (not-false _ t6))

both :
    (a : Bool) (o : Option DisabledReason)
    → (a && elim o [ none ↦ true | some reason ↦ false ]) ≡ true
    → (a ≡ true) × (o ≡ none)
both true none h = (refl, refl)
both true (some r) h = cc
both false o h = cc

-- While the proxy is active, AmneziaWG listens on a valid port that is not the public one, and the
-- proxy listens on the public port and forwards to the port that AmneziaWG listens on. While it is
-- not, AmneziaWG listens on the public port.
pub effective_listen_port_fronted :
    (status_file : List ℕ) (s : ProxySettings) (i : Interface)
    → (is_active (some s) (some i) ≡ true
        → IsPort (effective_listen_port (some s) i)
          × (eqz (effective_listen_port (some s) i) i.port ≡ false)
          × ((build_proxy_config status_file s i).listen ≡ codes "0.0.0.0:" ++ decimal_int i.port)
          × ((build_proxy_config status_file s i).backend
              ≡ codes "127.0.0.1:" ++ decimal_int (effective_listen_port (some s) i)))
      × (is_active (some s) (some i) ≡ false → effective_listen_port (some s) i ≡ i.port)
unfolding is_active effective_listen_port build_proxy_config
effective_listen_port_fronted status_file s i = (
  (λ a.
      let (e, n) = both s.enabled (should_remain_disabled s i) a in
      let (differs, port) = enabled-ports s i n in rw a (port, differs, refl, refl)),
  (λ a. rw a refl),
)
