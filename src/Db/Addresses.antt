-- ===== src/Db/Addresses.antt =====
-- src/db.rs: the choice of an address for a client. Parsing a network and listing its hosts is the
-- crate ipnet's, so a parser is an argument. The addition wraps, as in the release profile.
pub mod Laws
use awg_easy_rs.Prelude.{
  ℕ, zero, suc, ◌+◌, ◌%◌, ◌^◌, ◌≡◌, refl, List, [], ◌∷◌, Option, some, Bool, true, false, ◌&&◌,
  ◌||◌, not, if◌then◌else◌, get_elem?, Bool-cases,
}
use awg_easy_rs.Prelude.Strings.{same_text}
use awg_easy_rs.Prelude.Results.{Result, ok, err, ok_or, ◌>>=◌}

-- A parsed network, as the code sees it: its address and its hosts, in their order.
pub record Net : Type 0 where
  pub addr : ℕ
  pub hosts : List ℕ

pub data AddressError : Type 0 where
  invalid_cidr no_address : AddressError

unfoldable pub is_used : List (List ℕ) → List ℕ → Bool
is_used [] ip = false
is_used (u ∷ used) ip = same_text u ip || is_used used ip

-- The loop over the hosts.
unfoldable pub first_host : (ℕ → List ℕ) → (List ℕ → Bool) → List ℕ → Result AddressError (List ℕ)
first_host to_string free [] = err no_address
first_host to_string free (host ∷ hosts) =
    let rest = first_host to_string free hosts in
    if free (to_string host) then ok (to_string host) else rest

-- `u32::from(net.addr()) + 1` and `u128::from(net.addr()) + 1`.
unfoldable pub server_v4 : Net → ℕ
server_v4 net = (net.addr + 1) % 2 ^ 32

unfoldable pub server_v6 : Net → ℕ
server_v6 net = (net.addr + 1) % 2 ^ 128

unfoldable pub free_v4 : (ℕ → List ℕ) → Net → List (List ℕ) → List ℕ → Bool
free_v4 to_string net used ip =
    not (same_text ip (to_string (server_v4 net))) && not (is_used used ip)

unfoldable pub free_v6 : (ℕ → List ℕ) → Net → List (List ℕ) → List ℕ → Bool
free_v6 to_string net used ip =
    not (same_text ip (to_string net.addr))
    && (not (same_text ip (to_string (server_v6 net))) && not (is_used used ip))

module _ (parse : List ℕ → Option Net) (to_string : ℕ → List ℕ) where
  unfoldable pub next_ipv4 : List ℕ → List (List ℕ) → Result AddressError (List ℕ)
  next_ipv4 cidr used = do
    net ← ok_or (parse cidr) invalid_cidr
    first_host to_string (free_v4 to_string net used) net.hosts

  unfoldable pub next_ipv6 : List ℕ → List (List ℕ) → Result AddressError (List ℕ)
  next_ipv6 cidr used = do
    net ← ok_or (parse cidr) invalid_cidr
    first_host to_string (free_v6 to_string net used) net.hosts

-- The text of one of the hosts.
unfoldable pub IsHost : (ℕ → List ℕ) → List ℕ → List ℕ → Type 0
IsHost to_string hosts ip =
    (i : ℕ) × (host : ℕ) × (get_elem? hosts i ≡ some host) × (to_string host ≡ ip)
