-- ===== src/Api/Cidr/Tests.antt =====
-- Runs of the change of the networks, on networks given as the text of their first host's number.
use awg_easy_rs.Prelude.{
  ℕ, ◌+◌, ◌≡◌, refl, List, [], ◌∷◌, Option, none, some, All, true, codes, decimal,
}
use awg_easy_rs.Prelude.Ints.{pos}
use awg_easy_rs.Prelude.Results.{ok, err}
use awg_easy_rs.Db.{Client}
use awg_easy_rs.Db.Addresses.{Net, AddressError}
use awg_easy_rs.Db.Addresses.Laws.{IsFree}
use awg_easy_rs.Api.Cidr.{ChangeCidrRequest, ClientUpdate, ChangeError, change_cidr, address}
use awg_easy_rs.Api.Cidr.Laws.{
  change_cidr-AreDifferent, update_ids, client_ids, v4_addresses, AreDifferent,
}

-- Networks of one digit: the number is the address, and four hosts follow it.
abbrev parse_net : List ℕ → Option Net
parse_net (b ∷ []) = some (record { addr = b; hosts = (b + 1) ∷ (b + 2) ∷ (b + 3) ∷ [] })
parse_net _ = none

abbrev client : ℕ → Client
client n = record {
  id = pos n;
  user_id = none;
  interface_id = none;
  name = codes "laptop";
  ipv4_address = none;
  ipv6_address = none;
  private_key = [];
  public_key = [];
  pre_shared_key = none;
  pre_up = none;
  post_up = none;
  pre_down = none;
  post_down = none;
  expires_at = none;
  allowed_ips = none;
  server_allowed_ips = none;
  firewall_ips = none;
  persistent_keepalive = pos 0;
  mtu = pos 1420;
  j_c = none;
  j_min = none;
  j_max = none;
  i1 = none;
  i2 = none;
  i3 = none;
  i4 = none;
  i5 = none;
  dns = none;
  server_endpoint = none;
  advanced_security = none;
  additional_config = none;
  enabled = true;
  created_at = [];
  updated_at = [];
}

abbrev two_clients : List Client
two_clients = client 1 ∷ client 5 ∷ []

abbrev three_clients : List Client
three_clients = client 1 ∷ client 5 ∷ client 7 ∷ []

abbrev body : ChangeCidrRequest
body = record { ipv4_cidr = 10 ∷ []; ipv6_cidr = [] }

abbrev two_updates : List ClientUpdate
two_updates =
    record { id = pos 1; ipv4_address = 49 ∷ 50 ∷ []; ipv6_address = none }
    ∷ record { id = pos 5; ipv4_address = 49 ∷ 51 ∷ []; ipv6_address = none }
    ∷ []

two_given :
    change_cidr parse_net parse_net decimal decimal true true true (λ u. true) body two_clients
    ≡ (two_updates, ok tt)
unfolding change_cidr awg_easy_rs.Api.Cidr.then_save awg_easy_rs.Api.Cidr.reassign
    awg_easy_rs.Api.Cidr.choose awg_easy_rs.Db.Addresses.next_ipv4
    awg_easy_rs.Db.Addresses.first_host awg_easy_rs.Db.Addresses.free_v4
    awg_easy_rs.Prelude.Strings.same_text decimal awg_easy_rs.Db.Addresses.server_v4
    awg_easy_rs.Db.Addresses.is_used awg_easy_rs.Api.Cidr.choose_v6 awg_easy_rs.Api.Cidr.written
    awg_easy_rs.Api.Cidr.update_of
two_given = refl

-- A third client has no address left; the first two keep their new ones.
third_refused :
    change_cidr parse_net parse_net decimal decimal true true true (λ u. true) body three_clients
    ≡ (two_updates, err (address AddressError.no_address))
unfolding change_cidr awg_easy_rs.Api.Cidr.then_save awg_easy_rs.Api.Cidr.reassign
    awg_easy_rs.Api.Cidr.choose awg_easy_rs.Db.Addresses.next_ipv4
    awg_easy_rs.Db.Addresses.first_host awg_easy_rs.Db.Addresses.free_v4
    awg_easy_rs.Prelude.Strings.same_text decimal awg_easy_rs.Db.Addresses.server_v4
    awg_easy_rs.Db.Addresses.is_used awg_easy_rs.Api.Cidr.choose_v6 awg_easy_rs.Api.Cidr.written
    awg_easy_rs.Api.Cidr.update_of
third_refused = refl

change_cidr-AreDifferent_example :
    (update_ids two_updates ≡ client_ids two_clients)
    × AreDifferent (v4_addresses two_updates)
    × All (IsFree parse_net decimal (10 ∷ []) []) (v4_addresses two_updates)
change_cidr-AreDifferent_example =
    change_cidr-AreDifferent parse_net parse_net decimal decimal true true true (λ u. true) body
      two_clients two_updates two_given
