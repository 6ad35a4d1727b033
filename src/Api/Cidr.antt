-- ===== src/Api/Cidr.antt =====
-- src/api/admin.rs: the change of the interface's networks, which gives every client new addresses.
-- What the database and the save of the configuration answer are arguments.
pub mod Laws
mod Tests
use awg_easy_rs.Prelude.{ℕ, List, [], ◌∷◌, ◌++◌, Option, none, some, Bool, true, false, not}
use awg_easy_rs.Prelude.Ints.{ℤ}
use awg_easy_rs.Prelude.Results.{Result, ok, err, fail_if, ◌>>=◌}
use awg_easy_rs.Db.{Client}
use awg_easy_rs.Db.Addresses.{Net, AddressError, next_ipv4, next_ipv6}

pub record ChangeCidrRequest : Type 0 where
  pub ipv4_cidr : List ℕ
  pub ipv6_cidr : List ℕ

-- A call of `db::update_client` with the fields of the loop.
pub record ClientUpdate : Type 0 where
  pub id : ℤ
  pub ipv4_address : List ℕ
  pub ipv6_address : Option (List ℕ)

pub data ChangeError : Type 0 where
  refused database not_saved : ChangeError
  address : AddressError → ChangeError

unfoldable pub push_some : Option (List ℕ) → List (List ℕ) → List (List ℕ)
push_some none used = used
push_some (some ip) used = used ++ (ip ∷ [])

unfoldable pub update_of : Client → List ℕ → Option (List ℕ) → ClientUpdate
update_of client v4 v6 = record { id = client.id; ipv4_address = v4; ipv6_address = v6 }

-- The updates that were made, and how the loop ended.
abbrev pub Outcome : Type 0
Outcome = List ClientUpdate × Result ChangeError (Unit {0})

unfoldable pub written : Bool → ClientUpdate → Outcome → Outcome
written true u (updates, result) = (u ∷ updates, result)
written false u rest = ([], err database)

unfoldable pub then_save : Bool → Outcome → Outcome
then_save saved (updates, ok u) = (updates, fail_if (not saved) not_saved)
then_save saved (updates, err e) = (updates, err e)

module _ (parse_v4 parse_v6 : List ℕ → Option Net) (text_v4 text_v6 : ℕ → List ℕ) where
  -- An empty text is no network.
  unfoldable pub choose_v6 : List ℕ → List (List ℕ) → Result AddressError (Option (List ℕ))
  choose_v6 [] used = ok none
  choose_v6 (b ∷ cidr) used = do ip ← next_ipv6 parse_v6 text_v6 (b ∷ cidr) used; ok (some ip)

  unfoldable pub choose :
      ChangeCidrRequest
      → List (List ℕ)
      → List (List ℕ)
      → Result AddressError (List ℕ × Option (List ℕ))
  choose body used_v4 used_v6 = do
    new_v4 ← next_ipv4 parse_v4 text_v4 body.ipv4_cidr used_v4
    new_v6 ← choose_v6 body.ipv6_cidr used_v6
    ok (new_v4, new_v6)

  -- The loop over the clients. `accepts` says which updates the database carries out.
  unfoldable pub reassign :
      (ClientUpdate → Bool)
      → ChangeCidrRequest
      → List (List ℕ)
      → List (List ℕ)
      → List Client
      → Outcome
  reassign accepts body used_v4 used_v6 [] = ([], ok tt)
  reassign accepts body used_v4 used_v6 (client ∷ clients) = elim (choose body used_v4 used_v6) [
    | err e ↦ ([], err (address e))
    | ok (v4, v6) ↦
        written (accepts (update_of client v4 v6)) (update_of client v4 v6)
          (reassign accepts body (used_v4 ++ (v4 ∷ [])) (push_some v6 used_v6) clients)
  ]

  -- `update_cidr` comes before the loop, and is not undone.
  unfoldable pub change_cidr :
      Bool → Bool → Bool → (ClientUpdate → Bool) → ChangeCidrRequest → List Client → Outcome
  change_cidr false stored saved accepts body clients = ([], err refused)
  change_cidr true false saved accepts body clients = ([], err database)
  change_cidr true true saved accepts body clients =
      then_save saved (reassign accepts body [] [] clients)
