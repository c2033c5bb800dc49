-- ===== src/Users/Tests.antt =====
-- Requests on a table of two users. The hash of these tests is the same for all passwords.
use maas_site_manager.Common.{
  ℕ, ◌≡◌, refl, String, Bool, true, false, none, some, [], ◌∷◌, List, arith, str_eq,
}
use maas_site_manager.Common.Result.{ok, raise, integrity_error}
use maas_site_manager.Common.Rows.{update}
use maas_site_manager.Users.Tables.{UserRow, Db, UserCreate, UserUpdate}
use maas_site_manager.Users.Service
use maas_site_manager.Users.Service.{has_id, new_user, with_update}
use maas_site_manager.Users.Handlers.{post, patch, patch_me_password, authenticate_user}
use maas_site_manager.Users.Requests.{Request, post_user, patch_user, delete_user, serve}
use maas_site_manager.Users.Admins.{has_admin}
use maas_site_manager.Users.Accounts.{IsWellFormed, serve-has_admin}
use maas_site_manager.Users.Outcomes.{post_lem, patch_lem}
use maas_site_manager.Users.Passwords.{with_password, patch_me_password_lem}

abbrev hash : String → String
hash p = "#"

abbrev verify : String → String → Bool
verify p h = str_eq h "#"

abbrev user : ℕ → String → Bool → ℕ → UserRow
user id name is_admin auth_id = record {
  id = id;
  email = name;
  username = name;
  full_name = name;
  password = "#";
  is_admin = is_admin;
  provider_id = none;
  auth_id = auth_id;
}

abbrev db : Db
db = record { users = user 1 "ann" true 71 ∷ user 2 "bob" false 72 ∷ []; user_sequence = 3 }

abbrev eve : UserCreate
eve = record {
  email = "eve";
  username = "eve";
  full_name = "";
  password = "secret";
  is_admin = true;
  provider_id = none;
}

abbrev demote : UserUpdate
demote = record {
  username = none;
  full_name = none;
  email = some "ann@new";
  password = none;
  is_admin = some false;
}

abbrev requests : List Request
requests = patch_user 71 1 demote ∷ delete_user 71 1 ∷ post_user 71 73 eve ∷ delete_user 73 1 ∷ []

db-IsWellFormed : IsWellFormed db
db-IsWellFormed = record {
  ids = (refl, (refl, tt));
  emails = (refl, (refl, tt));
  usernames = (refl, (refl, tt));
  auth_ids = (refl, (refl, tt));
  ids_drawn = (omega arith, (omega arith, tt));
}

serve-has_admin_example : has_admin (serve hash verify requests db) ≡ true
serve-has_admin_example = serve-has_admin hash verify requests db refl

abbrev nameless : UserCreate
nameless = record {
  email = "new";
  username = "";
  full_name = "";
  password = "secret";
  is_admin = false;
  provider_id = none;
}

abbrev nameless_db : Db
nameless_db = record {
  users = (record (user 1 "ann" true 71) { username = "" }) ∷ [];
  user_sequence = 2;
}

-- The check of an existing user passes over an empty username, the constraint of the table does not.
empty_username : post hash 73 nameless nameless_db ≡ raise integrity_error
unfolding post Service.exists Service.create
empty_username = refl

post_lem_example :
    post hash 73 eve db
    ≡ ok (
      new_user hash 73 eve 3,
      record {
        users = user 1 "ann" true 71 ∷ user 2 "bob" false 72 ∷ new_user hash 73 eve 3 ∷ [];
        user_sequence = 4;
      },
    )
post_lem_example = post_lem hash 73 eve db refl refl refl

patch_lem_example :
    patch hash (user 1 "ann" true 71) 2 demote db
    ≡ ok (
      with_update hash demote (user 2 "bob" false 72),
      record db { users = update (has_id 2) (with_update hash demote) db.users },
    )
patch_lem_example =
    patch_lem hash (user 1 "ann" true 71) 2 demote (user 2 "bob" false 72) db refl refl refl

patch_me_password_lem_example :
    (patch_me_password hash verify (user 2 "bob" false 72) "old" "new" db
      ≡ ok (tt, with_password hash 2 "new" db))
    × (authenticate_user verify "bob" "new" (with_password hash 2 "new" db)
        ≡ ok (some (user 2 "bob" false 72), with_password hash 2 "new" db))
patch_me_password_lem_example =
    patch_me_password_lem hash verify (user 2 "bob" false 72) "old" "new" db db-IsWellFormed refl
      refl
