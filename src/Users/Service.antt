-- ===== src/Users/Service.antt =====
-- `UserService`. `hash` is `hash_password` and `verify` is `verify_password` of common/password.py,
-- which passlib computes.
use maas_site_manager.Common.{
  ℕ, suc, String, Bool, true, false, Option, none, some, List, [], ◌∷◌, ◌++◌, ◌&&◌, ◌||◌, not, ◌==◌,
  is_none, select, any, length, if◌then◌else◌, str_eq,
}
use maas_site_manager.Common.Result.{
  Tx, integrity_error, programming_error, ◌>>=◌, ◌>>◌, pure, gets, modify, raise_if, one,
  one_or_none,
}
use maas_site_manager.Common.Rows.{update, delete}
use maas_site_manager.Users.Tables.{
  UserRow, Db, UserCreate, UserUpdate, Field, email, username, is_value,
}

abbrev pub has_id : ℕ → UserRow → Bool
has_id id r = r.id == id

abbrev pub has_email : String → UserRow → Bool
has_email e r = str_eq r.email e

abbrev pub has_username : String → UserRow → Bool
has_username n r = str_eq r.username n

unfoldable pub get_by_email : String → Tx Db (Option UserRow)
get_by_email e = do rows ← gets (λ d. select (has_email e) d.users); one_or_none rows

unfoldable pub get_by_id : ℕ → Tx Db (Option UserRow)
get_by_id id = do rows ← gets (λ d. select (has_id id) d.users); one_or_none rows

unfoldable pub get_by_auth_id : ℕ → Tx Db (Option UserRow)
get_by_auth_id auth_id = do
  rows ← gets (λ d. select (λ r. r.auth_id == auth_id) d.users)
  one_or_none rows

-- Python's truth of a string.
abbrev pub truthy : Option String → Bool
truthy none = false
truthy (some s) = not (str_eq s "")

abbrev pub hashed : (String → String) → String → String
hashed hash p = if truthy (some p) then hash p else p

abbrev pub new_user : (String → String) → ℕ → UserCreate → ℕ → UserRow
new_user hash auth_id c id = record {
  id = id;
  email = c.email;
  username = c.username;
  full_name = c.full_name;
  password = hashed hash c.password;
  is_admin = c.is_admin;
  provider_id = c.provider_id;
  auth_id = auth_id;
}

-- The columns that the table of users declares unique.
abbrev pub collides : String → String → ℕ → UserRow → Bool
collides e n auth_id r = has_email e r || (has_username n r || (r.auth_id == auth_id))

abbrev pub insert_user : (String → String) → ℕ → UserCreate → Tx Db UserRow
insert_user hash auth_id c = do
  id ← gets (λ d. d.user_sequence)
  modify
      (λ d. record d { users = d.users ++ new_user hash auth_id c id ∷ []; user_sequence = suc id })
  pure (new_user hash auth_id c id)

-- The database refuses a row that is not unique; the handler `post` tests email and username before.
unfoldable pub create : (String → String) → ℕ → UserCreate → Tx Db UserRow
create hash auth_id c = do
  taken ← gets (λ d. any (collides c.email c.username auth_id) d.users)
  raise_if taken integrity_error
  insert_user hash auth_id c

unfoldable pub id_exists : ℕ → Tx Db Bool
id_exists id = gets (λ d. any (has_id id) d.users)

-- The filter of `exists`, where it makes one.
abbrev pub user_filter : Option String → Option String → UserRow → Bool
user_filter e n r =
    if not (truthy n)
    then is_value e r.email
    else if not (truthy e)
    then is_value n r.username
    else (is_value e r.email || is_value n r.username)

abbrev pub is_other : Option ℕ → UserRow → Bool
is_other none r = true
is_other (some id) r = not (r.id == id)

abbrev pub conflicting : Option String → Option String → UserRow → List Field
conflicting e n r =
    (if is_value e r.email then email ∷ [] else [])
    ++ (if is_value n r.username then username ∷ [] else [])

-- The first of the rows, if any: `search.first()`.
abbrev pub conflicts_of : Option String → Option String → List UserRow → Option (List Field)
conflicts_of e n [] = none
conflicts_of e n (r ∷ rs) = some (conflicting e n r)

-- With nothing to look for there is no conflict.
abbrev pub reported : Option String → Option String → List UserRow → Option (List Field)
reported e n rows = if not (truthy e) && not (truthy n) then none else conflicts_of e n rows

unfoldable pub exists : Option String → Option String → Option ℕ → Tx Db (Option (List Field))
exists e n exclude_id = do
  rows ← gets (λ d. select (λ r. user_filter e n r && is_other exclude_id r) d.users)
  pure (reported e n rows)

unfoldable pub update_password : (String → String) → ℕ → String → Tx Db Unit
update_password hash id p =
    modify
      (λ d. record d { users = update (has_id id) (λ r. record r { password = hash p }) d.users })

abbrev pub value_or : {A : Type 0} → Option A → A → A
value_or none a = a
value_or (some b) a = b

abbrev pub new_password : (String → String) → Option String → String → String
new_password hash none old = old
new_password hash (some p) old = hashed hash p

abbrev pub with_update : (String → String) → UserUpdate → UserRow → UserRow
with_update hash u r = record r {
  username = value_or u.username r.username;
  full_name = value_or u.full_name r.full_name;
  email = value_or u.email r.email;
  password = new_password hash u.password r.password;
  is_admin = value_or u.is_admin r.is_admin;
}

-- Another row has the email or the username that the update writes.
abbrev pub is_taken : ℕ → UserUpdate → UserRow → Bool
is_taken id u r = not (r.id == id) && (is_value u.email r.email || is_value u.username r.username)

-- No column is set.
abbrev pub sets_nothing : UserUpdate → Bool
sets_nothing u =
    is_none u.username
    && (is_none u.full_name && (is_none u.email && (is_none u.password && is_none u.is_admin)))

unfoldable pub update_user : (String → String) → ℕ → UserUpdate → Tx Db UserRow
update_user hash id u = do
  raise_if (sets_nothing u) programming_error
  taken ← gets (λ d. any (has_id id) d.users && any (is_taken id u) d.users)
  raise_if taken integrity_error
  modify (λ d. record d { users = update (has_id id) (with_update hash u) d.users })
  rows ← gets (λ d. select (has_id id) d.users)
  one rows

abbrev pub stored_password : Option UserRow → Option String
stored_password none = none
stored_password (some r) = some r.password

unfoldable pub password_matches : (String → String → Bool) → ℕ → String → Tx Db Bool
password_matches verify id p = do
  rows ← gets (λ d. select (has_id id) d.users)
  row ← one_or_none rows
  pure (elim (stored_password row) [ none ↦ false | some h ↦ verify p h ])

abbrev pub has_provider : ℕ → Option ℕ → Bool
has_provider id none = false
has_provider id (some p) = p == id

unfoldable pub count_by_provider : ℕ → Tx Db ℕ
count_by_provider id = gets (λ d. length (select (λ r. has_provider id r.provider_id) d.users))

unfoldable pub delete_user : ℕ → Tx Db Unit
delete_user id = modify (λ d. record d { users = delete (has_id id) d.users })
