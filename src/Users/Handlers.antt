-- ===== src/Users/Handlers.antt =====
-- The handlers of user/handlers/users.py that look up or change users, and `authenticate_user` of
-- user/auth.py. `me` is the row of the user that the dependency of the handler has authenticated.
use maas_site_manager.Common.{
  ℕ, String, Bool, true, false, Option, none, some, List, [], ◌∷◌, ◌==◌, ◌&&◌, not, if◌then◌else◌,
}
use maas_site_manager.Common.Result.{
  Tx, unauthorized, forbidden, bad_request, not_found, ◌>>=◌, ◌>>◌, pure, fail, raise_if,
}
use maas_site_manager.Users.Tables.{UserRow, Db, UserCreate, UserUpdate, UsersPatchMeRequest, Field}
use maas_site_manager.Users.Service.{
  get_by_email, get_by_id, get_by_auth_id, create, id_exists, exists, update_password, update_user,
  password_matches, delete_user,
}

-- `authenticated_user`, from the UUID of a verified JWT on
unfoldable pub authenticated_user : ℕ → Tx Db UserRow
authenticated_user auth_id = do
  user ← get_by_auth_id auth_id
  elim user [ none ↦ fail unauthorized | some r ↦ pure r ]

unfoldable pub authenticated_admin : ℕ → Tx Db UserRow
authenticated_admin auth_id = do
  user ← authenticated_user auth_id
  raise_if (not user.is_admin) forbidden
  pure user

abbrev pub matching : (String → String → Bool) → String → Option UserRow → Tx Db (Option UserRow)
matching verify p none = pure none
matching verify p (some r) = do
  matches ← password_matches verify r.id p
  pure (if matches then some r else none)

unfoldable pub authenticate_user :
    (String → String → Bool) → String → String → Tx Db (Option UserRow)
authenticate_user verify email p = do user ← get_by_email email; matching verify p user

-- Whether `check_for_existing_user` answers with details.
abbrev pub has_details : Option (List Field) → Bool
has_details none = false
has_details (some []) = false
has_details (some (f ∷ fs)) = true

unfoldable pub get_id : ℕ → Tx Db UserRow
get_id id = do user ← get_by_id id; elim user [ none ↦ fail not_found | some r ↦ pure r ]

-- `models.UserUpdate(**patch_request.model_dump())`: what the request does not have is not set.
abbrev pub self_update : UsersPatchMeRequest → UserUpdate
self_update p = record {
  username = p.username;
  full_name = p.full_name;
  email = p.email;
  password = none;
  is_admin = none;
}

unfoldable pub patch_me : (String → String) → UserRow → UsersPatchMeRequest → Tx Db UserRow
patch_me hash me p = do
  details ← exists p.email p.username (some me.id)
  raise_if (has_details details) bad_request
  update_user hash me.id (self_update p)

unfoldable pub patch_me_password :
    (String → String) → (String → String → Bool) → UserRow → String → String → Tx Db Unit
patch_me_password hash verify me current new = do
  user ← authenticate_user verify me.email current
  elim user [ none ↦ fail bad_request | some r ↦ update_password hash me.id new ]

unfoldable pub post : (String → String) → ℕ → UserCreate → Tx Db UserRow
post hash auth_id c = do
  details ← exists (some c.email) (some c.username) none
  raise_if (has_details details) bad_request
  create hash auth_id c

abbrev pub is_false : Option Bool → Bool
is_false none = false
is_false (some b) = not b

unfoldable pub patch : (String → String) → UserRow → ℕ → UserUpdate → Tx Db UserRow
patch hash me id u = do
  raise_if ((id == me.id) && is_false u.is_admin) forbidden
  there ← id_exists id
  raise_if (not there) not_found
  details ← exists u.email u.username (some id)
  raise_if (has_details details) bad_request
  update_user hash id u

unfoldable pub delete : UserRow → ℕ → Tx Db Unit
delete me id = do raise_if (me.id == id) bad_request; delete_user id
