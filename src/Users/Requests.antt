-- ===== src/Users/Requests.antt =====
-- Requests about users from their authentication on, and sequences of them.
use maas_site_manager.Common.{ℕ, String, Bool, List, [], ◌∷◌}
use maas_site_manager.Common.Result.{Tx, ◌>>=◌, ◌>>◌, pure, after}
use maas_site_manager.Users.Tables.{Db, UserCreate, UserUpdate, UsersPatchMeRequest}
use maas_site_manager.Users.Handlers.{
  authenticated_user, authenticated_admin, post, patch, patch_me, patch_me_password, delete,
}

-- Each with the authentication id of the user who makes it.
pub data Request : Type 0 where
  post_user : ℕ → ℕ → UserCreate → Request
  patch_user : ℕ → ℕ → UserUpdate → Request
  patch_self : ℕ → UsersPatchMeRequest → Request
  patch_password : ℕ → String → String → Request
  delete_user : ℕ → ℕ → Request

module _ (hash : String → String) (verify : String → String → Bool) where
  unfoldable pub handle : Request → Tx Db Unit
  handle (post_user who auth_id c) = do authenticated_admin who; post hash auth_id c; pure tt
  handle (patch_user who id u) = do me ← authenticated_admin who; patch hash me id u; pure tt
  handle (patch_self who p) = do me ← authenticated_user who; patch_me hash me p; pure tt
  handle (patch_password who current new) = do
    me ← authenticated_user who
    patch_me_password hash verify me current new
  handle (delete_user who id) = do me ← authenticated_admin who; delete me id

  unfoldable pub serve : List Request → Db → Db
  serve [] d = d
  serve (r ∷ rs) d = serve rs (after (handle r) d)
