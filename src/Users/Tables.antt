-- ===== src/Users/Tables.antt =====
-- The table of users of backend/msm/apiserver/db/tables.py and the requests of db/models/user.py.
-- The email, the username and the authentication id of a row are unique.
use maas_site_manager.Common.{ℕ, String, Bool, false, Option, none, some, List, str_eq}

pub record UserRow : Type 0 where
  pub id : ℕ
  pub email : String
  pub username : String
  pub full_name : String
  pub password : String
  pub is_admin : Bool
  pub provider_id : Option ℕ
  pub auth_id : ℕ

pub record Db : Type 0 where
  pub users : List UserRow
  pub user_sequence : ℕ

pub record UserCreate : Type 0 where
  pub email : String
  pub username : String
  pub full_name : String
  pub password : String
  pub is_admin : Bool
  pub provider_id : Option ℕ

pub record UserUpdate : Type 0 where
  pub username : Option String
  pub full_name : Option String
  pub email : Option String
  pub password : Option String
  pub is_admin : Option Bool

pub record UsersPatchMeRequest : Type 0 where
  pub username : Option String
  pub full_name : Option String
  pub email : Option String

-- The columns of which `exists` reports a conflict.
pub data Field : Type 0 where
  email username : Field

abbrev pub is_value : Option String → String → Bool
is_value none s = false
is_value (some t) s = str_eq s t
