-- ===== src/Auth.antt =====
-- Authentication from an encoded token on: `JWT.decode` of backend/msm/common/jwt.py and the
-- dependencies of apiserver/auth.py and apiserver/user/auth.py. `jose` is `jwt.decode` of the JOSE
-- library under the key and issuer of the configuration, and `uuid` is the constructor of UUIDs.
pub mod Soundness
pub mod Audiences
mod Tests
use maas_site_manager.Common.{
  ℕ, String, Bool, true, false, not, Option, none, some, List, [], ◌∷◌, ◌&&◌, ◌||◌, ◌==◌,
  if◌then◌else◌, str_eq,
}
use maas_site_manager.Common.Result.{
  Result, Tx, ok, raise, unauthorized, forbidden, value_error, ◌>>=◌, ◌>>◌, pure, fail, raise_if,
}
use maas_site_manager.Sites.Tables.{
  TokenAudience, TokenPurpose, TokenRow, worker, access, audience_eq, purpose_eq, is_expired,
}
use maas_site_manager.Sites.Tables
use maas_site_manager.Sites.Tokens
use maas_site_manager.Users.Tables.{UserRow}
use maas_site_manager.Users.Tables as UserTables
use maas_site_manager.Users.Handlers.{authenticated_user}

-- The entries of a payload that are read.
pub record Payload : Type 0 where
  pub sub : Option String
  pub iss : Option String
  pub aud : Option (List String)
  pub iat : Option ℕ
  pub exp : Option ℕ
  pub purpose : Option String

abbrev pub Jose : Type 0
Jose = String → Option TokenAudience → Option Payload

abbrev pub is_some : {A : Type 0} → Option A → Bool
is_some none = false
is_some (some a) = true

abbrev pub has_required : Payload → Bool
has_required p =
    is_some p.sub && (is_some p.iss && (is_some p.aud && (is_some p.iat && is_some p.exp)))

-- The property `purpose` is the one wanted: an empty one is none, and one that is not known raises a
-- ValueError.
pub data Comparison : Type 0 where
  same other unknown_value : Comparison

abbrev pub compare_purpose : Option String → TokenPurpose → Comparison
compare_purpose none wanted = other
compare_purpose (some p) wanted =
    if str_eq p ""
    then other
    else if str_eq p "enrollment"
    then (if purpose_eq TokenPurpose.enrolment wanted then same else other)
    else if str_eq p "access"
    then (if purpose_eq access wanted then same else other)
    else unknown_value

pub data Decoded : Type 0 where
  token : Payload → Decoded
  invalid_token value_error_raised : Decoded

abbrev pub check_purpose : Option TokenPurpose → Payload → Decoded
check_purpose none p = token p
check_purpose (some wanted) p = elim (compare_purpose p.purpose wanted) [
  | same ↦ token p
  | other ↦ invalid_token
  | unknown_value ↦ value_error_raised
]

abbrev pub check_payload : Option TokenPurpose → Option Payload → Decoded
check_payload purpose none = invalid_token
check_payload purpose (some p) = if has_required p then check_purpose purpose p else invalid_token

module _ (jose : Jose) (uuid : String → Option ℕ) where
  -- `JWT.decode`
  abbrev pub decode : String → Option TokenAudience → Option TokenPurpose → Decoded
  decode encoded audience purpose = check_payload purpose (jose encoded audience)

  abbrev pub subject_id : Payload → Result ℕ
  subject_id p = elim p.sub [
    | none ↦ raise value_error
    | some s ↦ elim (uuid s) [ none ↦ raise value_error | some id ↦ ok id ]
  ]

  abbrev pub with_audience : TokenAudience → Result ℕ → Result (ℕ × TokenAudience)
  with_audience a (ok id) = ok (id, a)
  with_audience a (raise e) = raise e

  -- One turn of the loop: the answer, or what the rest of the loop answers.
  abbrev pub answer :
      TokenAudience → Result (ℕ × TokenAudience) → Decoded → Result (ℕ × TokenAudience)
  answer a rest (token p) = with_audience a (subject_id p)
  answer a rest invalid_token = rest
  answer a rest value_error_raised = rest

  -- `auth_id_dep` of `auth_id_from_token_multi_aud`
  pub auth_id_from_token_multi_aud :
      List TokenAudience → Option TokenPurpose → String → Result (ℕ × TokenAudience)
  auth_id_from_token_multi_aud [] purpose encoded = raise unauthorized
  auth_id_from_token_multi_aud (a ∷ audiences) purpose encoded =
      answer a (auth_id_from_token_multi_aud audiences purpose encoded)
        (decode encoded (some a) purpose)

-- The tables that authentication reads.
pub record Services : Type 0 where
  pub users : UserTables.Db
  pub tokens : Tables.Db

pub data Principal : Type 0 where
  user : UserRow → Principal
  worker_of : ℕ → Principal

abbrev with_users : {A : Type 0} → Services → Result (A × UserTables.Db) → Result (A × Services)
with_users s (ok (a, d)) = ok (a, record s { users = d })
with_users s (raise e) = raise e

abbrev on_users : {A : Type 0} → Tx UserTables.Db A → Tx Services A
on_users m s = with_users s (m s.users)

abbrev with_tokens : {A : Type 0} → Services → Result (A × Tables.Db) → Result (A × Services)
with_tokens s (ok (a, d)) = ok (a, record s { tokens = d })
with_tokens s (raise e) = raise e

abbrev on_tokens : {A : Type 0} → Tx Tables.Db A → Tx Services A
on_tokens m s = with_tokens s (m s.tokens)

abbrev pub is_stale : Option TokenRow → ℕ → Bool
is_stale none now = true
is_stale (some t) now = is_expired t now

unfoldable pub authenticated_worker : ℕ → ℕ → Tx Services Principal
authenticated_worker auth_id now = do
  db_token ← on_tokens (Tokens.get_by_auth_id auth_id worker access)
  raise_if (is_stale db_token now) unauthorized
  pure (worker_of auth_id)

unfoldable pub verify_authenticated_user_or_worker : ℕ × TokenAudience → ℕ → Tx Services Principal
verify_authenticated_user_or_worker (auth_id, aud) now =
    if audience_eq aud worker
    then authenticated_worker auth_id now
    else (do u ← on_users (authenticated_user auth_id); pure (user u))

unfoldable pub verify_authenticated_admin_or_worker : ℕ × TokenAudience → ℕ → Tx Services Principal
verify_authenticated_admin_or_worker (auth_id, aud) now =
    if audience_eq aud worker then authenticated_worker auth_id now else (do
      u ← on_users (authenticated_user auth_id)
      raise_if (not u.is_admin) forbidden
      pure (user u))
