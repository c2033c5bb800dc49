-- ===== src/Sites/Handlers.antt =====
-- The request handlers of enrolment: backend/msm/apiserver/site/handlers/enroll.py, site/auth.py.
-- A handler is given the UUID that `auth_id_from_token` took from a verified JWT, and the clock.
use maas_site_manager.Common.{
  ℕ, ◌*◌, String, Bool, true, not, ◌||◌, Option, none, some, [], ◌∷◌, if◌then◌else◌,
}
use maas_site_manager.Common.Result.{Tx, unauthorized, ◌>>=◌, ◌>>◌, pure, fail, raise_if, one}
use maas_site_manager.Sites.Tables.{
  site, enrolment, access, Coordinates, SiteRow, TokenRow, Db, is_null, is_expired,
}
use maas_site_manager.Sites.Tokens.{Grant, Sign, create}
use maas_site_manager.Sites.Tokens
use maas_site_manager.Sites.Service.{
  PendingSiteCreate, create_or_update_pending, get_enrolling, get_by_auth_id, remove_old_tokens,
}
use maas_site_manager.Sites.Service.Stats.{update_last_seen}

pub record SiteMetadata : Type 0 where
  pub city : Option String
  pub country : Option String
  pub coordinates : Option Coordinates
  pub note : Option String
  pub state : Option String
  pub address : Option String
  pub postal_code : Option String
  pub timezone : Option String

pub record EnrollPostRequest : Type 0 where
  pub name : String
  pub url : String
  pub cluster_uuid : String
  pub metadata : Option SiteMetadata

abbrev pub no_metadata : SiteMetadata
no_metadata = record {
  city = none;
  country = none;
  coordinates = none;
  note = none;
  state = none;
  address = none;
  postal_code = none;
  timezone = none;
}

abbrev pub metadata_or_empty : Option SiteMetadata → SiteMetadata
metadata_or_empty none = no_metadata
metadata_or_empty (some m) = m

abbrev pub pending_site : EnrollPostRequest → ℕ → PendingSiteCreate
pending_site r auth_id =
    let m = metadata_or_empty r.metadata in
    record {
      name = r.name;
      url = r.url;
      cluster_uuid = r.cluster_uuid;
      auth_id = auth_id;
      city = m.city;
      country = m.country;
      coordinates = m.coordinates;
      note = m.note;
      state = m.state;
      address = m.address;
      postal_code = m.postal_code;
      timezone = m.timezone;
    }

-- A token that may enrol a site: known, not expired, on no site.
abbrev pub is_refused : Option TokenRow → ℕ → Bool
is_refused none now = true
is_refused (some t) now = is_expired t now || not (is_null t.site_id)

-- `post`
unfoldable pub enroll : ℕ → ℕ → EnrollPostRequest → Tx Db Unit
enroll auth_id now request = do
  db_token ← Tokens.get_by_auth_id auth_id site enrolment
  raise_if (is_refused db_token now) unauthorized
  create_or_update_pending (pending_site request auth_id) now
  pure tt

-- The settings that the token responses read.
pub record Settings : Type 0 where
  pub token_lifetime_minutes : ℕ
  pub token_rotation_interval_minutes : ℕ
  pub minute : ℕ

pub record AccessTokenResponse : Type 0 where
  pub access_token : String
  pub rotation_interval_minutes : ℕ

abbrev pub access_grant : Settings → ℕ → Grant
access_grant settings site_id = record {
  duration = settings.token_lifetime_minutes * settings.minute;
  audience = site;
  purpose = access;
  site_id = some site_id;
}

abbrev pub issue : Sign → Settings → ℕ → ℕ → ℕ → Tx Db AccessTokenResponse
issue sign settings now fresh site_id = do
  tokens ← create sign (access_grant settings site_id) now (fresh ∷ [])
  token ← one tokens
  pure (record {
    access_token = token.value;
    rotation_interval_minutes = settings.token_rotation_interval_minutes;
  })

-- `get`: `none` is the 204 of a site that is still pending.
abbrev pub answer : Sign → Settings → ℕ → ℕ → Option SiteRow → Tx Db (Option AccessTokenResponse)
answer sign settings now fresh none = fail unauthorized
answer sign settings now fresh (some r) =
    if r.accepted then (do t ← issue sign settings now fresh r.id; pure (some t)) else pure none

unfoldable pub enroll_status : Sign → Settings → ℕ → ℕ → ℕ → Tx Db (Option AccessTokenResponse)
unfolding create
enroll_status sign settings auth_id now fresh = do
  found ← get_enrolling auth_id
  answer sign settings now fresh found

-- `authenticated_site`: a request of a site moves its `last_seen`.
abbrev seen : ℕ → Option SiteRow → Tx Db SiteRow
seen now none = fail unauthorized
seen now (some r) = do update_last_seen r.id now; pure r

unfoldable pub authenticated_site : ℕ → ℕ → Tx Db SiteRow
authenticated_site auth_id now = do found ← get_by_auth_id auth_id; seen now found

unfoldable pub refresh : Sign → Settings → ℕ → ℕ → ℕ → Tx Db AccessTokenResponse
unfolding authenticated_site create
refresh sign settings auth_id now fresh = do
  r ← authenticated_site auth_id now
  issue sign settings now fresh r.id

unfoldable pub verify : ℕ → ℕ → Tx Db Unit
unfolding authenticated_site
verify auth_id now = do r ← authenticated_site auth_id now; remove_old_tokens r.id auth_id
