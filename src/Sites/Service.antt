-- ===== src/Sites/Service.antt =====
-- `SiteService` of backend/msm/apiserver/service/site.py: the enrolment life cycle of a site.
pub mod Stats
use maas_site_manager.Common.{
  ℕ, suc, ◌-◌, String, Bool, true, false, not, ◌&&◌, ◌||◌, Option, none, some, List, [], ◌∷◌, ◌++◌,
  map, ltb, ◌==◌, if◌then◌else◌, select, any, length, str_eq,
}
use maas_site_manager.Common.Result.{
  Tx, integrity_error, jwt_claim_failed, invalid_pending_sites, ◌>>=◌, ◌>>◌, pure, fail, gets,
  modify, raise_if, one, one_or_none,
}
use maas_site_manager.Common.Rows.{update, delete}
use maas_site_manager.Sites.Tables.{
  site, access, audience_eq, purpose_eq, Coordinates, SiteRow, TokenRow, SiteDataRow, Db, is_value,
  is_null,
}
use maas_site_manager.Sites.Tokens.{member}

-- `models.PendingSiteCreate`
pub record PendingSiteCreate : Type 0 where
  pub name : String
  pub url : String
  pub cluster_uuid : String
  pub auth_id : ℕ
  pub city : Option String
  pub country : Option String
  pub coordinates : Option Coordinates
  pub note : Option String
  pub state : Option String
  pub address : Option String
  pub postal_code : Option String
  pub timezone : Option String

-- A value that `model_dump(exclude_none=True)` leaves out does not change the column.
abbrev pub set_or_keep {ℓ} : {A : Type ℓ} → Option A → A → A
set_or_keep none old = old
set_or_keep (some v) old = v

abbrev pub set_or_keep_some {ℓ} : {A : Type ℓ} → Option A → Option A → Option A
set_or_keep_some none old = old
set_or_keep_some (some v) old = some v

-- The columns of `details.model_dump(exclude_none=True, exclude={"auth_id"})`, written to a row.
abbrev pub with_details : PendingSiteCreate → SiteRow → SiteRow
with_details p r = record r {
  name = p.name;
  url = p.url;
  cluster_uuid = p.cluster_uuid;
  city = set_or_keep p.city r.city;
  country = set_or_keep p.country r.country;
  coordinates = set_or_keep_some p.coordinates r.coordinates;
  note = set_or_keep p.note r.note;
  state = set_or_keep p.state r.state;
  address = set_or_keep p.address r.address;
  postal_code = set_or_keep p.postal_code r.postal_code;
  timezone = set_or_keep p.timezone r.timezone;
}

-- The column defaults of the table `site`.
abbrev pub default_site : ℕ → ℕ → SiteRow
default_site id now = record {
  id = id;
  name = "";
  url = "";
  cluster_uuid = "";
  accepted = false;
  created = now;
  deleted = none;
  city = "";
  country = "";
  coordinates = none;
  note = "";
  state = "";
  address = "";
  postal_code = "";
  timezone = "";
  version = none;
  known_config_options = [];
  trigger_image_sync = false;
  site_profile_id = none;
}

abbrev pub is_live : SiteRow → Bool
is_live r = is_null r.deleted

-- The test of `claim_jwt`: the token, on no site or on this one.
abbrev pub is_claimable : ℕ → ℕ → TokenRow → Bool
is_claimable site_id auth_id t =
    (t.auth_id == auth_id) && (is_null t.site_id || is_value t.site_id site_id)

unfoldable pub claim_jwt : ℕ → ℕ → Tx Db Unit
claim_jwt site_id auth_id = do
  claimed ← gets (λ d. select (is_claimable site_id auth_id) d.tokens)
  modify (λ d. record d {
    tokens =
        update (is_claimable site_id auth_id) (λ t. record t { site_id = some site_id }) d.tokens;
  })
  raise_if (not (length claimed == 1)) jwt_claim_failed

unfoldable pub remove_old_tokens : ℕ → ℕ → Tx Db Unit
remove_old_tokens site_id cur_auth_id = modify (λ d. record d {
  tokens =
      delete
        (λ t.
          is_value t.site_id site_id
          && (audience_eq t.audience site
              && (purpose_eq t.purpose access && not (t.auth_id == cur_auth_id))))
        d.tokens;
})

abbrev pub has_uuid : String → SiteRow → Bool
has_uuid uuid r = str_eq r.cluster_uuid uuid

abbrev pub as_pending : PendingSiteCreate → SiteRow → SiteRow
as_pending p r = record (with_details p r) { accepted = false }

unfoldable pub update_pending : PendingSiteCreate → Tx Db SiteRow
update_pending p = do
  rows ← gets (λ d. map (as_pending p) (select (has_uuid p.cluster_uuid) d.sites))
  modify (λ d. record d { sites = update (has_uuid p.cluster_uuid) (as_pending p) d.sites })
  row ← one rows
  claim_jwt row.id p.auth_id
  pure row

abbrev pub is_deleted_twin : String → SiteRow → Bool
is_deleted_twin uuid r = has_uuid uuid r && not (is_live r)

abbrev pub as_revived : PendingSiteCreate → SiteRow → SiteRow
as_revived p r = record (with_details p r) { accepted = false; deleted = none }

-- The insertion in its own savepoint.
abbrev pub insert_site : PendingSiteCreate → ℕ → Tx Db (List SiteRow)
insert_site p now s =
    let row = with_details p (default_site s.site_sequence now) in
    (do
      modify (λ d. record d { sites = d.sites ++ row ∷ []; site_sequence = suc d.site_sequence })
      pure (row ∷ []))
      s

-- The recovery after an `IntegrityError`: a deleted site of that UUID is used again.
abbrev pub revive_site : PendingSiteCreate → Tx Db (List SiteRow)
revive_site p = do
  rows ← gets (λ d. map (as_revived p) (select (is_deleted_twin p.cluster_uuid) d.sites))
  modify (λ d. record d { sites = update (is_deleted_twin p.cluster_uuid) (as_revived p) d.sites })
  raise_if (length rows == 0) integrity_error
  pure rows

-- `cluster_uuid` is the column that the table declares unique, beside the key.
unfoldable pub create_pending : PendingSiteCreate → ℕ → Tx Db SiteRow
create_pending p now = do
  collides ← gets (λ d. any (has_uuid p.cluster_uuid) d.sites)
  rows ← (if collides then revive_site p else insert_site p now)
  row ← one rows
  claim_jwt row.id p.auth_id
  pure row

unfoldable pub create_or_update_pending : PendingSiteCreate → ℕ → Tx Db SiteRow
create_or_update_pending p now = do
  found ← gets (λ d. any (λ r. is_live r && has_uuid p.cluster_uuid r) d.sites)
  if found then update_pending p else create_pending p now

abbrev pub is_pending : SiteRow → Bool
is_pending r = is_live r && not r.accepted

-- `get_pending`, all pages.
unfoldable pub get_pending : Tx Db (List SiteRow)
get_pending = gets (λ d. select is_pending d.sites)

abbrev pub missing : List ℕ → List ℕ → List ℕ
missing ids found = select (λ i. not (member i found)) ids

unfoldable pub accept_reject_pending : List ℕ → Bool → ℕ → Tx Db Unit
accept_reject_pending ids accept now = do
  pending_ids ← gets (λ d. map (λ r. r.id) (select (λ r. member r.id ids && is_pending r) d.sites))
  let unknown_ids = missing ids pending_ids
  raise_if (not (length unknown_ids == 0)) (invalid_pending_sites unknown_ids)
  modify (λ d. record d {
    sites =
        update (λ r. member r.id ids)
          (λ r. if accept then record r { accepted = true } else record r { deleted = some now })
          d.sites;
  })

-- `Site` joined with the tokens given, on the token's site.
unfoldable pub join_sites : List SiteRow → List TokenRow → List SiteRow
join_sites sites [] = []
join_sites sites (t ∷ ts) =
    select (λ r. is_live r && is_value t.site_id r.id) sites ++ join_sites sites ts

abbrev pub joined : Db → ℕ → List SiteRow
joined d auth_id = join_sites d.sites (select (λ t. t.auth_id == auth_id) d.tokens)

unfoldable pub get_enrolling : ℕ → Tx Db (Option SiteRow)
get_enrolling auth_id = do rows ← gets (λ d. joined d auth_id); one_or_none rows

unfoldable pub get_by_auth_id : ℕ → Tx Db (Option SiteRow)
get_by_auth_id auth_id = do rows ← gets (λ d. joined d auth_id); one_or_none rows

unfoldable pub get_by_id : ℕ → Tx Db (Option SiteRow)
get_by_id id = do
  rows ← gets (λ d. select (λ r. is_live r && (r.id == id)) d.sites)
  one_or_none rows

unfoldable pub delete_site : ℕ → ℕ → Tx Db Unit
delete_site id now = modify (λ d. record d {
  sites = update (λ r. r.id == id) (λ r. record r { deleted = some now }) d.sites;
})

-- The ids returned are those of the rows written.
unfoldable pub delete_many : List ℕ → ℕ → Tx Db (List ℕ)
delete_many ids now = do
  found ← gets (λ d. map (λ r. r.id) (select (λ r. member r.id ids) d.sites))
  modify (λ d. record d {
    sites = update (λ r. member r.id ids) (λ r. record r { deleted = some now }) d.sites;
  })
  pure found
