-- ===== src/Profiles/Store.antt =====
-- The table of site profiles and `SiteProfileService` (service/site_profiles.py, db/tables.py,
-- db/models/site_profiles.py). Of a site the profile that it refers to is kept, of the boot source
-- selections what they offer. A selection of a profile matches the pattern `os/release/arch`, and is
-- its three parts.
use maas_site_manager.Common.{
  ℕ, suc, String, Bool, false, Option, none, some, List, [], ◌∷◌, ◌++◌, map, ◌&&◌, not, any, select,
  is_none, ◌==◌, str_eq,
}
use maas_site_manager.Common.Dict
use maas_site_manager.Common.Dict.{Eq-String}
use maas_site_manager.Common.Result.{
  Tx, integrity_error, programming_error, ◌>>=◌, ◌>>◌, pure, gets, modify, raise_if, one,
  one_or_none,
}
use maas_site_manager.Common.Rows.{update, delete}
use maas_site_manager.Profiles.Values.{Value}

abbrev pub Config : Type 0
Config = List (String × Value)

pub record Selection : Type 0 where
  pub os : String
  pub release : String
  pub arch : String

-- The row of a profile. `SiteProfile`, which fills its configuration out, has the same fields.
pub record SiteProfile : Type 0 where
  pub id : ℕ
  pub name : String
  pub selections : List Selection
  pub global_config : Option Config

pub record SiteProfileCreate : Type 0 where
  pub name : String
  pub selections : List Selection
  pub global_config : Option Config

-- The fields that are set; a configuration may be set to None.
pub record SiteProfileUpdate : Type 0 where
  pub name : Option String
  pub selections : Option (List Selection)
  pub global_config : Option (Option Config)

pub record SiteRef : Type 0 where
  pub id : ℕ
  pub site_profile_id : Option ℕ

pub record ProfileDb : Type 0 where
  pub profiles : List SiteProfile
  pub profile_sequence : ℕ
  pub sites : List SiteRef
  pub offered : List Selection

-- `DEFAULT_SITE_PROFILE_ID`
abbrev pub default_profile_id : ℕ
default_profile_id = 1

abbrev pub config_or_empty : Option Config → Config
config_or_empty none = []
config_or_empty (some c) = c

abbrev pub value_or : Option Value → Value → Value
value_or (some v) w = v
value_or none w = w

-- `_fill_out_config`
abbrev pub fill_out_config : Config → Option Config → Config
fill_out_config defaults stored =
    map (λ r. (r.0, value_or (Dict.get (config_or_empty stored) r.0) r.1)) defaults

abbrev pub has_id : ℕ → SiteProfile → Bool
has_id id p = p.id == id

abbrev pub is_profile : Option ℕ → ℕ → Bool
is_profile none id = false
is_profile (some j) id = j == id

-- The value that an update sets, if any.
abbrev pub set_or {ℓ} : {A : Type ℓ} → Option A → A → A
set_or (some a) b = a
set_or none b = b

abbrev pub with_update : SiteProfileUpdate → SiteProfile → SiteProfile
with_update u p = record {
  id = p.id;
  name = set_or u.name p.name;
  selections = set_or u.selections p.selections;
  global_config = set_or u.global_config p.global_config;
}

abbrev pub name_taken : Option String → ℕ → List SiteProfile → Bool
name_taken none id rows = false
name_taken (some n) id rows = any (λ p. str_eq p.name n && not (p.id == id)) rows

abbrev pub opt_map {ℓ κ} : {A : Type ℓ} {B : Type κ} → (A → B) → Option A → Option B
opt_map f none = none
opt_map f (some a) = some (f a)

-- The configuration of the row, or the empty one where there is none.
abbrev pub stored_config : Option SiteProfile → Config
stored_config none = []
stored_config (some p) = config_or_empty p.global_config

-- The rows of the profile that a site is joined with.
abbrev pub joined : ℕ → ProfileDb → List SiteProfile
joined site_id d =
    select (λ p. any (λ s. s.id == site_id && is_profile s.site_profile_id p.id) d.sites) d.profiles

-- The update sets no column.
abbrev pub sets_nothing : SiteProfileUpdate → Bool
sets_nothing u = is_none u.name && (is_none u.selections && is_none u.global_config)

-- `defaults` is `SiteConfigFactory.DEFAULT_CONFIG`.
module _ (defaults : Config) where
  -- `models.SiteProfile(**row)`
  abbrev pub model : SiteProfile → SiteProfile
  model p = record p { global_config = some (fill_out_config defaults p.global_config) }

  unfoldable pub get_by_id : ℕ → Tx ProfileDb (Option SiteProfile)
  get_by_id id = do
    rows ← gets (λ d. select (has_id id) d.profiles)
    row ← one_or_none rows
    pure (opt_map model row)

  unfoldable pub get_by_site_id : ℕ → Tx ProfileDb (Option SiteProfile)
  get_by_site_id site_id = do
    rows ← gets (joined site_id)
    row ← one_or_none rows
    pure (opt_map model row)

  -- The column `name` is unique.
  unfoldable pub create : SiteProfileCreate → Tx ProfileDb SiteProfile
  create c = do
    taken ← gets (λ d. any (λ p. str_eq p.name c.name) d.profiles)
    raise_if taken integrity_error
    id ← gets (λ d. d.profile_sequence)
    let row : SiteProfile = record {
      id = id;
      name = c.name;
      selections = c.selections;
      global_config = c.global_config;
    }
    modify (λ d. record d {
      profiles = d.profiles ++ row ∷ [];
      profile_sequence = suc d.profile_sequence;
    })
    pure (model row)

  unfoldable pub update_profile : ℕ → SiteProfileUpdate → Tx ProfileDb SiteProfile
  update_profile id u = do
    raise_if (sets_nothing u) programming_error
    taken ← gets (λ d. any (has_id id) d.profiles && name_taken u.name id d.profiles)
    raise_if taken integrity_error
    modify (λ d. record d { profiles = update (has_id id) (with_update u) d.profiles })
    rows ← gets (λ d. select (has_id id) d.profiles)
    row ← one rows
    pure (model row)

unfoldable pub get_stored_by_site_id : ℕ → Tx ProfileDb (Option SiteProfile)
get_stored_by_site_id site_id = do rows ← gets (joined site_id); one_or_none rows

unfoldable pub get_stored_config_by_id : ℕ → Tx ProfileDb Config
get_stored_config_by_id id = do
  rows ← gets (λ d. select (has_id id) d.profiles)
  row ← one_or_none rows
  pure (stored_config row)

-- No site may refer to a profile that goes.
unfoldable pub delete_profile : ℕ → Tx ProfileDb Unit
delete_profile id = do
  referred ←
      gets (λ d. any (has_id id) d.profiles && any (λ s. is_profile s.site_profile_id id) d.sites)
  raise_if referred integrity_error
  modify (λ d. record d { profiles = delete (has_id id) d.profiles })

abbrev default_profile : SiteProfile
default_profile = record {
  id = default_profile_id;
  name = "Default Profile";
  selections = record { os = "ubuntu"; release = "resolute"; arch = "amd64" } ∷ [];
  global_config = some [];
}

abbrev insert_default : Option SiteProfile → Tx ProfileDb Unit
insert_default (some p) = pure tt
insert_default none = do
  taken ← gets (λ d. any (λ p. str_eq p.name default_profile.name) d.profiles)
  raise_if taken integrity_error
  modify (λ d. record d { profiles = d.profiles ++ default_profile ∷ [] })

-- `ensure`, that is `_ensure_default_profile`
unfoldable pub ensure_default_profile : Tx ProfileDb Unit
ensure_default_profile = do
  rows ← gets (λ d. select (has_id default_profile_id) d.profiles)
  row ← one_or_none rows
  insert_default row
