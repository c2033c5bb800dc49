-- ===== src/Profiles/Handlers.antt =====
-- The handlers of user/handlers/site_profiles.py and the handler `get` of site/handlers/config.py, from
-- an authenticated caller on. `icontains` is the database's search for a part of a text, whatever the
-- case; `coerce` is the data validation library.
use maas_site_manager.Common.{
  ℕ, String, Bool, true, false, Option, none, some, List, [], ◌∷◌, ◌&&◌, not, any, first, leb,
  str_eq, if◌then◌else◌,
}
use maas_site_manager.Common.Dict
use maas_site_manager.Common.Dict.{Eq-String}
use maas_site_manager.Common.Result.{
  Tx, not_found, validation_error, ◌>>=◌, ◌>>◌, pure, gets, raise_if, fail,
}
use maas_site_manager.Profiles.Values.{Value, null, FieldType, SiteConfig, eq_value, accepts}
use maas_site_manager.Profiles.Store.{
  Config, Selection, SiteProfile, ProfileDb, default_profile_id, value_or, config_or_empty,
  get_by_id, get_by_site_id, get_stored_config_by_id, create, update_profile, delete_profile,
}

pub record ProfilesPostRequest : Type 0 where
  pub name : String
  pub selections : List Selection
  pub global_config : Option Config

pub record ProfilesPatchRequest : Type 0 where
  pub name : Option String
  pub selections : Option (List Selection)
  pub global_config : Option Config

pub data ConfigError : Type 0 where
  invalid_keys : List String → ConfigError
  invalid_value : String → ConfigError

abbrev pub absent : Option SiteProfile → Tx ProfileDb Unit
absent none = fail not_found
absent (some p) = pure tt

-- `SiteConfigFactory.ALL_CONFIGS[key]`
abbrev pub config_class : List SiteConfig → String → Option SiteConfig
config_class configs key = first (λ c. str_eq c.name key) configs

abbrev pub accepted_by : (FieldType → Value → Option Value) → Option SiteConfig → Value → Bool
accepted_by coerce none v = false
accepted_by coerce (some c) v = accepts coerce c v

abbrev pub unknown_keys : List SiteConfig → Config → List String
unknown_keys configs [] = []
unknown_keys configs (r ∷ d) =
    let rest = unknown_keys configs d in
    if any (λ c. str_eq c.name r.0) configs then rest else r.0 ∷ rest

-- The error, if any. (A set of unknown keys is the list of them.)
abbrev pub checked : List String → Option ConfigError → Option ConfigError
checked [] values = values
checked (k ∷ keys) values = some (invalid_keys (k ∷ keys))

-- `configs` are the classes of `ALL_CONFIGS`.
module _ (coerce : FieldType → Value → Option Value) (configs : List SiteConfig) where
  abbrev pub first_invalid : Config → Option ConfigError
  first_invalid [] = none
  first_invalid (r ∷ d) =
      let rest = first_invalid d in
      if accepted_by coerce (config_class configs r.0) r.1 then rest else some (invalid_value r.0)

  unfoldable pub validate_global_config : Option Config → Option ConfigError
  validate_global_config none = none
  validate_global_config (some d) = checked (unknown_keys configs d) (first_invalid d)

abbrev pub is_error : Option ConfigError → Bool
is_error none = false
is_error (some e) = true

-- `defaults` is `SiteConfigFactory.DEFAULT_CONFIG`.
abbrev pub is_default : Config → String → Value → Bool
is_default defaults k v = eq_value v (value_or (Dict.get defaults k) null)

abbrev pub or_none : Config → Option Config
or_none [] = none
or_none (r ∷ d) = some (r ∷ d)

abbrev pub filter_default_values : Config → Option Config → Option Config
filter_default_values defaults none = none
filter_default_values defaults (some d) =
    or_none (Dict.filter_dict (λ k v. not (is_default defaults k v)) d)

-- `icontains text part`
module _ (icontains : String → String → Bool) where
  abbrev pub is_offered : List Selection → Selection → Bool
  is_offered offered s =
      any (λ o. icontains o.os s.os && icontains o.release s.release && icontains o.arch s.arch)
        offered

  abbrev pub missing_selections : List Selection → List Selection → List Selection
  missing_selections offered [] = []
  missing_selections offered (s ∷ ss) =
      let rest = missing_selections offered ss in if is_offered offered s then rest else s ∷ rest

  abbrev pub any_missing : List Selection → Bool
  any_missing [] = false
  any_missing (s ∷ ss) = true

  unfoldable pub validate_selections_exist : List Selection → Tx ProfileDb Unit
  validate_selections_exist selections = do
    missing ← gets (λ d. missing_selections d.offered selections)
    raise_if (any_missing missing) not_found

  abbrev pub validate_given : Option (List Selection) → Tx ProfileDb Unit
  validate_given none = pure tt
  validate_given (some selections) = validate_selections_exist selections

-- The configuration that a patch stores: what is stored, overwritten by the request, less the defaults.
abbrev pub merged_config : Config → Config → Config → Option Config
merged_config defaults stored requested =
    filter_default_values defaults (some (Dict.merge stored requested))

abbrev pub config_update : Config → ℕ → Option Config → Tx ProfileDb (Option (Option Config))
config_update defaults id none = pure none
config_update defaults id (some requested) = do
  stored ← get_stored_config_by_id id
  pure (some (merged_config defaults stored requested))

module _ (coerce : FieldType → Value → Option Value) (configs : List SiteConfig) (defaults : Config)
    (icontains : String → String → Bool) where
  unfoldable pub post : ProfilesPostRequest → Tx ProfileDb SiteProfile
  post r = do
    raise_if (is_error (validate_global_config coerce configs r.global_config)) validation_error
    validate_selections_exist icontains r.selections
    create defaults (record {
      name = r.name;
      selections = r.selections;
      global_config = filter_default_values defaults r.global_config;
    })

  -- The default profile cannot be patched.
  unfoldable pub patch : ℕ → ProfilesPatchRequest → Tx ProfileDb SiteProfile
  patch id r = do
    raise_if (leb id default_profile_id) validation_error
    raise_if (is_error (validate_global_config coerce configs r.global_config)) validation_error
    existing ← get_by_id defaults id
    absent existing
    validate_given icontains r.selections
    config ← config_update defaults id r.global_config
    update_profile defaults id
        (record { name = r.name; selections = r.selections; global_config = config })

  -- Nor can it be deleted.
  unfoldable pub delete : ℕ → Tx ProfileDb Unit
  delete id = do
    raise_if (leb id default_profile_id) validation_error
    existing ← get_by_id defaults id
    absent existing
    delete_profile id

abbrev found : Option SiteProfile → Tx ProfileDb SiteProfile
found none = fail not_found
found (some p) = pure p

unfoldable pub get_id : Config → ℕ → Tx ProfileDb SiteProfile
get_id defaults id = do row ← get_by_id defaults id; found row

pub record SiteConfigResponse : Type 0 where
  pub global_config : Config
  pub selections : List Selection
  pub trigger_image_sync : Bool

-- `get` of site/handlers/config.py, for a site with its id and its flag
unfoldable pub get_site_config : Config → ℕ → Bool → Tx ProfileDb SiteConfigResponse
get_site_config defaults site_id trigger = do
  row ← get_by_site_id defaults site_id
  p ← found row
  pure (record {
    global_config = config_or_empty p.global_config;
    selections = p.selections;
    trigger_image_sync = trigger;
  })
