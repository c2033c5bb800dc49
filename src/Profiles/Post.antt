-- ===== src/Profiles/Post.antt =====
-- The outcome of `post` of user/handlers/site_profiles.py.
use maas_site_manager.Common.{
  ℕ, suc, String, Bool, true, false, Option, none, some, List, [], ◌∷◌, ◌++◌, ◌≡◌, refl, ap, ◌∙◌,
  not, any, str_eq, Bool-cases, inl, inr,
}
use maas_site_manager.Common.Dict
use maas_site_manager.Common.Dict.{Eq-String, IsDict, kept}
use maas_site_manager.Common.Result.{ok, ◌>>=◌, raise_if}
use maas_site_manager.Profiles.Values.{Value, null, eq_value, FieldType, SiteConfig, is_of_type}
use maas_site_manager.Profiles.Addresses.{Library}
use maas_site_manager.Profiles.Configs.{all_configs, default_config}
use maas_site_manager.Profiles.Store.{
  Config, SiteProfile, ProfileDb, config_or_empty, value_or, create, model,
}
use maas_site_manager.Profiles.Handlers.{
  config_class, accepted_by, unknown_keys, first_invalid, checked, validate_global_config,
  validate_selections_exist, is_error, filter_default_values, post, ConfigError,
  ProfilesPostRequest,
}
use maas_site_manager.Profiles.Roundtrip.{
  read_value, read_value_lem, get-filter_default_values, kept_same,
}
use maas_site_manager.Profiles.Validity.{valid_value, default-accepted, all_configs_sound}

abbrev posted : Config → ℕ → ProfilesPostRequest → SiteProfile
posted defaults id r = record {
  id = id;
  name = r.name;
  selections = r.selections;
  global_config = filter_default_values defaults r.global_config;
}

-- What is kept of a value is the value, and the default is read otherwise.
kept-accepted :
    (p : Value → Bool) (accepted : Value → Bool) (o : Option Value) (w : Value)
    → accepted w ≡ true
    → ((v : Value) → o ≡ some v → accepted v ≡ true)
    → accepted (value_or (kept p o) w) ≡ true
kept-accepted p accepted none w default given = default
kept-accepted p accepted (some v) w default given = elim (Bool-cases (p v)) [
  | inl hit ↦ rw hit (given v refl)
  | inr miss ↦ rw miss default
]

module _ (coerce : FieldType → Value → Option Value) (configs : List SiteConfig) where
  no_error :
      (keys : List String) (o : Option (ConfigError)) → is_error (checked keys o) ≡ false → o ≡ none
  no_error [] none h = refl
  no_error [] (some e) h = cc
  no_error (k ∷ keys) o h = cc

  requested_valid :
      (o : Option Config) (k : String) (v : Value)
      → is_error (validate_global_config coerce configs o) ≡ false
      → Dict.get (config_or_empty o) k ≡ some v
      → accepted_by coerce (config_class configs k) v ≡ true
  unfolding validate_global_config
  requested_valid none k v h known = cc
  requested_valid (some c) k v h known =
      valid_value coerce configs c k v
        (no_error (unknown_keys configs c) (first_invalid coerce configs c) h) known

module _ (defaults : Config) where
  stored_value :
      (o : Option Config) (k : String) (w : Value)
      → Dict.get defaults k ≡ some w
      → IsDict (config_or_empty o)
      → Dict.get (config_or_empty (filter_default_values defaults o)) k
        ≡ kept (λ v. not (eq_value v w)) (Dict.get (config_or_empty o) k)
  stored_value none k w known u = refl
  stored_value (some c) k w known u =
      get-filter_default_values defaults c k u
      ∙ ap (λ q. kept (λ v. not (eq_value v (value_or q null))) (Dict.get c k)) known

  posted_value :
      (id : ℕ) (r : ProfilesPostRequest) (k : String) (w : Value)
      → Dict.get defaults k ≡ some w
      → IsDict (config_or_empty r.global_config)
      → read_value defaults (posted defaults id r) k
        ≡ value_or (kept (λ v. not (eq_value v w)) (Dict.get (config_or_empty r.global_config) k)) w
  posted_value id r k w known u =
      read_value_lem defaults (posted defaults id r) k w known
      ∙ ap (λ o. value_or o w) (stored_value r.global_config k w known u)

module _ (lib : Library) (coerce : FieldType → Value → Option Value)
    (plain : (t : FieldType) (v : Value) → is_of_type t v ≡ true → coerce t v ≡ some v)
    (icontains : String → String → Bool) where
  -- A valid request for a new profile, whose selections exist and whose name is free, succeeds. The
  -- profile has, under each known name, a value that the name's config class accepts, and it is the
  -- requested value, or the default where the request has none, up to `==`. Here the data validation
  -- accepts a value of a field's type as it is.
  pub post-read_value :
      (r : ProfilesPostRequest) (d : ProfileDb) (k : String) (w : Value)
      → is_error (validate_global_config coerce (all_configs lib) r.global_config) ≡ false
      → validate_selections_exist icontains r.selections d ≡ ok (tt, d)
      → any (λ p. str_eq p.name r.name) d.profiles ≡ false
      → IsDict (config_or_empty r.global_config)
      → Dict.get (default_config lib) k ≡ some w
      → (q : SiteProfile) × (d' : ProfileDb) × (post coerce
            (all_configs lib)
            (default_config lib)
            icontains
            r
            d
          ≡ ok (model (default_config lib) q, d'))
        × (d'.profiles ≡ d.profiles ++ q ∷ [])
        × (accepted_by coerce
              (config_class (all_configs lib) k)
              (read_value (default_config lib) q k)
            ≡ true)
        × (eq_value
              (read_value (default_config lib) q k)
              (value_or (Dict.get (config_or_empty r.global_config) k) w)
            ≡ true)
  unfolding post create
  post-read_value r d k w valid offered free u known =
      let q = posted (default_config lib) d.profile_sequence r in
      let value = posted_value (default_config lib) d.profile_sequence r k w known u in
      let o = Dict.get (config_or_empty r.global_config) k in
      (
        q,
        record d { profiles = d.profiles ++ q ∷ []; profile_sequence = suc d.profile_sequence },
        rw (valid, offered, free, ◌>>=◌, raise_if) refl,
        refl,
        ap (accepted_by coerce (config_class (all_configs lib) k)) value
            ∙ kept-accepted (λ v. not (eq_value v w))
                (accepted_by coerce (config_class (all_configs lib) k)) o w
                (default-accepted coerce plain (all_configs lib) k w (all_configs_sound lib) known)
                (λ v given.
                  requested_valid coerce (all_configs lib) r.global_config k v valid given),
        ap (λ v. eq_value v (value_or o w)) value ∙ kept_same w o,
      )
