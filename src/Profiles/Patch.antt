-- ===== src/Profiles/Patch.antt =====
-- The outcome of `patch` of user/handlers/site_profiles.py, and what is read after it.
use maas_site_manager.Common.{
  ℕ, String, Bool, true, false, Option, none, some, List, [], ◌∷◌, ◌≡◌, refl, ap, ◌∙◌, ◌&&◌, any,
  is_none, select, leb, ◌==◌, arith,
}
use maas_site_manager.Common.Dict
use maas_site_manager.Common.Dict.{Eq-String, IsDict}
use maas_site_manager.Common.Result.{ok, ◌>>=◌, raise_if}
use maas_site_manager.Common.Rows.{update, delete, select-update, delete-update}
use maas_site_manager.Profiles.Values.{Value, eq_value, FieldType, SiteConfig}
use maas_site_manager.Profiles.Store.{
  Config, SiteProfile, SiteProfileUpdate, ProfileDb, value_or, config_or_empty, has_id, with_update,
  get_by_id, model, update_profile, get_stored_config_by_id, name_taken, set_or, sets_nothing,
}
use maas_site_manager.Profiles.Handlers.{
  merged_config, config_update, validate_given, validate_global_config, is_error,
  ProfilesPatchRequest, patch,
}
use maas_site_manager.Profiles.Roundtrip.{read_value, read_value_lem, merged_value, eq_value_self}

abbrev patched_config : Config → SiteProfile → Option Config → Option (Option Config)
patched_config defaults p none = none
patched_config defaults p (some q) =
    some (merged_config defaults (config_or_empty p.global_config) q)

abbrev pub patch_update : Config → SiteProfile → ProfilesPatchRequest → SiteProfileUpdate
patch_update defaults p r = record {
  name = r.name;
  selections = r.selections;
  global_config = patched_config defaults p r.global_config;
}

-- The request has no value but nulls.
abbrev pub gives_nothing : ProfilesPatchRequest → Bool
gives_nothing r = is_none r.name && (is_none r.selections && is_none r.global_config)

given_update :
    (defaults : Config) (p : SiteProfile) (r : ProfilesPatchRequest)
    → sets_nothing (patch_update defaults p r) ≡ gives_nothing r
given_update defaults p r =
    ap (λ b. is_none r.name && (is_none r.selections && b)) (given_config r.global_config)
  where
    given_config : (o : Option Config) → is_none (patched_config defaults p o) ≡ is_none o
    given_config none = refl
    given_config (some c) = refl

module _ (defaults : Config) where
  found_profile :
      (id : ℕ) (p : SiteProfile) (d : ProfileDb)
      → select (has_id id) d.profiles ≡ p ∷ []
      → get_by_id defaults id d ≡ ok (some (model defaults p), d)
  unfolding get_by_id
  found_profile id p d h = rw (h, ◌>>=◌) refl

  found_config :
      (id : ℕ) (p : SiteProfile) (o : Option Config) (d : ProfileDb)
      → select (has_id id) d.profiles ≡ p ∷ []
      → config_update defaults id o d ≡ ok (patched_config defaults p o, d)
  unfolding get_stored_config_by_id
  found_config id p none d h = refl
  found_config id p (some q) d h = rw (h, ◌>>=◌) refl

  abbrev pub written : ℕ → SiteProfileUpdate → ProfileDb → ProfileDb
  written id u d = record d { profiles = update (has_id id) (with_update u) d.profiles }

  select-written :
      (id : ℕ) (p : SiteProfile) (u : SiteProfileUpdate) (d : ProfileDb)
      → select (has_id id) d.profiles ≡ p ∷ []
      → (p.id == id) ≡ true
      → select (has_id id) (written id u d).profiles ≡ with_update u p ∷ []
  select-written id p u d h mine =
      select-update (has_id id) (has_id id) (with_update u) d.profiles (λ x hit. refl)
      ∙ rw (h, mine) refl

  update_found :
      (id : ℕ) (p : SiteProfile) (u : SiteProfileUpdate) (d : ProfileDb)
      → select (has_id id) d.profiles ≡ p ∷ []
      → (p.id == id) ≡ true
      → sets_nothing u ≡ false
      → name_taken u.name id d.profiles ≡ false
      → update_profile defaults id u d ≡ ok (model defaults (with_update u p), written id u d)
  unfolding update_profile
  update_found id p u d h mine given free =
      let both : (any (has_id id) d.profiles && name_taken u.name id d.profiles) ≡ false =
        ground (arith, free) in
      rw (given, ◌>>=◌) (rw (both, ◌>>=◌) (rw (select-written id p u d h mine) refl))

  merged_read :
      (p : SiteProfile) (r : ProfilesPatchRequest) (k : String) (w : Value)
      → Dict.get defaults k ≡ some w
      → IsDict (config_or_empty p.global_config)
      → IsDict (config_or_empty r.global_config)
      → eq_value
          (read_value defaults (with_update (patch_update defaults p r) p) k)
          (value_or (Dict.get (config_or_empty r.global_config) k) (read_value defaults p k))
        ≡ true
  merged_read p r k w known us ur =
      let q = with_update (patch_update defaults p r) p in
      ap
        (λ v.
          eq_value v
            (value_or (Dict.get (config_or_empty r.global_config) k) (read_value defaults p k)))
        (read_value_lem defaults q k w known)
      ∙ ap
          (λ v.
            eq_value (value_or (Dict.get (config_or_empty q.global_config) k) w)
              (value_or (Dict.get (config_or_empty r.global_config) k) v))
          (read_value_lem defaults p k w known)
      ∙ by_request r.global_config ur
    where
      by_request :
          (o : Option Config)
          → IsDict (config_or_empty o)
          → eq_value
              (value_or
                (Dict.get
                  (config_or_empty (set_or (patched_config defaults p o) p.global_config))
                  k)
                w)
              (value_or
                (Dict.get (config_or_empty o) k)
                (value_or (Dict.get (config_or_empty p.global_config) k) w))
            ≡ true
      by_request none u = eq_value_self (value_or (Dict.get (config_or_empty p.global_config) k) w)
      by_request (some c) u =
          merged_value defaults (config_or_empty p.global_config) c k w known us u

module _ (coerce : FieldType → Value → Option Value) (configs : List SiteConfig) (defaults : Config)
    (icontains : String → String → Bool) where
  patch_succeeds :
      (id : ℕ) (p : SiteProfile) (r : ProfilesPatchRequest) (d : ProfileDb)
      → leb id 1 ≡ false
      → is_error (validate_global_config coerce configs r.global_config) ≡ false
      → select (has_id id) d.profiles ≡ p ∷ []
      → (p.id == id) ≡ true
      → gives_nothing r ≡ false
      → validate_given icontains r.selections d ≡ ok (tt, d)
      → name_taken r.name id d.profiles ≡ false
      → patch coerce configs defaults icontains id r d
        ≡ ok (
          model defaults (with_update (patch_update defaults p r) p),
          written defaults id (patch_update defaults p r) d,
        )
  unfolding patch
  patch_succeeds id p r d large valid found mine given offered free =
      rw
        (
          large,
          valid,
          found_profile defaults id p d found,
          offered,
          found_config defaults id p r.global_config d found,
          ◌>>=◌,
          raise_if,
        )
        (update_found defaults id p (patch_update defaults p r) d found mine
          (given_update defaults p r ∙ given) free)

  -- A valid patch of an existing profile other than the default one, which gives a value that is not
  -- null, whose selections exist and whose name no other profile has, succeeds. The profile read after it has, under each known name, the
  -- requested value, or where the request has none the value read before, up to `==`. The other
  -- profiles stay as they are.
  pub patch_roundtrip :
      (id : ℕ) (p : SiteProfile) (r : ProfilesPatchRequest) (d : ProfileDb) (k : String) (w : Value)
      → leb id 1 ≡ false
      → is_error (validate_global_config coerce configs r.global_config) ≡ false
      → select (has_id id) d.profiles ≡ p ∷ []
      → (p.id == id) ≡ true
      → gives_nothing r ≡ false
      → validate_given icontains r.selections d ≡ ok (tt, d)
      → name_taken r.name id d.profiles ≡ false
      → IsDict (config_or_empty p.global_config)
      → IsDict (config_or_empty r.global_config)
      → Dict.get defaults k ≡ some w
      → (q : SiteProfile) × (d' : ProfileDb) × (patch coerce configs defaults icontains id r d
          ≡ ok (model defaults q, d'))
        × (get_by_id defaults id d' ≡ ok (some (model defaults q), d'))
        × (eq_value
              (read_value defaults q k)
              (value_or (Dict.get (config_or_empty r.global_config) k) (read_value defaults p k))
            ≡ true)
        × (delete (has_id id) d'.profiles ≡ delete (has_id id) d.profiles)
  patch_roundtrip id p r d k w large valid found mine given offered free us ur known =
      let u = patch_update defaults p r in
      let there = select-written defaults id p u d found mine in
      (
        with_update u p,
        written defaults id u d,
        patch_succeeds id p r d large valid found mine given offered free,
        found_profile defaults id (with_update u p) (written defaults id u d) there,
        merged_read defaults p r k w known us ur,
        delete-update (has_id id) (with_update u) d.profiles (λ x. refl),
      )
