-- ===== src/Profiles/Validity.antt =====
-- The values of a configuration against the config classes.
use maas_site_manager.Common.{
  String, Bool, true, Option, none, some, List, [], ◌∷◌, map, ◌≡◌, refl, ap, ◌∙◌, ◌&&◌, str_eq,
  arith, Bool-cases, inl, inr,
}
use maas_site_manager.Common.Dict
use maas_site_manager.Common.Dict.{Eq-String, IsDict, kept, string_same}
use maas_site_manager.Profiles.Values.{
  Value, FieldType, SiteConfig, is_of_type, in_range, accepts, accepts_coerced,
}
use maas_site_manager.Profiles.Addresses.{Library}
use maas_site_manager.Profiles.Configs.{all_configs}
use maas_site_manager.Profiles.Store.{Config}
use maas_site_manager.Profiles.Handlers.{config_class, accepted_by, first_invalid}

-- The default of a class is of its type and passes its checks.
abbrev pub sound : SiteConfig → Bool
sound c = is_of_type c.field c.default && (in_range c.ge c.le c.default && c.validates c.default)

abbrev pub all_sound : List SiteConfig → Bool
all_sound [] = true
all_sound (c ∷ cs) = sound c && all_sound cs

pub all_configs_sound : (lib : Library) → all_sound (all_configs lib) ≡ true
all_configs_sound lib = refl

module _ (coerce : FieldType → Value → Option Value)
    (plain : (t : FieldType) (v : Value) → is_of_type t v ≡ true → coerce t v ≡ some v) where
  sound-accepts : (c : SiteConfig) → sound c ≡ true → accepts coerce c c.default ≡ true
  sound-accepts c h =
      let typed : is_of_type c.field c.default ≡ true = ground arith in
      let checks : (in_range c.ge c.le c.default && c.validates c.default) ≡ true = ground arith in
      ap (accepts_coerced c) (plain c.field c.default typed) ∙ checks

  pub default-accepted :
      (cs : List SiteConfig) (k : String) (w : Value)
      → all_sound cs ≡ true
      → Dict.get (map (λ c. (c.name, c.default)) cs) k ≡ some w
      → accepted_by coerce (config_class cs k) w ≡ true
  default-accepted [] k w h known = cc
  default-accepted (c ∷ cs) k w h known = elim (Bool-cases (str_eq c.name k)) [
    | inl hit ↦
        let same : c.default ≡ w = ground arith in
        rw hit (rw (← same) (sound-accepts c (ground arith)))
    | inr miss ↦ rw miss (default-accepted cs k w (ground arith) (ground arith))
  ]

pub valid_value :
    (coerce : FieldType → Value → Option Value) (cs : List SiteConfig) (d : Config) (k : String)
    (v : Value)
    → first_invalid coerce cs d ≡ none
    → Dict.get d k ≡ some v
    → accepted_by coerce (config_class cs k) v ≡ true
valid_value coerce cs [] k v h known = cc
valid_value coerce cs (r ∷ d) k v h known = elim (Bool-cases (str_eq r.0 k)) [
  | inl hit ↦
      let same : r.1 ≡ v = ground arith in
      let here : accepted_by coerce (config_class cs r.0) r.1 ≡ true = ground arith in
      rw (← same, ← string_same r.0 k hit) here
  | inr miss ↦ valid_value coerce cs d k v (ground arith) (ground arith)
]
