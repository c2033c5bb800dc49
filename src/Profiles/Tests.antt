-- ===== src/Profiles/Tests.antt =====
-- Profiles that are created and patched.
use maas_site_manager.Common.{
  true, false, Option, none, some, [], ◌∷◌, ◌++◌, ◌≡◌, refl, str_eq, if◌then◌else◌,
}
use maas_site_manager.Common.Dict.{Eq-String}
use maas_site_manager.Common.Result.{ok}
use maas_site_manager.Common.Rows.{delete}
use maas_site_manager.Profiles.Values.{Value, pos, int, text, eq_value, FieldType, is_of_type}
use maas_site_manager.Profiles.Validators.{
  validate_port, system_reserved, maas_reserved, validate_internal_domain,
}
use maas_site_manager.Profiles.Addresses.{
  Library, validate_ntp_servers, validate_systemd_interval, matches_subnet,
}
use maas_site_manager.Common.Codes.{codes}
use maas_site_manager.Profiles.Configs.{all_configs, default_config}
use maas_site_manager.Profiles.Store.{
  Config, Selection, SiteProfile, ProfileDb, model, get_by_id, has_id,
}
use maas_site_manager.Profiles.Handlers.{
  config_class, accepted_by, validate_global_config, validate_selections_exist, post, patch,
  ProfilesPostRequest, ProfilesPatchRequest,
}
use maas_site_manager.Profiles.Roundtrip.{read_value}
use maas_site_manager.Profiles.Patch.{patch_roundtrip}
use maas_site_manager.Profiles.Post.{post-read_value}

abbrev lib : Library
lib = record {
  unicode = record { is_digit = λ c. false; is_space = λ c. false };
  is_address = λ s. true;
  is_network = λ s. true;
  urlparse = λ s. none;
}

-- A validation that coerces nothing.
abbrev coerce : FieldType → Value → Option Value
coerce t v = if is_of_type t v then some v else none

plain : (t : FieldType) (v : Value) → is_of_type t v ≡ true → coerce t v ≡ some v
plain t v h = rw h refl

abbrev noble : Selection
noble = record { os = "ubuntu"; release = "noble"; arch = "amd64" }

abbrev lab : SiteProfile
lab = record {
  id = 2;
  name = "Lab";
  selections = noble ∷ [];
  global_config = some (("theme", text "dark") ∷ []);
}

abbrev db : ProfileDb
db = record {
  profiles = lab ∷ [];
  profile_sequence = 3;
  sites = record { id = 7; site_profile_id = some 2 } ∷ [];
  offered = noble ∷ [];
}

abbrev requested : Config
requested = ("theme", text "") ∷ ("maas_proxy_port", int (pos 3128)) ∷ []

abbrev new_profile : ProfilesPostRequest
new_profile = record { name = "Edge"; selections = noble ∷ []; global_config = some requested }

abbrev change : ProfilesPatchRequest
change = record { name = none; selections = some (noble ∷ []); global_config = some requested }

ports : validate_port (pos 443) ≡ some system_reserved
ports = refl

reserved : validate_port (pos 5248) ≡ some maas_reserved
reserved = refl

domain : validate_internal_domain (codes "maas-internal.") ≡ true
domain = refl

servers : validate_ntp_servers lib (codes "ntp.ubuntu.com, 10.0.0.1") ≡ true
servers = refl

subnet : matches_subnet lib (codes "10.0.0.0/24") ≡ true
subnet = refl

-- The pattern of an interval need not match the whole text.
trailing : validate_systemd_interval lib (codes "15m, or so") ≡ true
trailing = refl

post-read_value_example :
    (q : SiteProfile) × (d' : ProfileDb) × (post coerce
        (all_configs lib)
        (default_config lib)
        str_eq
        new_profile
        db
      ≡ ok (model (default_config lib) q, d'))
    × (d'.profiles ≡ db.profiles ++ q ∷ [])
    × (accepted_by coerce
          (config_class (all_configs lib) "maas_proxy_port")
          (read_value (default_config lib) q "maas_proxy_port")
        ≡ true)
    × (eq_value (read_value (default_config lib) q "maas_proxy_port") (int (pos 3128)) ≡ true)
unfolding validate_global_config validate_selections_exist
post-read_value_example =
    post-read_value lib coerce plain str_eq new_profile db "maas_proxy_port" (int (pos 8000)) refl
      refl refl (refl, (refl, tt)) refl

patch_roundtrip_example :
    (q : SiteProfile) × (d' : ProfileDb) × (patch coerce
        (all_configs lib)
        (default_config lib)
        str_eq
        2
        change
        db
      ≡ ok (model (default_config lib) q, d'))
    × (get_by_id (default_config lib) 2 d' ≡ ok (some (model (default_config lib) q), d'))
    × (eq_value (read_value (default_config lib) q "theme") (text "") ≡ true)
    × (delete (has_id 2) d'.profiles ≡ [])
unfolding validate_global_config validate_selections_exist
patch_roundtrip_example =
    patch_roundtrip coerce (all_configs lib) (default_config lib) str_eq 2 lab change db "theme"
      (text "") refl refl refl refl refl refl refl (refl, tt) (refl, (refl, tt)) refl
