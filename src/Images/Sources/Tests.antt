-- ===== src/Images/Sources/Tests.antt =====
-- Two sources, of which one is synchronised.
use maas_site_manager.Common.{ℕ, none, some, [], ◌∷◌, ◌≡◌, refl}
use maas_site_manager.Common.Result.{ok, raise, programming_error}
use maas_site_manager.Images.Tables.{BootSource, ImageDb, disable_sync, refresh_index, disable}
use maas_site_manager.Images.Sources.{
  BootSourcesPatchRequest, patch_boot_source, update_source, disable_if_scheduled,
}

abbrev source : ℕ → ℕ → BootSource
source id interval = record {
  id = id;
  priority = 5;
  url = "http://images";
  keyring = none;
  sync_interval = interval;
  name = "mirror";
  last_sync = 0;
}

abbrev db : ImageDb
db = record {
  sources = source 1 0 ∷ source 2 60 ∷ [];
  selections = [];
  assets = [];
  versions = [];
  items = [];
  selection_sequence = 1;
  asset_sequence = 1;
  version_sequence = 1;
  item_sequence = 1;
  effects = [];
  schedules = 2 ∷ [];
}

abbrev paused : BootSourcesPatchRequest
paused = record { priority = none; keyring = none; sync_interval = some 0; name = none }

-- The synchronization of the second source stops.
stopped :
    patch_boot_source 2 paused db
    ≡ ok (
      source 2 0,
      record db {
        sources = source 1 0 ∷ source 2 0 ∷ [];
        effects = disable_sync 2 ∷ refresh_index ∷ [];
        schedules = [];
      },
    )
unfolding patch_boot_source update_source disable_if_scheduled disable
stopped = refl

empty_refused :
    patch_boot_source 2 (record paused { sync_interval = none }) db ≡ raise programming_error
unfolding patch_boot_source update_source
empty_refused = refl
