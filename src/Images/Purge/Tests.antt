-- ===== src/Images/Purge/Tests.antt =====
-- Removals on small image tables.
use maas_site_manager.Common.{ℕ, ◌≡◌, refl, false, none, some, [], ◌∷◌, List, any, ◌&&◌}
use maas_site_manager.Common.Result.{ok, raise, rpc_error}
use maas_site_manager.Images.Tables.{
  BootAsset, BootAssetVersion, BootAssetItem, BootSource, ImageDb, os_image, refresh_index,
  disable_sync, disable,
}
use maas_site_manager.Images.Purge
use maas_site_manager.Images.Purge.{purge_source, delete_boot_source, purge_assets}
use maas_site_manager.Images.Purge.Versions.{has_id, owned}
use maas_site_manager.Images.Purge.Complete.{
  mem, source_ids, versions_of, without, without_source, delete_boot_source_complete,
  purge_assets_complete,
}

abbrev source : ℕ → BootSource
source id = record {
  id = id;
  priority = 1;
  url = "u";
  keyring = none;
  sync_interval = 60;
  name = "n";
  last_sync = 0;
}

abbrev asset : ℕ → ℕ → BootAsset
asset id source_id = record {
  id = id;
  boot_source_id = source_id;
  kind = os_image;
  label = "stable";
  os = "ubuntu";
  release = some "noble";
  version = none;
  krel = none;
  codename = none;
  title = none;
  arch = "amd64";
  subarch = none;
  compatibility = [];
  flavor = none;
  base_image = none;
  bootloader_type = none;
  eol = none;
  esm_eol = none;
  signed = false;
}

abbrev version : ℕ → ℕ → BootAssetVersion
version id asset_id = record { id = id; boot_asset_id = asset_id; version = "v"; last_seen = 0 }

abbrev item : ℕ → ℕ → BootAssetItem
item id version_id = record {
  id = id;
  boot_asset_version_id = some version_id;
  ftype = "squashfs";
  sha256 = "h";
  path = "p";
  file_size = 4;
  source_package = none;
  source_version = none;
  source_release = none;
  bytes_synced = 4;
}

abbrev db : ImageDb
db = record {
  sources = source 1 ∷ source 2 ∷ [];
  selections = [];
  assets = asset 10 1 ∷ asset 20 2 ∷ asset 11 1 ∷ [];
  versions = version 100 10 ∷ version 200 20 ∷ version 110 11 ∷ version 101 10 ∷ [];
  items = item 1000 100 ∷ item 2000 200 ∷ item 1100 110 ∷ item 1010 101 ∷ [];
  selection_sequence = 1;
  asset_sequence = 1;
  version_sequence = 1;
  item_sequence = 1;
  effects = [];
  schedules = 1 ∷ 2 ∷ [];
}

-- A source without schedules, as with a sync interval of 0, cannot be deleted.
unscheduled : delete_boot_source 1 (record db { schedules = 2 ∷ [] }) ≡ raise rpc_error
unfolding delete_boot_source purge_source disable
unscheduled = refl

removed : purge_source 1 db ≡ ok (1000 ∷ 1010 ∷ 1100 ∷ [], without_source 1 db)
unfolding disable purge_source purge_assets Purge.purge_each Purge.purge_asset Purge.purge_versions
    Purge.delete_by_version_id Purge.delete_by_asset_id Purge.delete_asset Purge.delete_by_source_id
    Purge.delete_source
removed = refl

delete_boot_source_complete_example :
    (deleted : List ℕ) × (delete_boot_source 1 db
      ≡ ok (
        deleted,
        record (without_source 1 db) {
          effects = disable_sync 1 ∷ refresh_index ∷ refresh_index ∷ [];
        },
      ))
    × ((j : ℕ)
        → mem deleted j
          ≡ any
              (λ i. has_id j i.id && owned (versions_of (source_ids 1 db.assets) db.versions) i)
              db.items)
delete_boot_source_complete_example =
    delete_boot_source_complete 1 (source 1) db (refl, (refl, (refl, tt)))
      (refl, (refl, (refl, (refl, tt)))) refl

purge_assets_complete_example :
    (deleted : List ℕ) × (purge_assets (11 ∷ 30 ∷ []) db
      ≡ ok (deleted, record (without (11 ∷ 30 ∷ []) db) { effects = refresh_index ∷ [] }))
    × ((j : ℕ)
        → mem deleted j
          ≡ any (λ i. has_id j i.id && owned (versions_of (11 ∷ 30 ∷ []) db.versions) i) db.items)
purge_assets_complete_example =
    purge_assets_complete (11 ∷ 30 ∷ []) db (refl, (refl, (refl, tt)))
      (refl, (refl, (refl, (refl, tt))))
