-- ===== src/Images/Sync/Tests.antt =====
-- A synchronization of a source, and removals of versions.
use maas_site_manager.Common.{
  ℕ, String, Bool, false, none, some, List, [], ◌∷◌, ◌≡◌, refl, str_eq, ◌||◌, ◌&&◌,
}
use maas_site_manager.Common.Ensures.{Ensures}
use maas_site_manager.Common.Result.{ok, raise, not_found}
use maas_site_manager.Images.Tables.{
  BootSource, BootAsset, BootAssetVersion, BootAssetItem, ImageDb, os_image, refresh_index,
}
use maas_site_manager.Images.Purge.{delete_by_version_id}
use maas_site_manager.Images.Retention.{Version}
use maas_site_manager.Images.Sources.{update_source}
use maas_site_manager.Images.Sync.{
  ProductItem, Product, create_asset, get_or_create, upsert, sync_item, sync_items, sync_version,
  sync_versions, sync_product, sync_products, put_boot_source_assets, remove_version, remove_each,
  remove_versions,
}
use maas_site_manager.Images.Sync.Complete.{ProductsServed, put_boot_source_assets_lem}
use maas_site_manager.Images.Sync.Removal.{Accounts, remove_versions_lem}

abbrev source : ℕ → BootSource
source t = record {
  id = 2;
  priority = 1;
  url = "http://images";
  keyring = none;
  sync_interval = 60;
  name = "maas.io";
  last_sync = t;
}

abbrev noble : ℕ → BootAsset
noble id = record {
  id = id;
  boot_source_id = 2;
  kind = os_image;
  label = "stable";
  os = "ubuntu";
  release = some "noble";
  version = none;
  krel = some "noble";
  codename = none;
  title = none;
  arch = "amd64";
  subarch = some "generic";
  compatibility = [];
  flavor = none;
  base_image = none;
  bootloader_type = none;
  eol = none;
  esm_eol = none;
  signed = false;
}

abbrev version : ℕ → String → ℕ → BootAssetVersion
version id name t = record { id = id; boot_asset_id = 1; version = name; last_seen = t }

abbrev item : ℕ → ℕ → String → ℕ → BootAssetItem
item id version_id path synced = record {
  id = id;
  boot_asset_version_id = some version_id;
  ftype = "squashfs";
  sha256 = "00";
  path = path;
  file_size = 5;
  source_package = none;
  source_version = none;
  source_release = none;
  bytes_synced = synced;
}

abbrev offered : String → ProductItem
offered path = record {
  ftype = "squashfs";
  sha256 = "00";
  path = path;
  file_size = 5;
  source_package = none;
  source_version = none;
  source_release = none;
}

abbrev with_versions : ℕ → List BootAssetVersion → List BootAssetItem → ImageDb
with_versions t versions items = record {
  sources = source t ∷ [];
  selections = [];
  assets = noble 1 ∷ [];
  versions = versions;
  items = items;
  selection_sequence = 1;
  asset_sequence = 2;
  version_sequence = 8;
  item_sequence = 9;
  effects = [];
  schedules = 2 ∷ [];
}

-- The first version is there, one of its items is whole, the other is not.
abbrev db : ImageDb
db = with_versions 3 (version 1 "20240101" 3 ∷ []) (item 1 1 "a" 5 ∷ item 2 1 "b" 4 ∷ [])

abbrev products : List Product
products =
    record {
      details = noble 0;
      versions = ("20240101", offered "a" ∷ offered "b" ∷ []) ∷ ("20240202", offered "c" ∷ []) ∷ [];
    }
    ∷ []

abbrev synced : ImageDb
synced =
    record (with_versions 9 (version 1 "20240101" 9 ∷ version 8 "20240202" 9 ∷ [])
      (item 1 1 "a" 5 ∷ item 2 1 "b" 4 ∷ item 9 8 "c" 0 ∷ [])) {
        version_sequence = 9;
        item_sequence = 10;
      }

asked : put_boot_source_assets str_eq 9 2 products db ≡ ok (2 ∷ 9 ∷ [], synced)
unfolding put_boot_source_assets update_source sync_products sync_product get_or_create create_asset
    sync_versions sync_version upsert sync_items sync_item
asked = refl

unknown : put_boot_source_assets str_eq 9 3 products db ≡ raise not_found
unfolding put_boot_source_assets
unknown = refl

put_boot_source_assets_lem_example : ProductsServed 2 products synced (2 ∷ 9 ∷ [])
unfolding put_boot_source_assets update_source sync_products sync_product get_or_create create_asset
    sync_versions sync_version upsert sync_items sync_item
put_boot_source_assets_lem_example = put_boot_source_assets_lem str_eq 9 2 products db

-- A search that finds a part of the text.
abbrev finds : String → String → Bool
finds text s = str_eq text s || (str_eq text "20240101.10" && str_eq s "20240101.1")

abbrev two_versions : ImageDb
two_versions =
    with_versions 3 (version 1 "20240101.10" 3 ∷ version 2 "20240101.1" 3 ∷ [])
      (item 1 1 "a" 5 ∷ item 2 2 "b" 4 ∷ [])

abbrev first_revision : List Version
first_revision = record { asset_id = 1; version = "20240101.1" } ∷ []

-- The version that is named stays, and another one, whose name has this name as a part, is removed.
other_removed :
    remove_versions finds first_revision two_versions
    ≡ ok (
      1 ∷ [],
      record (with_versions 3 (version 2 "20240101.1" 3 ∷ []) (item 2 2 "b" 4 ∷ [])) {
        effects = refresh_index ∷ [];
      },
    )
unfolding remove_versions remove_each remove_version delete_by_version_id
other_removed = refl

remove_versions_lem_example :
    Ensures (remove_versions finds first_revision two_versions) (Accounts two_versions)
remove_versions_lem_example = remove_versions_lem finds first_revision two_versions
