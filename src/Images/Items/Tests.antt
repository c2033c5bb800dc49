-- ===== src/Images/Items/Tests.antt =====
-- Patches of an item by a user and by a worker.
use maas_site_manager.Common.{ℕ, String, none, some, [], ◌∷◌, ◌≡◌, refl, Option}
use maas_site_manager.Common.Ensures.{Ensures}
use maas_site_manager.Common.Result.{ok, raise, forbidden}
use maas_site_manager.Images.Tables.{BootAssetItem, ImageDb, refresh_index}
use maas_site_manager.Images.Items.{
  user, worker, BootAssetItemPatchRequest, patch_boot_asset_items, all_bytes,
  patch_boot_asset_items_by_user,
}

abbrev item : String → ℕ → BootAssetItem
item ftype synced = record {
  id = 4;
  boot_asset_version_id = some 1;
  ftype = ftype;
  sha256 = "00";
  path = "a";
  file_size = 5;
  source_package = none;
  source_version = none;
  source_release = none;
  bytes_synced = synced;
}

abbrev db : ImageDb
db = record {
  sources = [];
  selections = [];
  assets = [];
  versions = [];
  items = item "squashfs" 2 ∷ [];
  selection_sequence = 1;
  asset_sequence = 1;
  version_sequence = 1;
  item_sequence = 5;
  effects = [];
  schedules = 1 ∷ 2 ∷ [];
}

abbrev patch : Option String → Option ℕ → BootAssetItemPatchRequest
patch ftype bytes_synced = record {
  ftype = ftype;
  source_package = none;
  source_version = none;
  source_release = none;
  bytes_synced = bytes_synced;
}

by_worker :
    patch_boot_asset_items worker 4 (patch none (some 5)) db
    ≡ ok (
      item "squashfs" 5,
      record db { items = item "squashfs" 5 ∷ []; effects = refresh_index ∷ [] },
    )
unfolding patch_boot_asset_items
by_worker = refl

refused : patch_boot_asset_items user 4 (patch none (some 5)) db ≡ raise forbidden
unfolding patch_boot_asset_items
refused = refl

by_user :
    patch_boot_asset_items user 4 (patch (some "root.tgz") none) db
    ≡ ok (
      item "root.tgz" 2,
      record db { items = item "root.tgz" 2 ∷ []; effects = refresh_index ∷ [] },
    )
unfolding patch_boot_asset_items
by_user = refl

patch_boot_asset_items_by_user_example :
    Ensures
      (patch_boot_asset_items user 4 (patch (some "root.tgz") none) db)
      (λ i e. all_bytes e.items ≡ all_bytes db.items)
patch_boot_asset_items_by_user_example =
    patch_boot_asset_items_by_user 4 (patch (some "root.tgz") none) db
