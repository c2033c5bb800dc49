-- ===== src/Images/Purge.antt =====
-- `purge_assets` and `purge_source` of service/images.py, with the deletions that they make, and
-- the handler `delete_boot_source` of user/handlers/bootassets.py.
mod Versions
mod Assets
pub mod Complete
mod Tests
use maas_site_manager.Common.{
  ℕ, Bool, true, false, Option, none, some, List, [], ◌∷◌, ◌++◌, map, ◌==◌, ◌&&◌, select, any,
}
use maas_site_manager.Common.Result.{
  Tx, integrity_error, ◌>>=◌, ◌>>◌, pure, gets, modify, raise_if, fail, not_found, one_or_none,
}
use maas_site_manager.Common.Rows.{delete}
use maas_site_manager.Images.Tables.{
  BootSource, BootAsset, BootAssetVersion, BootAssetItem, ImageDb, refresh_index, disable, emit,
  in_source, of_asset, of_version,
}

-- `BootAssetItemService.delete_by_version_id`
unfoldable pub delete_by_version_id : ℕ → Tx ImageDb Unit
delete_by_version_id id = modify (λ d. record d { items = delete (of_version id) d.items })

-- `BootAssetVersionService.delete_by_asset_id`: no item may refer to a version that goes.
pub delete_by_asset_id : ℕ → Tx ImageDb Unit
delete_by_asset_id id = do
  referred ← gets (λ d. any (λ v. of_asset id v && any (of_version v.id) d.items) d.versions)
  raise_if referred integrity_error
  modify (λ d. record d { versions = delete (of_asset id) d.versions })

-- `BootAssetService.delete`
pub delete_asset : ℕ → Tx ImageDb Unit
delete_asset id = do
  referred ← gets (λ d. any (of_asset id) d.versions)
  raise_if referred integrity_error
  modify (λ d. record d { assets = delete (λ a. a.id == id) d.assets })

-- `BootSourceSelectionService.delete_by_source_id`
pub delete_by_source_id : ℕ → Tx ImageDb Unit
delete_by_source_id id =
    modify (λ d. record d { selections = delete (λ s. s.boot_source_id == id) d.selections })

-- `BootSourceService.delete`
pub delete_source : ℕ → Tx ImageDb Unit
delete_source id = do
  assets ← gets (λ d. any (in_source id) d.assets)
  raise_if assets integrity_error
  selections ← gets (λ d. any (λ s. s.boot_source_id == id) d.selections)
  raise_if selections integrity_error
  modify (λ d. record d { sources = delete (λ s. s.id == id) d.sources })

-- The loop over the versions of one asset, which collects the ids of the items deleted.
pub purge_versions : List BootAssetVersion → Tx ImageDb (List ℕ)
purge_versions [] = pure []
purge_versions (v ∷ vs) = do
  items ← gets (λ d. select (of_version v.id) d.items)
  delete_by_version_id v.id
  rest ← purge_versions vs
  pure (map (λ i. i.id) items ++ rest)

pub purge_asset : BootAsset → Tx ImageDb (List ℕ)
purge_asset a = do
  versions ← gets (λ d. select (of_asset a.id) d.versions)
  ids ← purge_versions versions
  delete_by_asset_id a.id
  delete_asset a.id
  pure ids

-- An asset that is gone by the time its turn comes is passed over.
abbrev purge_found : Option BootAsset → Tx ImageDb (List ℕ)
purge_found none = pure []
purge_found (some a) = purge_asset a

-- The loop of `purge_assets`, with `get_by_id`.
pub purge_each : List ℕ → Tx ImageDb (List ℕ)
purge_each [] = pure []
purge_each (id ∷ ids) = do
  rows ← gets (λ d. select (λ a. a.id == id) d.assets)
  found ← one_or_none rows
  deleted ← purge_found found
  rest ← purge_each ids
  pure (deleted ++ rest)

pub purge_assets : List ℕ → Tx ImageDb (List ℕ)
purge_assets ids = do deleted ← purge_each ids; emit refresh_index; pure deleted

pub purge_source : ℕ → Tx ImageDb (List ℕ)
purge_source id = do
  disable id
  assets ← gets (λ d. select (in_source id) d.assets)
  deleted ← purge_assets (map (λ a. a.id) assets)
  delete_by_source_id id
  delete_source id
  pure deleted

abbrev refuse_absent : Option BootSource → Tx ImageDb Unit
refuse_absent none = fail not_found
refuse_absent (some s) = pure tt

-- The handler `delete_boot_source`, which answers with the ids for the storage to delete.
pub delete_boot_source : ℕ → Tx ImageDb (List ℕ)
delete_boot_source id = do
  rows ← gets (λ d. select (λ s. s.id == id) d.sources)
  found ← one_or_none rows
  refuse_absent found
  deleted ← purge_source id
  emit refresh_index
  pure deleted
