-- ===== src/Images/Sync.antt =====
-- A synchronization of a boot source: the handler `put_boot_source_assets` of user/handlers/bootassets.py
-- with the statements of service/images.py that it makes, and `remove_versions` and `get_source_assets`.
-- `icontains text part` is the database's search.
mod Growth
mod Served
pub mod Complete
pub mod Removal
mod Tests
use maas_site_manager.Common.{
  ℕ, zero, suc, String, Bool, true, false, not, Option, none, some, List, [], ◌∷◌, ◌++◌, map,
  select, any, leb, ltb, ◌==◌, ◌&&◌, str_eq, if◌then◌else◌,
}
use maas_site_manager.Common.Dict
use maas_site_manager.Common.Dict.{Eq-String}
use maas_site_manager.Common.Result.{
  Tx, ◌>>=◌, ◌>>◌, pure, gets, modify, one, one_or_none, fail, not_found, raise_if, integrity_error,
}
use maas_site_manager.Common.Rows.{update, delete}
use maas_site_manager.Images.Sources.{
  BootSourceUpdate, get_source_by_id, found_source, update_source,
}
use maas_site_manager.Images.Purge.{delete_by_version_id}
use maas_site_manager.Images.Retention.{VersionStatus, AssetVersions, Version}
use maas_site_manager.Images.Tables.{
  BootSource, BootAssetKind, os_image, bootloader, BootAsset, BootAssetVersion, BootAssetItem,
  ImageDb, in_source, is_value, of_asset, of_version, refresh_index, emit,
}

pub record ProductItem : Type 0 where
  pub ftype : String
  pub sha256 : String
  pub path : String
  pub file_size : ℕ
  pub source_package : Option String
  pub source_version : Option String
  pub source_release : Option String

-- A product of the request is the asset that it would be, of no source yet, with its versions.
pub record Product : Type 0 where
  pub details : BootAsset
  pub versions : List (String × List ProductItem)

abbrev kind_eq : BootAssetKind → BootAssetKind → Bool
kind_eq os_image os_image = true
kind_eq bootloader bootloader = true
kind_eq k l = false

module _ (icontains : String → String → Bool) where
  -- `compare_expr` for a nullable text
  abbrev matches_text : Option String → Option String → Bool
  matches_text none none = true
  matches_text (some c) (some v) = icontains c v
  matches_text c v = false

  -- The filters of `get_or_create`
  abbrev pub matches_asset : ℕ → BootAsset → BootAsset → Bool
  matches_asset source_id p a =
      in_source source_id a
      && (kind_eq a.kind p.kind
          && (icontains a.label p.label
              && (icontains a.os p.os
                  && (icontains a.arch p.arch
                      && (matches_text a.release p.release && matches_text a.krel p.krel)))))

abbrev same_null : Option String → Option String → Bool
same_null (some a) (some b) = str_eq a b
same_null a b = false

-- `UniqueConstraint("boot_source_id", "os", "release", "arch", "subarch")`, where a null is like no other
abbrev same_asset : ℕ → BootAsset → BootAsset → Bool
same_asset source_id p a =
    in_source source_id a
    && (str_eq a.os p.os
        && (same_null a.release p.release
            && (str_eq a.arch p.arch && same_null a.subarch p.subarch)))

abbrev pub asset_row : ℕ → ℕ → BootAsset → BootAsset
asset_row id source_id p = record p { id = id; boot_source_id = source_id }

-- `BootAssetService.create`
unfoldable pub create_asset : ℕ → BootAsset → Tx ImageDb BootAsset
create_asset source_id p = do
  clash ← gets (λ d. any (same_asset source_id p) d.assets)
  raise_if clash integrity_error
  asset ← gets (λ d. asset_row d.asset_sequence source_id p)
  modify (λ d. record d { assets = d.assets ++ asset ∷ []; asset_sequence = suc d.asset_sequence })
  pure asset

abbrev pub first_or_create : ℕ → BootAsset → List BootAsset → Tx ImageDb BootAsset
first_or_create source_id p [] = create_asset source_id p
first_or_create source_id p (a ∷ assets) = pure a

-- `BootAssetService.get_or_create`
unfoldable pub get_or_create : (String → String → Bool) → ℕ → BootAsset → Tx ImageDb BootAsset
get_or_create icontains source_id p = do
  assets ← gets (λ d. select (matches_asset icontains source_id p) d.assets)
  first_or_create source_id p assets

abbrev pub is_version : ℕ → String → BootAssetVersion → Bool
is_version asset_id name v = of_asset asset_id v && str_eq v.version name

abbrev pub seen_at : ℕ → BootAssetVersion → BootAssetVersion
seen_at t v = record v { last_seen = t }

abbrev pub or_insert : ℕ → String → ℕ → Option BootAssetVersion → Tx ImageDb BootAssetVersion
or_insert asset_id name t (some v) = pure v
or_insert asset_id name t none = do
  version ← gets (λ d. record {
    id = d.version_sequence;
    boot_asset_id = asset_id;
    version = name;
    last_seen = t;
  })
  modify (λ d. record d {
    versions = d.versions ++ version ∷ [];
    version_sequence = suc d.version_sequence;
  })
  pure version

-- `BootAssetVersionService.upsert`
unfoldable pub upsert : ℕ → String → ℕ → Tx ImageDb BootAssetVersion
upsert asset_id name t = do
  rows ← gets (λ d. map (seen_at t) (select (is_version asset_id name) d.versions))
  modify (λ d. record d { versions = update (is_version asset_id name) (seen_at t) d.versions })
  row ← one_or_none rows
  or_insert asset_id name t row

-- A row of the join of `get_by_path`
abbrev pub on_path : ImageDb → ℕ → String → BootAssetItem → Bool
on_path d source_id path i =
    str_eq i.path path
    && any
        (λ v.
          of_version v.id i
          && any (λ a. (a.id == v.boot_asset_id) && in_source source_id a) d.assets)
        d.versions

abbrev pub item_row : ℕ → ℕ → ProductItem → BootAssetItem
item_row id version_id p = record {
  id = id;
  boot_asset_version_id = some version_id;
  ftype = p.ftype;
  sha256 = p.sha256;
  path = p.path;
  file_size = p.file_size;
  source_package = p.source_package;
  source_version = p.source_version;
  source_release = p.source_release;
  bytes_synced = 0;
}

-- `BootAssetItemService.create`, for an item that is not there
abbrev pub or_create : ℕ → ProductItem → Option BootAssetItem → Tx ImageDb BootAssetItem
or_create version_id p (some i) = pure i
or_create version_id p none = do
  clash ← gets (λ d.
      any (λ i. of_version version_id i && (str_eq i.ftype p.ftype && str_eq i.path p.path))
        d.items)
  raise_if clash integrity_error
  item ← gets (λ d. item_row d.item_sequence version_id p)
  modify (λ d. record d { items = d.items ++ item ∷ []; item_sequence = suc d.item_sequence })
  pure item

abbrev pub if_missing : BootAssetItem → List ℕ → List ℕ
if_missing i to_download =
    if ltb i.bytes_synced i.file_size then to_download ++ i.id ∷ [] else to_download

-- An item of a version, found by its path or created
unfoldable pub sync_item : ℕ → ℕ → ProductItem → Tx ImageDb BootAssetItem
sync_item source_id version_id p = do
  rows ← gets (λ d. select (on_path d source_id p.path) d.items)
  found ← one_or_none rows
  or_create version_id p found

-- The loop over the items of a version
unfoldable pub sync_items : ℕ → ℕ → List ProductItem → List ℕ → Tx ImageDb (List ℕ)
sync_items source_id version_id [] to_download = pure to_download
sync_items source_id version_id (p ∷ items) to_download = do
  item ← sync_item source_id version_id p
  sync_items source_id version_id items (if_missing item to_download)

unfoldable pub sync_version : ℕ → ℕ → ℕ → String × List ProductItem → List ℕ → Tx ImageDb (List ℕ)
sync_version source_id asset_id t v to_download = do
  version ← upsert asset_id v.0 t
  sync_items source_id version.id v.1 to_download

unfoldable pub sync_versions :
    ℕ → ℕ → ℕ → List (String × List ProductItem) → List ℕ → Tx ImageDb (List ℕ)
sync_versions source_id asset_id t [] to_download = pure to_download
sync_versions source_id asset_id t (v ∷ versions) to_download = do
  more ← sync_version source_id asset_id t v to_download
  sync_versions source_id asset_id t versions more

unfoldable pub sync_product :
    (String → String → Bool) → ℕ → ℕ → Product → List ℕ → Tx ImageDb (List ℕ)
sync_product icontains source_id t p to_download = do
  asset ← get_or_create icontains source_id p.details
  sync_versions source_id asset.id t p.versions to_download

unfoldable pub sync_products :
    (String → String → Bool) → ℕ → ℕ → List Product → List ℕ → Tx ImageDb (List ℕ)
sync_products icontains source_id t [] to_download = pure to_download
sync_products icontains source_id t (p ∷ products) to_download = do
  more ← sync_product icontains source_id t p to_download
  sync_products icontains source_id t products more

abbrev pub synced_now : ℕ → BootSourceUpdate
synced_now t = record {
  priority = none;
  url = none;
  name = none;
  keyring = none;
  sync_interval = none;
  last_sync = some t;
}

unfoldable pub put_boot_source_assets :
    (String → String → Bool) → ℕ → ℕ → List Product → Tx ImageDb (List ℕ)
put_boot_source_assets icontains t id products = do
  bs ← get_source_by_id id
  source ← found_source bs
  updated ← update_source id (synced_now t)
  sync_products icontains id t products []

-- `next(iter(versions))`, where there is one
abbrev pub first_version : List BootAssetVersion → Tx ImageDb BootAssetVersion
first_version [] = fail not_found
first_version (v ∷ versions) = pure v

-- `BootAssetVersionService.delete`
abbrev pub delete_version : ℕ → Tx ImageDb ℕ
delete_version id = do
  referred ← gets (λ d. any (of_version id) d.items)
  raise_if referred integrity_error
  rows ← gets (λ d. select (λ v. v.id == id) d.versions)
  modify (λ d. record d { versions = delete (λ v. v.id == id) d.versions })
  deleted ← one rows
  pure deleted.boot_asset_id

abbrev pub remove_found : List BootAssetVersion → Tx ImageDb (List ℕ)
remove_found versions = do
  version ← first_version versions
  items ← gets (λ d. select (of_version version.id) d.items)
  delete_by_version_id version.id
  delete_version version.id
  pure (map (λ i. i.id) items)

-- One round of `remove_versions`
unfoldable pub remove_version : (String → String → Bool) → Version → Tx ImageDb (List ℕ)
remove_version icontains r = do
  versions ←
      gets (λ d. select (λ v. of_asset r.asset_id v && icontains v.version r.version) d.versions)
  remove_found versions

unfoldable pub remove_each : (String → String → Bool) → List Version → List ℕ → Tx ImageDb (List ℕ)
remove_each icontains [] ids = pure ids
remove_each icontains (r ∷ to_remove) ids = do
  more ← remove_version icontains r
  remove_each icontains to_remove (ids ++ more)

-- The handler, with the ids that it leaves for the storage to delete
unfoldable pub remove_versions : (String → String → Bool) → List Version → Tx ImageDb (List ℕ)
remove_versions icontains to_remove = do
  ids ← remove_each icontains to_remove []
  emit refresh_index
  pure ids

abbrev version_status : ImageDb → BootAssetVersion → VersionStatus
version_status d v = record {
  complete =
      not (any (λ i. not (i.bytes_synced == i.file_size)) (select (of_version v.id) d.items));
  last_seen = v.last_seen;
}

abbrev statuses :
    ImageDb → List BootAssetVersion → List (String × VersionStatus) → List (String × VersionStatus)
statuses d [] l = l
statuses d (v ∷ versions) l = statuses d versions (Dict.assign v.version (version_status d v) l)

abbrev pub asset_versions : ImageDb → BootAsset → AssetVersions
asset_versions d a = record {
  asset_id = a.id;
  versions = statuses d (select (of_asset a.id) d.versions) [];
}

unfoldable pub get_source_assets : ℕ → Tx ImageDb (List AssetVersions)
get_source_assets id = do
  bs ← get_source_by_id id
  source ← found_source bs
  gets (λ d. map (asset_versions d) (select (in_source id) d.assets))
