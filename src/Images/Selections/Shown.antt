-- ===== src/Images/Selections/Shown.antt =====
-- The handlers `get_selected_images`, `remove_selections` and `get_image_sources` of
-- user/handlers/selections.py.
use maas_site_manager.Common.{
  ℕ, ◌+◌, String, Bool, false, Option, none, some, List, [], ◌∷◌, ◌++◌, map, ◌==◌, ◌&&◌, not,
  select, if◌then◌else◌,
}
use maas_site_manager.Common.Sorts.{sort, str_le}
use maas_site_manager.Common.Result.{
  Tx, value_error, assertion_error, ◌>>=◌, ◌>>◌, pure, fail, gets, one_or_none,
}
use maas_site_manager.Images.Tables.{
  BootSource, BootSourceSelection, BootAsset, BootAssetVersion, BootAssetItem, ImageDb, in_source,
  of_asset, of_version,
}
use maas_site_manager.Images.Keys.{Key, key_le}
use maas_site_manager.Images.Purge.{purge_assets}
use maas_site_manager.Images.Selections.{
  custom_image_source_id, get_selections, update_many, selection_key, offers, mem_key,
}

pub record SelectedImage : Type 0 where
  pub boot_source_id : ℕ
  pub boot_source_name : String
  pub boot_source_url : String
  pub os : String
  pub arch : String
  pub release : String
  pub size : ℕ
  pub downloaded : ℕ
  pub custom_image_id : Option ℕ
  pub selection_id : Option ℕ

abbrev pub selected_key : SelectedImage → Key
selected_key i = (i.os, (i.release, i.arch))

abbrev head : {A : Type 0} → List A → Option A
head [] = none
head (x ∷ l) = some x

-- `get_latest_version`
abbrev pub get_latest_version : ℕ → ImageDb → Option BootAssetVersion
get_latest_version id d =
    head (sort (λ v w. str_le w.version v.version) (select (of_asset id) d.versions))

abbrev pub sizes : List BootAssetItem → ℕ × ℕ
sizes [] = (0, 0)
sizes (i ∷ l) =
    let (size, downloaded) = sizes l in (i.file_size + size, i.bytes_synced + downloaded)

abbrev version_sizes : Option BootAssetVersion → ImageDb → ℕ × ℕ
version_sizes none d = (0, 0)
version_sizes (some v) d = sizes (select (of_version v.id) d.items)

abbrev pub get_total_size_and_downloaded : ℕ → ImageDb → ℕ × ℕ
get_total_size_and_downloaded id d = version_sizes (get_latest_version id d) d

abbrev asset_sizes : Option BootAsset → ImageDb → ℕ × ℕ
asset_sizes none d = (0, 0)
asset_sizes (some a) d = get_total_size_and_downloaded a.id d

abbrev pub custom_image : BootSource → ImageDb → BootAsset → String → SelectedImage
custom_image b d a release =
    let (size, downloaded) = get_total_size_and_downloaded a.id d in
    record {
      boot_source_id = b.id;
      boot_source_name = b.name;
      boot_source_url = b.url;
      os = a.os;
      arch = a.arch;
      release = release;
      size = size;
      downloaded = downloaded;
      custom_image_id = some a.id;
      selection_id = none;
    }

abbrev pub with_release :
    Option String
    → (String → SelectedImage)
    → Option (List SelectedImage)
    → Option (List SelectedImage)
with_release none image rest = none
with_release (some r) image none = none
with_release (some r) image (some l) = some (image r ∷ l)

-- The images of the custom source; none if one of them has no release, which the model refuses.
abbrev pub custom_images : BootSource → ImageDb → List BootAsset → Option (List SelectedImage)
custom_images b d [] = some []
custom_images b d (a ∷ l) = with_release a.release (custom_image b d a) (custom_images b d l)

-- `selected`, and the keys in `images_found`
abbrev pub Listed : Type 0
Listed = List SelectedImage × List Key

abbrev must_have : {A : Type 0} → Option A → Tx ImageDb A
must_have none = fail assertion_error
must_have (some a) = pure a

abbrev must_be_valid : {A : Type 0} → Option A → Tx ImageDb A
must_be_valid none = fail value_error
must_be_valid (some a) = pure a

abbrev with_first :
    BootSource → List BootSourceSelection → List (BootSource × ℕ) → List (BootSource × ℕ)
with_first b [] rest = rest
with_first b (s ∷ l) rest = (b, s.id) ∷ rest

-- `icontains text part`
module _ (icontains : String → String → Bool) where
  abbrev pub contains_some : Option String → String → Bool
  contains_some none part = false
  contains_some (some t) part = icontains t part

  -- The filters on the assets of a selection.
  abbrev pub matches_asset : ℕ → BootSourceSelection → BootAsset → Bool
  matches_asset source_id s a =
      in_source source_id a
      && (icontains a.os s.os && (icontains a.arch s.arch && contains_some a.release s.release))

  abbrev pub selected_image : ImageDb → BootSource × BootSourceSelection → SelectedImage
  selected_image d o =
      let (size, downloaded) = asset_sizes (head (select (matches_asset o.0.id o.1) d.assets)) d in
      record {
        boot_source_id = o.0.id;
        boot_source_name = o.0.name;
        boot_source_url = o.0.url;
        os = o.1.os;
        arch = o.1.arch;
        release = o.1.release;
        size = size;
        downloaded = downloaded;
        custom_image_id = none;
        selection_id = some o.1.id;
      }

  -- The body of the loops.
  abbrev pub list_selected : ImageDb → BootSource × BootSourceSelection → Listed → Listed
  list_selected d o (images, found) =
      if not (mem_key found (selection_key o.1)) && o.1.selected
      then (images ++ selected_image d o ∷ [], found ++ selection_key o.1 ∷ [])
      else (images, found)

  abbrev pub list_all : ImageDb → List (BootSource × BootSourceSelection) → Listed → Listed
  list_all d [] acc = acc
  list_all d (o ∷ l) acc = list_all d l (list_selected d o acc)

  unfoldable pub get_selected_images : Tx ImageDb (List SelectedImage)
  get_selected_images = do
    db ← gets (λ d. d)
    let listed = list_all db (offers db) ([], [])
    row ← one_or_none (select (λ s. s.id == custom_image_source_id) db.sources)
    custom ← must_have row
    images ← must_be_valid (custom_images custom db (select (in_source custom.id) db.assets))
    pure (sort (λ a b. key_le (selected_key a) (selected_key b)) (listed.0 ++ images))

  abbrev pub matches_selection : BootSourceSelection → BootAsset → Bool
  matches_selection s a = matches_asset s.boot_source_id s a && icontains a.label s.label

  abbrev pub assets_of : List BootSourceSelection → ImageDb → List ℕ
  assets_of [] d = []
  assets_of (s ∷ l) d = map (λ a. a.id) (select (matches_selection s) d.assets) ++ assets_of l d

  pub remove_selections : List ℕ → Tx ImageDb (List ℕ)
  remove_selections ids = do
    selections ← get_selections ids
    update_many ids false
    asset_ids ← gets (assets_of selections)
    purge_assets asset_ids

  -- Of each source that offers the image, the source and the id of the first selection.
  abbrev pub sources_of :
      (BootSourceSelection → Bool)
      → List BootSource
      → List BootSourceSelection
      → List (BootSource × ℕ)
  sources_of p [] selections = []
  sources_of p (b ∷ sources) selections =
      with_first b (select (λ s. (s.boot_source_id == b.id) && p s) selections)
        (sources_of p sources selections)

  pub get_image_sources : String → String → String → ImageDb → List (BootSource × ℕ)
  get_image_sources os release arch d =
      sources_of (λ s. icontains s.os os && (icontains s.release release && icontains s.arch arch))
        d.sources d.selections
