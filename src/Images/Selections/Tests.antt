-- ===== src/Images/Selections/Tests.antt =====
-- Two sources that offer the same images.
use maas_site_manager.Common.{
  ℕ, String, Bool, true, false, Option, none, some, List, [], ◌∷◌, ◌≡◌, refl, select, str_eq,
}
use maas_site_manager.Common.Result.{ok, raise, not_found}
use maas_site_manager.Images.Tables.{os_image, BootAsset, BootSource, BootSourceSelection, ImageDb}
use maas_site_manager.Images.Keys.{Key, key_eq}
use maas_site_manager.Images.Selections.{
  SelectableImage, selectable_key, get_selectable_images, select_images, get_selections,
  update_many,
}
use maas_site_manager.Images.Selections.Selectable.{get_selectable_images_lem}
use maas_site_manager.Images.Selections.Shown.{SelectedImage, get_selected_images}
use maas_site_manager.Images.Selections.Listed.{has_key, Shows, get_selected_images_lem}

abbrev source : ℕ → ℕ → String → BootSource
source id priority name = record {
  id = id;
  priority = priority;
  url = "http://images";
  keyring = none;
  sync_interval = 60;
  name = name;
  last_sync = 0;
}

abbrev selection : ℕ → ℕ → String → Bool → BootSourceSelection
selection id source_id release selected = record {
  id = id;
  boot_source_id = source_id;
  label = "stable";
  os = "ubuntu";
  release = release;
  arch = "amd64";
  selected = selected;
}

-- The second source offers noble and jammy first; the third has jammy selected.
abbrev db : ImageDb
db = record {
  sources = source 1 1 "custom" ∷ source 3 5 "mirror" ∷ source 2 9 "maas.io" ∷ [];
  selections =
      selection 10 2 "noble" false
      ∷ selection 11 2 "jammy" false
      ∷ selection 12 3 "jammy" true
      ∷ selection 13 3 "noble" false
      ∷ [];
  assets = [];
  versions = [];
  items = [];
  selection_sequence = 14;
  asset_sequence = 1;
  version_sequence = 1;
  item_sequence = 1;
  effects = [];
  schedules = 1 ∷ 2 ∷ [];
}

abbrev noble : Key
noble = ("ubuntu", ("noble", "amd64"))

abbrev jammy : Key
jammy = ("ubuntu", ("jammy", "amd64"))

abbrev noble_of_second : SelectableImage
noble_of_second = record {
  selection_id = 10;
  os = "ubuntu";
  release = "noble";
  arch = "amd64";
  boot_source_id = 2;
  boot_source_name = "maas.io";
  boot_source_url = "http://images";
}

only_noble : get_selectable_images db ≡ noble_of_second ∷ []
unfolding get_selectable_images
only_noble = refl

-- Two equal ids are refused, though the selection is there.
twice_refused : select_images (10 ∷ 10 ∷ []) db ≡ raise not_found
unfolding select_images get_selections update_many
twice_refused = refl

get_selectable_images_lem_example :
    select (λ i. key_eq (selectable_key i) noble) (get_selectable_images db) ≡ noble_of_second ∷ []
get_selectable_images_lem_example = get_selectable_images_lem db noble

-- A jammy image that was uploaded; both mirrors have jammy selected.
abbrev uploaded_jammy : BootAsset
uploaded_jammy = record {
  id = 30;
  boot_source_id = 1;
  kind = os_image;
  label = "custom";
  os = "ubuntu";
  release = some "jammy";
  version = none;
  krel = none;
  codename = none;
  title = none;
  arch = "amd64";
  subarch = none;
  compatibility = [];
  flavor = none;
  base_image = none;
  bootloader_type = none;
  eol = none;
  esm_eol = none;
  signed = false;
}

abbrev both : ImageDb
both = record db {
  selections =
      selection 12 3 "jammy" true ∷ selection 11 2 "jammy" true ∷ selection 13 3 "noble" false ∷ [];
  assets = uploaded_jammy ∷ [];
}

abbrev jammy_image : ℕ → String → Option ℕ → Option ℕ → SelectedImage
jammy_image source_id name custom_image_id selection_id = record {
  boot_source_id = source_id;
  boot_source_name = name;
  boot_source_url = "http://images";
  os = "ubuntu";
  arch = "amd64";
  release = "jammy";
  size = 0;
  downloaded = 0;
  custom_image_id = custom_image_id;
  selection_id = selection_id;
}

jammy_shown :
    get_selected_images str_eq both
    ≡ ok (jammy_image 2 "maas.io" none (some 11) ∷ jammy_image 1 "custom" (some 30) none ∷ [], both)
unfolding get_selected_images
jammy_shown = refl

get_selected_images_lem_example :
    (l : List SelectedImage) × (get_selected_images str_eq both ≡ ok (l, both))
    × Shows str_eq both (source 1 1 "custom") jammy (select (has_key jammy) l)
get_selected_images_lem_example =
    get_selected_images_lem str_eq both jammy (source 1 1 "custom") refl refl
