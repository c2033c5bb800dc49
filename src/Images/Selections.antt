-- ===== src/Images/Selections.antt =====
-- The handlers of user/handlers/selections.py, with the operations of `BootSourceSelectionService` and
-- `BootAssetVersionService` (service/images.py) that they make. `icontains` is the database's search for
-- a part of a text, whatever the case. The order of a set of ids is that in which they were added, and
-- rows that the order of a statement does not tell apart are in the order of the table.
pub mod Selectable
pub mod Shown
pub mod Priority
pub mod Listed
mod Tests
use maas_site_manager.Common.{
  ℕ, ◌+◌, String, Bool, true, false, Option, none, some, List, [], ◌∷◌, ◌++◌, map, ◌==◌, ◌&&◌, not,
  select, any, leb, length, str_eq, if◌then◌else◌,
}
use maas_site_manager.Common.Dict
use maas_site_manager.Common.Sorts.{sort, str_le}
use maas_site_manager.Common.Result.{
  Tx, not_found, value_error, assertion_error, ◌>>=◌, ◌>>◌, pure, fail, gets, modify, raise_if,
  one_or_none,
}
use maas_site_manager.Common.Rows.{update}
use maas_site_manager.Images.Tables.{
  BootSource, BootSourceSelection, BootAsset, BootAssetVersion, BootAssetItem, ImageDb, trigger,
  in_source, of_asset, of_version,
}
use maas_site_manager.Images.Keys.{Key, key_eq, key_le, Eq-Key}
pub use maas_site_manager.Images.Available.{selection_key}
use maas_site_manager.Images.Purge.{purge_assets}

abbrev pub custom_image_source_id : ℕ
custom_image_source_id = 1

abbrev pub mem_id : List ℕ → ℕ → Bool
mem_id ids id = any (λ j. j == id) ids

abbrev pub distinct : List ℕ → List ℕ
distinct [] = []
distinct (id ∷ ids) = let rest = distinct ids in if mem_id ids id then rest else id ∷ rest

-- `get_selections`, with `get_many_by_id`
unfoldable pub get_selections : List ℕ → Tx ImageDb (List BootSourceSelection)
get_selections ids = do
  rows ← gets (λ d. select (λ s. mem_id ids s.id) d.selections)
  raise_if (not (length rows == length ids)) not_found
  pure rows

abbrev pub trigger_each : List ℕ → Tx ImageDb Unit
trigger_each [] = pure tt
trigger_each (id ∷ ids) = do trigger id; trigger_each ids

-- `BootSourceSelectionService.update_many`
unfoldable pub update_many : List ℕ → Bool → Tx ImageDb Unit
update_many ids chosen = do
  modify (λ d. record d {
    selections = update (λ s. mem_id ids s.id) (λ s. record s { selected = chosen }) d.selections;
  })
  rows ← gets (λ d. select (λ s. mem_id ids s.id) d.selections)
  trigger_each (distinct (map (λ s. s.boot_source_id) rows))

unfoldable pub select_images : List ℕ → Tx ImageDb Unit
select_images ids = do rows ← get_selections ids; update_many ids true

pub record SelectableImage : Type 0 where
  pub selection_id : ℕ
  pub os : String
  pub release : String
  pub arch : String
  pub boot_source_id : ℕ
  pub boot_source_name : String
  pub boot_source_url : String

abbrev pub selectable_key : SelectableImage → Key
selectable_key i = (i.os, (i.release, i.arch))

-- `SortParam("priority", asc=False)`
abbrev pub by_priority : List BootSource → List BootSource
by_priority sources = sort (λ a b. leb b.priority a.priority) sources

-- The sources with their selections, in the order in which both loops run through them.
abbrev pub with_source :
    BootSource → List BootSourceSelection → List (BootSource × BootSourceSelection)
with_source b [] = []
with_source b (s ∷ l) = (b, s) ∷ with_source b l

abbrev pub offers_of :
    List BootSource → List BootSourceSelection → List (BootSource × BootSourceSelection)
offers_of [] selections = []
offers_of (b ∷ sources) selections =
    with_source b (select (λ s. s.boot_source_id == b.id) selections)
    ++ offers_of sources selections

abbrev pub offers : ImageDb → List (BootSource × BootSourceSelection)
offers d = offers_of (by_priority d.sources) d.selections

abbrev pub selectable_image : BootSource × BootSourceSelection → SelectableImage
selectable_image o = record {
  selection_id = o.1.id;
  os = o.1.os;
  release = o.1.release;
  arch = o.1.arch;
  boot_source_id = o.0.id;
  boot_source_name = o.0.name;
  boot_source_url = o.0.url;
}

abbrev pub mem_key : List Key → Key → Bool
mem_key l k = any (λ j. key_eq j k) l

-- The three collections of `get_selectable_images`.
pub record Found : Type 0 where
  pub selectable : List (Key × SelectableImage)
  pub selected : List Key
  pub images_found : List Key

-- The body of the loops.
abbrev pub look_at : BootSource × BootSourceSelection → Found → Found
look_at o f =
    let key = selection_key o.1 in
    let seen = record f { images_found = f.images_found ++ key ∷ [] } in
    if not o.1.selected
    then (if mem_key f.images_found key
        then seen
        else record seen { selectable = Dict.assign key (selectable_image o) f.selectable })
    else (if Dict.has f.selectable key
        then record seen { selected = f.selected ++ key ∷ [] }
        else seen)

abbrev pub look_at_all : List (BootSource × BootSourceSelection) → Found → Found
look_at_all [] f = f
look_at_all (o ∷ l) f = look_at_all l (look_at o f)

abbrev pub pop_selected : List Key → List (Key × SelectableImage) → List (Key × SelectableImage)
pop_selected [] d = d
pop_selected (k ∷ keys) d = pop_selected keys (Dict.remove k d)

abbrev pub nothing_found : Found
nothing_found = record { selectable = []; selected = []; images_found = [] }

unfoldable pub get_selectable_images : ImageDb → List SelectableImage
get_selectable_images d =
    let f = look_at_all (offers d) nothing_found in
    sort (λ a b. key_le (selectable_key a) (selectable_key b))
      (map (λ e. e.1) (pop_selected f.selected f.selectable))
