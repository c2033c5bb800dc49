-- ===== src/Images/Items.antt =====
-- Boot asset items: the handlers `patch_boot_asset_items` and `get_boot_asset_item` of
-- user/handlers/bootassets.py, with `get_by_id` and `update` of `BootAssetItemService`.
mod Tests
use maas_site_manager.Common.{
  ℕ, String, Bool, true, false, Option, none, some, List, [], ◌∷◌, ◌≡◌, refl, ◌∙◌, map, select,
  ◌==◌, ◌&&◌, not, Bool-cases, inl, inr, arith, ap, if◌then◌else◌, is_none,
}
use maas_site_manager.Common.Ensures.{
  Ensures, any-Ensures, bind-Ensures, raise_if-Ensures, weaken-Ensures,
}
use maas_site_manager.Common.Result.{
  Tx, ok, raise, ◌>>=◌, ◌>>◌, pure, gets, modify, one, one_or_none, fail, not_found, forbidden,
  raise_if, programming_error,
}
use maas_site_manager.Common.Rows.{update}
use maas_site_manager.Images.Tables.{BootAssetItem, ImageDb, refresh_index, emit}
use maas_site_manager.Images.Sources.{or_kept, or_kept_optional}

-- Who is authenticated: a user or a worker
pub data Caller : Type 0 where
  user worker : Caller

pub record BootAssetItemPatchRequest : Type 0 where
  pub ftype : Option String
  pub source_package : Option String
  pub source_version : Option String
  pub source_release : Option String
  pub bytes_synced : Option ℕ

abbrev with_patch : BootAssetItemPatchRequest → BootAssetItem → BootAssetItem
with_patch r i = record i {
  ftype = or_kept r.ftype i.ftype;
  source_package = or_kept_optional r.source_package i.source_package;
  source_version = or_kept_optional r.source_version i.source_version;
  source_release = or_kept_optional r.source_release i.source_release;
  bytes_synced = or_kept r.bytes_synced i.bytes_synced;
}

abbrev get_item_by_id : ℕ → Tx ImageDb (Option BootAssetItem)
get_item_by_id id = do rows ← gets (λ d. select (λ i. i.id == id) d.items); one_or_none rows

abbrev found_item : Option BootAssetItem → Tx ImageDb BootAssetItem
found_item none = fail not_found
found_item (some i) = pure i

-- No column is set.
abbrev sets_nothing : BootAssetItemPatchRequest → Bool
sets_nothing r =
    is_none r.ftype
    && (is_none r.source_package
        && (is_none r.source_version && (is_none r.source_release && is_none r.bytes_synced)))

-- `BootAssetItemService.update`
abbrev update_item : ℕ → BootAssetItemPatchRequest → Tx ImageDb BootAssetItem
update_item id r = do
  raise_if (sets_nothing r) programming_error
  rows ← gets (λ d. map (with_patch r) (select (λ i. i.id == id) d.items))
  modify (λ d. record d { items = update (λ i. i.id == id) (with_patch r) d.items })
  one rows

abbrev changes_bytes : Caller → Option ℕ → Bool
changes_bytes user (some n) = true
changes_bytes c n = false

abbrev patch_found : ℕ → BootAssetItemPatchRequest → Tx ImageDb BootAssetItem
patch_found id r = do
  row ← get_item_by_id id
  found ← found_item row
  updated ← update_item id r
  emit refresh_index
  pure updated

unfoldable pub patch_boot_asset_items :
    Caller → ℕ → BootAssetItemPatchRequest → Tx ImageDb BootAssetItem
patch_boot_asset_items caller id r = do
  raise_if (changes_bytes caller r.bytes_synced) forbidden
  patch_found id r

unfoldable pub get_boot_asset_item : ℕ → Tx ImageDb BootAssetItem
get_boot_asset_item id = do row ← get_item_by_id id; found_item row

no_bytes : (o : Option ℕ) → changes_bytes user o ≡ false → o ≡ none
no_bytes none h = refl
no_bytes (some n) h = cc

abbrev pub all_bytes : List BootAssetItem → List (ℕ × ℕ)
all_bytes l = map (λ i. (i.id, i.bytes_synced)) l

all_bytes-update :
    (id : ℕ) (r : BootAssetItemPatchRequest) (l : List BootAssetItem)
    → r.bytes_synced ≡ none
    → all_bytes (update (λ i. i.id == id) (with_patch r) l) ≡ all_bytes l
all_bytes-update id r [] h = refl
all_bytes-update id r (i ∷ l) h =
    let same : or_kept r.bytes_synced i.bytes_synced ≡ i.bytes_synced =
      ap (λ o. or_kept o i.bytes_synced) h in
    ground (arith, all_bytes-update id r l h, same)

patch_found-Ensures :
    (id : ℕ) (r : BootAssetItemPatchRequest) (d : ImageDb)
    → r.bytes_synced ≡ none
    → Ensures (patch_found id r d) (λ i e. all_bytes e.items ≡ all_bytes d.items)
patch_found-Ensures id r d h =
    bind-Ensures (λ row. found_item row >> write) (λ o e. e.items ≡ d.items) Kept
      (get_item_by_id id) d (read (select (λ i. i.id == id) d.items)) (λ row e at. found row e at)
  where
    Kept : BootAssetItem → ImageDb → Type 0
    Kept i e = all_bytes e.items ≡ all_bytes d.items

    write : Tx ImageDb BootAssetItem
    write = do updated ← update_item id r; emit refresh_index; pure updated

    read : (l : List BootAssetItem) → Ensures (one_or_none l d) (λ o e. e.items ≡ d.items)
    read [] = refl
    read (i ∷ []) = refl
    read (i ∷ j ∷ l) = tt

    written :
        (l : List BootAssetItem) (e : ImageDb)
        → e.items ≡ d.items
        → Ensures
            ((one l >>= (λ i. emit refresh_index >> pure i))
              (record e { items = update (λ i. i.id == id) (with_patch r) e.items }))
            Kept
    written [] e at = tt
    written (i ∷ []) e at = all_bytes-update id r e.items h ∙ ap all_bytes at
    written (i ∷ j ∷ l) e at = tt

    found :
        (row : Option BootAssetItem) (e : ImageDb)
        → e.items ≡ d.items
        → Ensures ((found_item row >> write) e) Kept
    found none e at = tt
    found (some i) e at = elim (Bool-cases (sets_nothing r)) [
      | inl empty ↦ rw (empty, ◌>>=◌) tt
      | inr given ↦
          rw (given, ◌>>=◌) (written (map (with_patch r) (select (λ j. j.id == id) e.items)) e at)
    ]

-- A patch by a user leaves of every item the number of bytes that are synced.
pub patch_boot_asset_items_by_user :
    (id : ℕ) (r : BootAssetItemPatchRequest) (d : ImageDb)
    → Ensures (patch_boot_asset_items user id r d) (λ i e. all_bytes e.items ≡ all_bytes d.items)
unfolding patch_boot_asset_items
patch_boot_asset_items_by_user id r d =
    bind-Ensures (λ u. patch_found id r)
      (λ u e. (e ≡ d) × (changes_bytes user r.bytes_synced ≡ false))
      (λ i e. all_bytes e.items ≡ all_bytes d.items)
      (raise_if (changes_bytes user r.bytes_synced) forbidden) d
      (raise_if-Ensures (changes_bytes user r.bytes_synced) forbidden d)
      (λ u e h.
        weaken-Ensures (λ i f. all_bytes f.items ≡ all_bytes e.items)
          (λ i f. all_bytes f.items ≡ all_bytes d.items) (patch_found id r e)
          (patch_found-Ensures id r e (no_bytes r.bytes_synced h.1))
          (λ i f same. same ∙ ap (λ s. all_bytes s.items) h.0))
