-- ===== src/Images/Sync/Served.antt =====
-- One item of a synchronization.
use maas_site_manager.Common.{
  ℕ, suc, String, Bool, true, not, List, [], ◌∷◌, ◌++◌, ◌≡◌, refl, ◌∙◌, select, any, ltb, str_eq,
  ◌==◌, ◌&&◌, ◌||◌, arith, Bool-cases, inl, inr,
}
use maas_site_manager.Common.Dict.{string_self, nat_self}
use maas_site_manager.Common.Ensures.{Ensures}
use maas_site_manager.Common.Result.{◌>>=◌, one_or_none}
use maas_site_manager.Common.Rows.{any-and_swap}
use maas_site_manager.Images.Tables.{BootAssetItem, ImageDb, in_source, of_version}
use maas_site_manager.Images.Sync.{ProductItem, on_path, item_row, or_create, if_missing, sync_item}
use maas_site_manager.Images.Sync.Growth.{
  Grows, Grows-same, any_implies, any_more, any_last, IsVersionOf,
}

abbrev pub mem : List ℕ → ℕ → Bool
mem ids i = any (λ j. j == i) ids

-- An item that is whole, or is to be downloaded.
abbrev pub handled : List ℕ → BootAssetItem → Bool
handled ids i = not (ltb i.bytes_synced i.file_size) || mem ids i.id

-- The source has an item on the path that is whole or to be downloaded.
abbrev pub IsServed : ImageDb → ℕ → List ℕ → ProductItem → Type 0
IsServed d source_id ids p = any (λ i. on_path d source_id p.path i && handled ids i) d.items ≡ true

abbrev pub Within : List ℕ → List ℕ → Type 0
Within a b = (i : ℕ) → mem a i ≡ true → mem b i ≡ true

-- A version that passes, of an asset of the source.
abbrev pub linked : ImageDb → ℕ → (ℕ → Bool) → Bool
linked d source_id f =
    any (λ v. f v.id && any (λ a. (a.id == v.boot_asset_id) && in_source source_id a) d.assets)
      d.versions

pub linked-Grows :
    (d e : ImageDb) (source_id : ℕ) (f : ℕ → Bool)
    → Grows d e
    → linked d source_id f ≡ true
    → linked e source_id f ≡ true
linked-Grows d e source_id f g h =
    g.versions_kept (λ k j. f k && any (λ a. (a.id == j) && in_source source_id a) e.assets)
      (any_implies
        (λ v. f v.id && any (λ a. (a.id == v.boot_asset_id) && in_source source_id a) d.assets) _
        d.versions
        (λ v t.
          ground
            (arith, t, g.assets_kept (λ a. (a.id == v.boot_asset_id) && in_source source_id a)))
        h)

on_path-Grows :
    (d e : ImageDb) (source_id : ℕ) (path : String) (i : BootAssetItem)
    → Grows d e
    → on_path d source_id path i ≡ true
    → on_path e source_id path i ≡ true
on_path-Grows d e source_id path i g h =
    ground (arith, h, linked-Grows d e source_id (λ k. of_version k i) g)

pub IsServed-Grows :
    (d e : ImageDb) (source_id : ℕ) (a b : List ℕ) (p : ProductItem)
    → Grows d e
    → Within a b
    → IsServed d source_id a p
    → IsServed e source_id b p
IsServed-Grows d e source_id a b p g w h =
    any_implies (λ i. on_path d source_id p.path i && handled a i)
      (λ i. on_path e source_id p.path i && handled b i) e.items
      (λ i t. ground (arith, t, on_path-Grows d e source_id p.path i g, w i.id))
      (g.items_kept (λ i. on_path d source_id p.path i && handled a i) h)

handled_now : (ids : List ℕ) (i : BootAssetItem) → handled (if_missing i ids) i ≡ true
handled_now ids i = elim (Bool-cases (ltb i.bytes_synced i.file_size)) [
  | inl missing ↦ rw missing (any_last (λ j. j == i.id) ids i.id (nat_self i.id))
  | inr whole ↦ rw whole refl
]

with_item-Grows :
    (d : ImageDb) (i : BootAssetItem) (n : ℕ)
    → Grows d (record d { items = d.items ++ i ∷ []; item_sequence = n })
with_item-Grows d i n = record {
  assets_kept = λ q h. h;
  versions_kept = λ q h. h;
  items_kept = λ q h. any_more q d.items i h;
}

-- One item.
pub sync_item-IsServed :
    (source_id version_id : ℕ) (p : ProductItem) (ids : List ℕ) (d : ImageDb)
    → IsVersionOf d source_id version_id
    → Ensures
        (sync_item source_id version_id p d)
        (λ i e. Grows d e × IsServed e source_id (if_missing i ids) p)
unfolding sync_item
sync_item-IsServed source_id version_id p ids d owned =
    go (select (on_path d source_id p.path) d.items) refl
  where
    new : BootAssetItem
    new = item_row d.item_sequence version_id p

    on_its_path : on_path d source_id p.path new ≡ true
    on_its_path =
        let in_version : any
              (λ v.
                (version_id == v.id)
                && any (λ a. (a.id == v.boot_asset_id) && in_source source_id a) d.assets)
              d.versions
            ≡ true =
          any_implies
            (λ v.
              (v.id == version_id)
              && any (λ a. (a.id == v.boot_asset_id) && in_source source_id a) d.assets)
            _ d.versions (λ v t. ground (arith, t)) owned in
        ground (arith, string_self p.path, in_version)

    go :
        (l : List BootAssetItem)
        → select (on_path d source_id p.path) d.items ≡ l
        → Ensures
            ((one_or_none l >>= or_create version_id p) d)
            (λ i e. Grows d e × IsServed e source_id (if_missing i ids) p)
    go [] at =
        elim (Bool-cases (
          any (λ i. of_version version_id i && (str_eq i.ftype p.ftype && str_eq i.path p.path))
            d.items)) [
              | inl hit ↦ rw (hit, ◌>>=◌) tt
              | inr miss ↦
                  rw (miss, ◌>>=◌)
                    (
                      with_item-Grows d new (suc d.item_sequence),
                      any_last (λ i. on_path d source_id p.path i && handled (if_missing new ids) i)
                          d.items new (ground (arith, on_its_path, handled_now ids new)),
                    )
            ]
    go (i ∷ []) at = (
      Grows-same d,
      any-and_swap (handled (if_missing i ids)) (on_path d source_id p.path) d.items
          ∙ rw at (ground (arith, handled_now ids i)),
    )
    go (i ∷ j ∷ l) at = tt

pub if_missing-Within : (i : BootAssetItem) (ids : List ℕ) → Within ids (if_missing i ids)
if_missing-Within i ids j h = elim (Bool-cases (ltb i.bytes_synced i.file_size)) [
  | inl missing ↦ rw missing (any_more (λ k. k == j) ids i.id h)
  | inr whole ↦ rw whole h
]
