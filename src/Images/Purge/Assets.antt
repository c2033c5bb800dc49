-- ===== src/Images/Purge/Assets.antt =====
-- The deletion of one asset, and of a list of assets, in closed form.
use maas_site_manager.Common.{
  ℕ, ◌≡◌, refl, ap, sym, ◌∙◌, Bool, true, false, List, [], ◌∷◌, ◌++◌, ◌==◌, ◌&&◌, ◌||◌, select, any,
  All, arith, if◌then◌else◌, fun_ext, Bool-cases, inl, inr,
}
use maas_site_manager.Common.Result.{ok, ◌>>=◌}
use maas_site_manager.Common.Rows.{
  delete, any-and_swap, any-or, any_never, any-delete_self, select_none, delete_none,
}
use maas_site_manager.Common.Unique.{Unique, select-Unique, delete-Unique}
use maas_site_manager.Images.Tables.{
  BootAsset, BootAssetVersion, BootAssetItem, ImageDb, of_version, of_asset,
}
use maas_site_manager.Images.Purge.{delete_by_asset_id, delete_asset, purge_asset, purge_each}
use maas_site_manager.Images.Purge.Versions.{
  owned, collected, owned-cons, purge_versions_lem, never_owned,
}

or_if : (a b : Bool) → (if a then true else b) ≡ (a || b)
or_if true b = refl
or_if false b = refl

-- Some version of the list is one that some item of the list is of: in either order.
still_referred :
    (vs : List BootAssetVersion) (items : List BootAssetItem)
    → any (λ v. any (of_version v.id) items) vs ≡ any (owned vs) items
still_referred [] items = sym (any_never items)
still_referred (v ∷ vs) items =
    ap (λ b. if any (of_version v.id) items then true else b) (still_referred vs items)
    ∙ or_if (any (of_version v.id) items) (any (owned vs) items)
    ∙ sym (any-or (of_version v.id) (owned vs) items)
    ∙ ap (λ p. any p items) (fun_ext (owned-cons v vs))

-- The state without one asset, its versions and their items.
abbrev pub without_asset : ℕ → ImageDb → ImageDb
without_asset id d = record d {
  assets = delete (λ a. a.id == id) d.assets;
  versions = delete (of_asset id) d.versions;
  items = delete (owned (select (of_asset id) d.versions)) d.items;
}

-- No foreign key stops the deletion of an asset.
purge_asset_lem :
    (a : BootAsset) (d : ImageDb)
    → purge_asset a d
      ≡ ok (collected (select (of_asset a.id) d.versions) d.items, without_asset a.id d)
unfolding purge_asset delete_by_asset_id delete_asset
purge_asset_lem a d =
    let vs = select (of_asset a.id) d.versions in
    let kept = delete (owned vs) d.items in
    let free : any (λ v. of_asset a.id v && any (of_version v.id) kept) d.versions ≡ false =
      any-and_swap (λ (v : BootAssetVersion). any (of_version v.id) kept) (of_asset a.id) d.versions
      ∙ still_referred vs kept
      ∙ any-delete_self (owned vs) d.items in
    rw (purge_versions_lem vs d, ◌>>=◌)
      (rw (free, ◌>>=◌) (rw (any-delete_self (of_asset a.id) d.versions, ◌>>=◌) refl))

-- Every version belongs to an asset that exists: the foreign key of `boot_asset_version`.
abbrev pub VersionsPlaced : ImageDb → Type 0
VersionsPlaced d = All (λ v. any (λ a. a.id == v.boot_asset_id) d.assets ≡ true) d.versions

abbrev pub IdsUnique : ImageDb → Type 0
IdsUnique d = Unique ◌==◌ (λ (a : BootAsset). a.id) d.assets

any-delete_other :
    (id k : ℕ) (rows : List BootAsset)
    → (k == id) ≡ false
    → any (λ a. a.id == k) rows ≡ true
    → any (λ a. a.id == k) (delete (λ a. a.id == id) rows) ≡ true
any-delete_other id k [] apart h = h
any-delete_other id k (a ∷ rows) apart h = ground (arith, any-delete_other id k rows apart)

delete-VersionsPlaced :
    (id : ℕ) (rows : List BootAsset) (vs : List BootAssetVersion)
    → All (λ v. any (λ a. a.id == v.boot_asset_id) rows ≡ true) vs
    → All
        (λ v. any (λ a. a.id == v.boot_asset_id) (delete (λ a. a.id == id) rows) ≡ true)
        (delete (of_asset id) vs)
delete-VersionsPlaced id rows [] h = tt
delete-VersionsPlaced id rows (v ∷ vs) h = elim (Bool-cases (of_asset id v)) [
  | inl hit ↦ rw hit (delete-VersionsPlaced id rows vs h.1)
  | inr miss ↦
      rw miss
        (any-delete_other id v.boot_asset_id rows miss h.0, delete-VersionsPlaced id rows vs h.1)
]

no_versions :
    (id : ℕ) (rows : List BootAsset) (vs : List BootAssetVersion)
    → any (λ a. a.id == id) rows ≡ false
    → All (λ v. any (λ a. a.id == v.boot_asset_id) rows ≡ true) vs
    → any (of_asset id) vs ≡ false
no_versions id rows [] absent h = refl
no_versions id rows (v ∷ vs) absent h = elim (Bool-cases (of_asset id v)) [
  | inl hit ↦
      let same : v.boot_asset_id ≡ id = ground arith in
      let there : any (λ a. a.id == id) rows ≡ true = rw (← same) h.0 in ground arith
  | inr miss ↦ rw miss (no_versions id rows vs absent h.1)
]

any-select_empty :
    (id : ℕ) (rows : List BootAsset)
    → select (λ a. a.id == id) rows ≡ []
    → any (λ a. a.id == id) rows ≡ false
any-select_empty id [] h = refl
any-select_empty id (a ∷ rows) h = ground (arith, any-select_empty id rows)

-- Nothing refers to an asset that does not exist.
without_absent :
    (id : ℕ) (d : ImageDb)
    → VersionsPlaced d
    → any (λ a. a.id == id) d.assets ≡ false
    → without_asset id d ≡ d
without_absent id d placed absent =
    let none_of = no_versions id d.assets d.versions absent placed in
    rw
      (
        delete_none (λ a. a.id == id) d.assets absent,
        delete_none (of_asset id) d.versions none_of,
        select_none (of_asset id) d.versions none_of,
        never_owned d.items,
      )
      refl

abbrev pub without_assets : List ℕ → ImageDb → ImageDb
without_assets [] d = d
without_assets (id ∷ ids) d = without_assets ids (without_asset id d)

-- The ids of the items that go with a list of assets.
abbrev pub item_ids : List ℕ → ImageDb → List ℕ
item_ids [] d = []
item_ids (id ∷ ids) d =
    collected (select (of_asset id) d.versions) d.items ++ item_ids ids (without_asset id d)

-- The loop over the assets, whether each is there or not.
pub purge_each_lem :
    (ids : List ℕ) (d : ImageDb)
    → IdsUnique d
    → VersionsPlaced d
    → purge_each ids d ≡ ok (item_ids ids d, without_assets ids d)
unfolding purge_each
purge_each_lem [] d unique placed = refl
purge_each_lem (id ∷ ids) d unique placed =
    elim (select-Unique ◌==◌ (λ (a : BootAsset). a.id) id d.assets (λ j l h. ground arith) unique) [
      | inl gone ↦
          let absent = any-select_empty id d.assets gone in
          let none_of = no_versions id d.assets d.versions absent placed in
          rw (gone, ◌>>=◌)
            (rw (purge_each_lem ids d unique placed, ◌>>=◌)
              (rw (without_absent id d placed absent, select_none (of_asset id) d.versions none_of)
                refl))
      | inr (a, found, hit) ↦
          let same : a.id ≡ id = ground arith in
          let rest =
            purge_each_lem ids (without_asset id d)
              (delete-Unique ◌==◌ (λ (a : BootAsset). a.id) (λ a. a.id == id) d.assets unique)
              (delete-VersionsPlaced id d.assets d.versions placed) in
          rw (found, ◌>>=◌) (rw (purge_asset_lem a d, ◌>>=◌) (rw same (rw (rest, ◌>>=◌) refl)))
    ]
