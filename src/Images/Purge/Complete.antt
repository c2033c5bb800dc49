-- ===== src/Images/Purge/Complete.antt =====
-- What a purge leaves: the removal of boot assets and of a boot source as a whole.
use maas_site_manager.Common.{
  ℕ, ◌≡◌, refl, ap, sym, ◌∙◌, Bool, true, false, List, [], ◌∷◌, ◌++◌, map, ◌==◌, ◌&&◌, ◌||◌, select,
  any, arith, fun_ext, Bool-cases, inl, inr, if◌then◌else◌,
}
use maas_site_manager.Common.Result.{ok, ◌>>=◌, raise, rpc_error}
use maas_site_manager.Common.Rows.{delete, delete-delete, any-append, any-delete_self}
use maas_site_manager.Common.Unique.{Unique}
use maas_site_manager.Images.Tables.{
  BootSource, BootAsset, BootAssetVersion, BootAssetItem, ImageDb, of_asset, in_source,
  refresh_index, disable_sync, disable, is_scheduled, Effect,
}
use maas_site_manager.Images.Purge.{
  delete_boot_source, purge_assets, purge_source, delete_by_source_id, delete_source,
}
use maas_site_manager.Images.Purge.Versions.{
  owned, has_id, collected, any-collected, never_owned, none_owned,
}
use maas_site_manager.Images.Purge.Assets.{
  VersionsPlaced, IdsUnique, without_asset, without_assets, item_ids, purge_each_lem,
}

abbrev pub mem : List ℕ → ℕ → Bool
mem l k = any (has_id k) l

-- The versions of the assets with those ids.
abbrev pub versions_of : List ℕ → List BootAssetVersion → List BootAssetVersion
versions_of ids vs = select (λ v. mem ids v.boot_asset_id) vs

abbrev pub without : List ℕ → ImageDb → ImageDb
without ids d = record d {
  assets = delete (λ a. mem ids a.id) d.assets;
  versions = delete (λ v. mem ids v.boot_asset_id) d.versions;
  items = delete (owned (versions_of ids d.versions)) d.items;
}

mem-cons : (id : ℕ) (ids : List ℕ) (k : ℕ) → ((k == id) || mem ids k) ≡ mem (id ∷ ids) k
mem-cons id ids k = ground arith

delete_never : {A : Type 0} (rows : List A) → delete (λ x. false) rows ≡ rows
delete_never [] = refl
delete_never (x ∷ rows) = ap (◌∷◌ x) (delete_never rows)

-- The items of one asset, then those of the others.
owned_split :
    (id : ℕ) (ids : List ℕ) (vs : List BootAssetVersion) (i : BootAssetItem)
    → (owned (select (of_asset id) vs) i || owned (versions_of ids (delete (of_asset id) vs)) i)
      ≡ owned (versions_of (id ∷ ids) vs) i
owned_split id ids [] i = refl
owned_split id ids (v ∷ vs) i = ground (arith, owned_split id ids vs i)

select_never : (vs : List BootAssetVersion) → select (λ v. false) vs ≡ []
select_never [] = refl
select_never (v ∷ vs) = select_never vs

-- The assets one after the other are the assets at once.
without_assets_lem : (ids : List ℕ) (d : ImageDb) → without_assets ids d ≡ without ids d
without_assets_lem [] d =
    rw
      (delete_never d.assets, delete_never d.versions, select_never d.versions, never_owned d.items)
      refl
without_assets_lem (id ∷ ids) d =
    without_assets_lem ids (without_asset id d)
    ∙ rw (delete-delete (λ a. mem ids a.id) (λ (a : BootAsset). a.id == id) d.assets) (
        rw (delete-delete (λ v. mem ids v.boot_asset_id) (of_asset id) d.versions) (
          rw
            (delete-delete (owned (versions_of ids (delete (of_asset id) d.versions)))
              (owned (select (of_asset id) d.versions)) d.items)
            (rw
              (
                fun_ext (λ (a : BootAsset). mem-cons id ids a.id),
                fun_ext (λ (v : BootAssetVersion). mem-cons id ids v.boot_asset_id),
                fun_ext (owned_split id ids d.versions),
              )
              refl)))

-- An item goes with one of the assets exactly if its version is a version of one of them.
any-or_and :
    (j : ℕ) (p q : BootAssetItem → Bool) (items : List BootAssetItem)
    → (any (λ i. has_id j i.id && p i) items || any (λ i. has_id j i.id && q i) (delete p items))
      ≡ any (λ i. has_id j i.id && (p i || q i)) items
any-or_and j p q [] = refl
any-or_and j p q (i ∷ items) = ground (arith, any-or_and j p q items)

item_ids_lem :
    (j : ℕ) (ids : List ℕ) (d : ImageDb)
    → mem (item_ids ids d) j
      ≡ any (λ i. has_id j i.id && owned (versions_of ids d.versions) i) d.items
item_ids_lem j [] d =
    rw (select_never d.versions) (sym (none_owned (λ (i : BootAssetItem). has_id j i.id) d.items))
item_ids_lem j (id ∷ ids) d =
    let vs = select (of_asset id) d.versions in
    any-append (has_id j) (collected vs d.items) (item_ids ids (without_asset id d))
    ∙ rw (any-collected j vs d.items, item_ids_lem j ids (without_asset id d))
        (any-or_and j (owned vs) (owned (versions_of ids (delete (of_asset id) d.versions))) d.items
          ∙ ap (λ p. any (λ i. has_id j i.id && p i) d.items)
              (fun_ext (owned_split id ids d.versions)))

abbrev pub source_ids : ℕ → List BootAsset → List ℕ
source_ids id rows = map (λ a. a.id) (select (in_source id) rows)

absent_id :
    (id k : ℕ) (rows : List BootAsset)
    → any (λ a. a.id == k) rows ≡ false
    → mem (source_ids id rows) k ≡ false
absent_id id k [] h = refl
absent_id id k (a ∷ rows) h = ground (arith, absent_id id k rows)

delete_absent :
    (k : ℕ) (ids : List ℕ) (rows : List BootAsset)
    → any (λ a. a.id == k) rows ≡ false
    → delete (λ a. mem (k ∷ ids) a.id) rows ≡ delete (λ a. mem ids a.id) rows
delete_absent k ids [] h = refl
delete_absent k ids (a ∷ rows) h = ground (arith, delete_absent k ids rows)

-- By the uniqueness of the ids, the assets deleted are those of the source.
delete-source_ids :
    (id : ℕ) (rows : List BootAsset)
    → Unique ◌==◌ (λ (a : BootAsset). a.id) rows
    → delete (λ a. mem (source_ids id rows) a.id) rows ≡ delete (in_source id) rows
delete-source_ids id [] u = refl
delete-source_ids id (a ∷ rows) u = elim (Bool-cases (in_source id a)) [
  | inl hit ↦
      let rest = delete_absent a.id (source_ids id rows) rows u.0 ∙ delete-source_ids id rows u.1 in
      let self : (a.id == a.id) ≡ true = ground arith in
      let listed : source_ids id (a ∷ rows) ≡ a.id ∷ source_ids id rows = rw hit refl in
      ap (λ l. delete (λ (b : BootAsset). mem l b.id) (a ∷ rows)) listed ∙ rw (self, hit) rest
  | inr miss ↦
      let listed : source_ids id (a ∷ rows) ≡ source_ids id rows = rw miss refl in
      ap (λ l. delete (λ (b : BootAsset). mem l b.id) (a ∷ rows)) listed
      ∙ rw (miss, absent_id id a.id rows u.0) (ap (◌∷◌ a) (delete-source_ids id rows u.1))
]

-- The removal of boot assets succeeds: foreign keys stop none of its deletions.
purge_assets_lem :
    (ids : List ℕ) (d : ImageDb)
    → IdsUnique d
    → VersionsPlaced d
    → purge_assets ids d
      ≡ ok (item_ids ids d, record (without ids d) { effects = d.effects ++ refresh_index ∷ [] })
unfolding purge_assets
purge_assets_lem ids d unique placed =
    rw (purge_each_lem ids d unique placed, ◌>>=◌) (rw (without_assets_lem ids d) refl)

-- The state without a boot source: its selections, its assets, their versions and the items of
-- those versions are gone, nothing else is.
abbrev pub without_source : ℕ → ImageDb → ImageDb
without_source id d = record d {
  sources = delete (λ s. s.id == id) d.sources;
  selections = delete (λ s. s.boot_source_id == id) d.selections;
  assets = delete (in_source id) d.assets;
  versions = delete (λ v. mem (source_ids id d.assets) v.boot_asset_id) d.versions;
  items = delete (owned (versions_of (source_ids id d.assets) d.versions)) d.items;
  effects = d.effects ++ disable_sync id ∷ refresh_index ∷ [];
  schedules = delete (λ j. j == id) d.schedules;
}

append_two : {A : Type 0} (l : List A) (x y : A) → (l ++ x ∷ []) ++ y ∷ [] ≡ l ++ x ∷ y ∷ []
append_two [] x y = refl
append_two (z ∷ l) x y = ap (◌∷◌ z) (append_two l x y)

abbrev disabled : ℕ → ImageDb → ImageDb
disabled id d = record d {
  schedules = delete (λ j. j == id) d.schedules;
  effects = d.effects ++ disable_sync id ∷ [];
}

disable_lem :
    (id : ℕ) (d : ImageDb)
    → disable id d ≡ (if is_scheduled id d then ok (tt, disabled id d) else raise rpc_error)
unfolding disable
disable_lem id d = elim (Bool-cases (is_scheduled id d)) [
  | inl there ↦ rw (there, ◌>>=◌) refl
  | inr absent ↦ rw (absent, ◌>>=◌) refl
]

-- The ids of the items depend on the rows alone.
same_ids :
    (ids : List ℕ) (e : List Effect) (s : List ℕ) (d : ImageDb)
    → item_ids ids (record d { effects = e; schedules = s }) ≡ item_ids ids d
same_ids [] e s d = refl
same_ids (id ∷ ids) e s d =
    ap (λ l. collected (select (of_asset id) d.versions) d.items ++ l)
      (same_ids ids e s (without_asset id d))

purge_source_complete :
    (id : ℕ) (d : ImageDb)
    → IdsUnique d
    → VersionsPlaced d
    → is_scheduled id d ≡ true
    → purge_source id d ≡ ok (item_ids (source_ids id d.assets) d, without_source id d)
unfolding purge_source delete_by_source_id delete_source
purge_source_complete id d unique placed there =
    let ids = source_ids id d.assets in
    let now = disabled id d in
    let first : disable id d ≡ ok (tt, now) =
      disable_lem id d ∙ ap (λ b. if b then ok (tt, now) else raise rpc_error) there in
    rw (first, ◌>>=◌)
      (rw (purge_assets_lem ids now unique placed, ◌>>=◌)
        (rw (delete-source_ids id d.assets unique, any-delete_self (in_source id) d.assets, ◌>>=◌)
          (rw (any-delete_self (λ s. s.boot_source_id == id) d.selections, ◌>>=◌)
            (rw (append_two d.effects (disable_sync id) refresh_index)
              (ap (λ l. ok (l, without_source id d)) (same_ids ids now.effects now.schedules d))))))

purge_source-raise :
    (id : ℕ) (d : ImageDb) → is_scheduled id d ≡ false → purge_source id d ≡ raise rpc_error
unfolding purge_source
purge_source-raise id d absent =
    let first : disable id d ≡ raise rpc_error =
      disable_lem id d ∙ ap (λ b. if b then ok (tt, disabled id d) else raise rpc_error) absent in
    rw (first, ◌>>=◌) refl

-- For assets with distinct ids whose versions all belong to an asset that exists, a request to
-- delete a boot source that exists fails exactly if Temporal has no schedules for it, which are to be
-- deleted first; otherwise no foreign key stops any of its deletions. It leaves
-- exactly the rows that are not the source's, at every level: the source, its selections, its
-- assets, the versions of those assets and the items of those versions are gone and nothing else
-- is. It disables the synchronisation, refreshes the index twice, and answers an id exactly if an
-- item that went has it.
pub delete_boot_source_complete :
    (id : ℕ) (s : BootSource) (d : ImageDb)
    → IdsUnique d
    → VersionsPlaced d
    → select (λ r. r.id == id) d.sources ≡ s ∷ []
    → (deleted : List ℕ) × (delete_boot_source id d ≡ (
        if is_scheduled id d
        then ok (
          deleted,
          record (without_source id d) {
            effects = (without_source id d).effects ++ refresh_index ∷ [];
          },
        )
        else raise rpc_error))
      × ((j : ℕ)
          → mem deleted j
            ≡ any
                (λ i. has_id j i.id && owned (versions_of (source_ids id d.assets) d.versions) i)
                d.items)
unfolding delete_boot_source
delete_boot_source_complete id s d unique placed found =
    let ids = source_ids id d.assets in
    (
      item_ids ids d,
      rw (found, ◌>>=◌)
          (elim (Bool-cases (is_scheduled id d)) [
            | inl there ↦ rw there (rw (purge_source_complete id d unique placed there, ◌>>=◌) refl)
            | inr absent ↦ rw (absent, purge_source-raise id d absent, ◌>>=◌) refl
          ]),
      λ j. item_ids_lem j ids d,
    )

-- For assets with distinct ids whose versions all belong to an asset that exists, the removal of a
-- list of boot assets succeeds, whether or not each id is in use. The assets with one of the ids,
-- their versions and the items of those versions are gone, every other row is kept, the
-- index is refreshed once, and an id is answered exactly if an item that went has it.
pub purge_assets_complete :
    (ids : List ℕ) (d : ImageDb)
    → IdsUnique d
    → VersionsPlaced d
    → (deleted : List ℕ) × (purge_assets ids d
        ≡ ok (deleted, record (without ids d) { effects = d.effects ++ refresh_index ∷ [] }))
      × ((j : ℕ)
          → mem deleted j
            ≡ any (λ i. has_id j i.id && owned (versions_of ids d.versions) i) d.items)
purge_assets_complete ids d unique placed =
    (item_ids ids d, purge_assets_lem ids d unique placed, λ j. item_ids_lem j ids d)
