-- ===== src/Images/Sync/Removal.antt =====
-- What `remove_versions` deletes.
use maas_site_manager.Common.{
  ℕ, ◌+◌, String, Bool, List, [], ◌∷◌, ◌++◌, ◌≡◌, map, select, any, length, ◌==◌, ◌&&◌, arith,
  Bool-cases, inl, inr,
}
use maas_site_manager.Common.Ensures.{Ensures, bind-Ensures}
use maas_site_manager.Common.Result.{◌>>=◌, ◌>>◌, pure, one}
use maas_site_manager.Common.Rows.{delete}
use maas_site_manager.Images.Purge.{delete_by_version_id}
use maas_site_manager.Images.Retention.{Version}
use maas_site_manager.Images.Tables.{
  BootAssetVersion, BootAssetItem, ImageDb, of_asset, of_version, emit, refresh_index,
}
use maas_site_manager.Images.Sync.{remove_found, remove_version, remove_each, remove_versions}

-- How often an id is in the table, and in a list.
abbrev pub rows_of : ℕ → List BootAssetItem → ℕ
rows_of k items = length (select (λ i. i.id == k) items)

abbrev pub times : ℕ → List ℕ → ℕ
times k ids = length (select (λ j. j == k) ids)

-- The rows that a list of ids accounts for, with those that are left, are those that there were.
abbrev pub Accounts : ImageDb → List ℕ → ImageDb → Type 0
Accounts d ids e = (k : ℕ) → rows_of k d.items ≡ times k ids + rows_of k e.items

accounts-delete :
    (k : ℕ) (p : BootAssetItem → Bool) (items : List BootAssetItem)
    → rows_of k items ≡ times k (map (λ i. i.id) (select p items)) + rows_of k (delete p items)
accounts-delete k p [] = omega arith
accounts-delete k p (i ∷ items) = ground (arith, accounts-delete k p items)

times-append : (k : ℕ) (a b : List ℕ) → times k (a ++ b) ≡ times k a + times k b
times-append k [] b = omega arith
times-append k (j ∷ a) b = ground (arith, times-append k a b)

remove_version-Accounts :
    (icontains : String → String → Bool) (r : Version) (d : ImageDb)
    → Ensures (remove_version icontains r d) (Accounts d)
unfolding remove_version delete_by_version_id
remove_version-Accounts icontains r d =
    go (select (λ v. of_asset r.asset_id v && icontains v.version r.version) d.versions)
  where
    gone : ℕ → ImageDb
    gone id = record d {
      versions = delete (λ w. w.id == id) d.versions;
      items = delete (of_version id) d.items;
    }

    answered :
        (id : ℕ) (l : List BootAssetVersion)
        → Ensures
            (((one l >>= λ w. pure w.boot_asset_id)
                >> pure (map (λ i. i.id) (select (of_version id) d.items)))
              (gone id))
            (Accounts d)
    answered id [] = tt
    answered id (w ∷ []) = λ k. accounts-delete k (of_version id) d.items
    answered id (w ∷ x ∷ l) = tt

    go : (l : List BootAssetVersion) → Ensures (remove_found l d) (Accounts d)
    go [] = tt
    go (v ∷ l) = elim (Bool-cases (any (of_version v.id) (delete (of_version v.id) d.items))) [
      | inl referred ↦ rw (referred, ◌>>=◌) tt
      | inr free ↦ rw (free, ◌>>=◌) (answered v.id (select (λ w. w.id == v.id) d.versions))
    ]

remove_each-Accounts :
    (icontains : String → String → Bool) (to_remove : List Version) (ids : List ℕ)
    (d before : ImageDb)
    → Accounts before ids d
    → Ensures (remove_each icontains to_remove ids d) (Accounts before)
unfolding remove_each
remove_each-Accounts icontains [] ids d before h = h
remove_each-Accounts icontains (r ∷ to_remove) ids d before h =
    bind-Ensures (λ more. remove_each icontains to_remove (ids ++ more)) (Accounts d)
      (Accounts before) (remove_version icontains r) d (remove_version-Accounts icontains r d)
      (λ more e a.
        remove_each-Accounts icontains to_remove (ids ++ more) e before
          (λ k. omega (arith, h k, a k, times-append k ids more)))

-- The ids that `remove_versions` answers for the storage are those of the items that it deletes, each
-- as often as it deletes it, and no item is lost.
pub remove_versions_lem :
    (icontains : String → String → Bool) (to_remove : List Version) (d : ImageDb)
    → Ensures (remove_versions icontains to_remove d) (Accounts d)
unfolding remove_versions
remove_versions_lem icontains to_remove d =
    bind-Ensures (λ ids. emit refresh_index >> pure ids) (Accounts d) (Accounts d)
      (remove_each icontains to_remove []) d
      (remove_each-Accounts icontains to_remove [] d d (λ k. omega arith)) (λ ids e h. h)
