-- ===== src/Images/Purge/Versions.antt =====
-- The loop over the versions of an asset in closed form.
use maas_site_manager.Common.{
  ℕ, ◌≡◌, refl, ap, sym, ◌∙◌, Bool, false, List, [], ◌∷◌, ◌++◌, map, ◌==◌, ◌&&◌, ◌||◌, select, any,
  arith, fun_ext,
}
use maas_site_manager.Common.Result.{ok, ◌>>=◌}
use maas_site_manager.Common.Rows.{delete, delete-delete, any-append}
use maas_site_manager.Images.Tables.{BootAssetVersion, BootAssetItem, ImageDb, of_version}
use maas_site_manager.Images.Purge.{delete_by_version_id, purge_versions}

-- The item belongs to one of the versions.
abbrev pub owned : List BootAssetVersion → BootAssetItem → Bool
owned vs i = any (λ v. of_version v.id i) vs

abbrev pub has_id : ℕ → ℕ → Bool
has_id j k = k == j

abbrev pub collected : List BootAssetVersion → List BootAssetItem → List ℕ
collected [] items = []
collected (v ∷ vs) items =
    map (λ i. i.id) (select (of_version v.id) items)
    ++ collected vs (delete (of_version v.id) items)

pub owned-cons :
    (v : BootAssetVersion) (vs : List BootAssetVersion) (i : BootAssetItem)
    → (of_version v.id i || owned vs i) ≡ owned (v ∷ vs) i
owned-cons v vs i = ground arith

pub never_owned : (items : List BootAssetItem) → delete (λ i. false) items ≡ items
never_owned [] = refl
never_owned (i ∷ items) = ap (◌∷◌ i) (never_owned items)

-- The loop deletes the items of those versions and no other, and answers with their ids.
pub purge_versions_lem :
    (vs : List BootAssetVersion) (d : ImageDb)
    → purge_versions vs d
      ≡ ok (collected vs d.items, record d { items = delete (owned vs) d.items })
unfolding purge_versions delete_by_version_id
purge_versions_lem [] d = rw never_owned refl
purge_versions_lem (v ∷ vs) d =
    rw (purge_versions_lem vs (record d { items = delete (of_version v.id) d.items }), ◌>>=◌)
      (rw (delete-delete (owned vs) (of_version v.id) d.items)
        (rw (fun_ext (owned-cons v vs)) refl))

any-map_id :
    (j : ℕ) (items : List BootAssetItem)
    → any (has_id j) (map (λ i. i.id) items) ≡ any (λ i. has_id j i.id) items
any-map_id j [] = refl
any-map_id j (i ∷ items) = ground (arith, any-map_id j items)

collected_step :
    (j : ℕ) (v : BootAssetVersion) (vs : List BootAssetVersion) (items : List BootAssetItem)
    → (any (λ i. has_id j i.id) (select (of_version v.id) items)
        || any (λ i. has_id j i.id && owned vs i) (delete (of_version v.id) items))
      ≡ any (λ i. has_id j i.id && owned (v ∷ vs) i) items
collected_step j v vs [] = refl
collected_step j v vs (i ∷ items) = ground (arith, collected_step j v vs items)

pub none_owned :
    (p : BootAssetItem → Bool) (items : List BootAssetItem) → any (λ i. p i && false) items ≡ false
none_owned p [] = refl
none_owned p (i ∷ items) = ground (arith, none_owned p items)

-- An id is answered exactly if an item of those versions has it.
pub any-collected :
    (j : ℕ) (vs : List BootAssetVersion) (items : List BootAssetItem)
    → any (has_id j) (collected vs items) ≡ any (λ i. has_id j i.id && owned vs i) items
any-collected j [] items = sym (none_owned (λ (i : BootAssetItem). has_id j i.id) items)
any-collected j (v ∷ vs) items =
    any-append (has_id j) (map (λ (i : BootAssetItem). i.id) (select (of_version v.id) items))
      (collected vs (delete (of_version v.id) items))
    ∙ rw
        (
          any-map_id j (select (of_version v.id) items),
          any-collected j vs (delete (of_version v.id) items),
        )
        (collected_step j v vs items)
