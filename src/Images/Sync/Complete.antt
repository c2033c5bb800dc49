-- ===== src/Images/Sync/Complete.antt =====
-- What a synchronization asks the worker to download.
use maas_site_manager.Common.{ℕ, String, Bool, List, [], ◌∷◌, ◌==◌, ◌&&◌, All}
use maas_site_manager.Common.Ensures.{Ensures, any-Ensures, bind-Ensures, weaken-Ensures}
use maas_site_manager.Common.Result.{◌>>=◌, ◌>>◌, Tx}
use maas_site_manager.Images.Tables.{ImageDb, in_source}
use maas_site_manager.Images.Sources.{get_source_by_id, found_source, update_source}
use maas_site_manager.Images.Sync.{
  ProductItem, Product, get_or_create, upsert, if_missing, sync_item, sync_items, sync_version,
  sync_versions, sync_product, sync_products, synced_now, put_boot_source_assets,
}
use maas_site_manager.Images.Sync.Served.{
  Within, IsServed, linked-Grows, IsServed-Grows, sync_item-IsServed, if_missing-Within,
}
use maas_site_manager.Images.Sync.Growth.{
  Grows, Grows-same, Grows-trans, IsAssetOf, IsVersionOf, get_or_create-Grows, upsert-Grows,
}

-- A loop that serves its items.
abbrev Serves : ImageDb → List ℕ → (ImageDb → List ℕ → Type 0) → List ℕ → ImageDb → Type 0
Serves d ids done more e = Grows d e × Within ids more × done e more

-- A loop's first round, then the others.
then-Serves :
    (m : Tx ImageDb (List ℕ)) (k : List ℕ → Tx ImageDb (List ℕ)) (d : ImageDb) (ids : List ℕ)
    (first others : ImageDb → List ℕ → Type 0)
    → ((e f : ImageDb) (a b : List ℕ) → Grows e f → Within a b → first e a → first f b)
    → Ensures (m d) (Serves d ids first)
    → ((more : List ℕ) (e : ImageDb) → Grows d e → Ensures (k more e) (Serves e more others))
    → Ensures ((m >>= k) d) (Serves d ids (λ e more. first e more × others e more))
then-Serves m k d ids first others stays here next =
    bind-Ensures k (Serves d ids first) (Serves d ids (λ e more. first e more × others e more)) m d
      here
      (λ more e h.
        weaken-Ensures (Serves e more others) (Serves d ids (λ f all. first f all × others f all))
          (k more e) (next more e h.0)
          (λ all f r. (
            Grows-trans d e f h.0 r.0,
            (λ j t. r.1 j (h.1 j t)),
            (stays e f more all r.0 r.1 h.2, r.2),
          )))

-- A row is found or made, then its loop runs.
after-Serves :
    {A : Type 0} (m : Tx ImageDb A) (k : A → Tx ImageDb (List ℕ)) (d : ImageDb) (ids : List ℕ)
    (P : A → ImageDb → Type 0) (done : ImageDb → List ℕ → Type 0)
    → Ensures (m d) (λ a e. Grows d e × P a e)
    → ((a : A) (e : ImageDb) → P a e → Ensures (k a e) (Serves e ids done))
    → Ensures ((m >>= k) d) (Serves d ids done)
after-Serves m k d ids P done here next =
    bind-Ensures k (λ a e. Grows d e × P a e) (Serves d ids done) m d here
      (λ a e h.
        weaken-Ensures (Serves e ids done) (Serves d ids done) (k a e) (next a e h.1)
          (λ all f r. (Grows-trans d e f h.0 r.0, r.1, r.2)))

abbrev AllServed : ℕ → List ProductItem → ImageDb → List ℕ → Type 0
AllServed source_id items e more = All (IsServed e source_id more) items

abbrev VersionsServed : ℕ → List (String × List ProductItem) → ImageDb → List ℕ → Type 0
VersionsServed source_id versions e more = All (λ v. AllServed source_id v.1 e more) versions

abbrev pub ProductsServed : ℕ → List Product → ImageDb → List ℕ → Type 0
ProductsServed source_id products e more =
    All (λ p. VersionsServed source_id p.versions e more) products

AllServed-Grows :
    (source_id : ℕ) (items : List ProductItem) (d e : ImageDb) (a b : List ℕ)
    → Grows d e
    → Within a b
    → AllServed source_id items d a
    → AllServed source_id items e b
AllServed-Grows source_id [] d e a b g w h = tt
AllServed-Grows source_id (p ∷ items) d e a b g w h =
    (IsServed-Grows d e source_id a b p g w h.0, AllServed-Grows source_id items d e a b g w h.1)

VersionsServed-Grows :
    (source_id : ℕ) (versions : List (String × List ProductItem)) (d e : ImageDb) (a b : List ℕ)
    → Grows d e
    → Within a b
    → VersionsServed source_id versions d a
    → VersionsServed source_id versions e b
VersionsServed-Grows source_id [] d e a b g w h = tt
VersionsServed-Grows source_id (v ∷ versions) d e a b g w h = (
  AllServed-Grows source_id v.1 d e a b g w h.0,
  VersionsServed-Grows source_id versions d e a b g w h.1,
)

sync_items-Serves :
    (source_id version_id : ℕ) (items : List ProductItem) (ids : List ℕ) (d : ImageDb)
    → IsVersionOf d source_id version_id
    → Ensures
        (sync_items source_id version_id items ids d)
        (Serves d ids (AllServed source_id items))
unfolding sync_items
sync_items-Serves source_id version_id [] ids d owned = (Grows-same d, (λ i h. h), tt)
sync_items-Serves source_id version_id (p ∷ items) ids d owned =
    bind-Ensures (λ i. sync_items source_id version_id items (if_missing i ids)) _ _
      (sync_item source_id version_id p) d (sync_item-IsServed source_id version_id p ids d owned)
      (λ i e h.
        weaken-Ensures _ _ (sync_items source_id version_id items (if_missing i ids) e)
          (sync_items-Serves source_id version_id items (if_missing i ids) e
            (linked-Grows d e source_id (λ k. k == version_id) h.0 owned))
          (λ more f r. (
            Grows-trans d e f h.0 r.0,
            (λ j t. r.1 j (if_missing-Within i ids j t)),
            (IsServed-Grows e f source_id (if_missing i ids) more p r.0 r.1 h.1, r.2),
          )))

sync_version-Serves :
    (source_id asset_id t : ℕ) (v : String × List ProductItem) (ids : List ℕ) (d : ImageDb)
    → IsAssetOf d source_id asset_id
    → Ensures (sync_version source_id asset_id t v ids d) (Serves d ids (AllServed source_id v.1))
unfolding sync_version
sync_version-Serves source_id asset_id t v ids d owned =
    after-Serves (upsert asset_id v.0 t) (λ w. sync_items source_id w.id v.1 ids) d ids
      (λ w e. IsVersionOf e source_id w.id) (AllServed source_id v.1)
      (upsert-Grows source_id asset_id v.0 t d owned)
      (λ w e h. sync_items-Serves source_id w.id v.1 ids e h)

sync_versions-Serves :
    (source_id asset_id t : ℕ) (versions : List (String × List ProductItem)) (ids : List ℕ)
    (d : ImageDb)
    → IsAssetOf d source_id asset_id
    → Ensures
        (sync_versions source_id asset_id t versions ids d)
        (Serves d ids (VersionsServed source_id versions))
unfolding sync_versions
sync_versions-Serves source_id asset_id t [] ids d owned = (Grows-same d, (λ i h. h), tt)
sync_versions-Serves source_id asset_id t (v ∷ versions) ids d owned =
    then-Serves (sync_version source_id asset_id t v ids)
      (sync_versions source_id asset_id t versions) d ids (AllServed source_id v.1)
      (VersionsServed source_id versions) (AllServed-Grows source_id v.1)
      (sync_version-Serves source_id asset_id t v ids d owned)
      (λ more e g.
        sync_versions-Serves source_id asset_id t versions more e
          (g.assets_kept (λ a. (a.id == asset_id) && in_source source_id a) owned))

sync_product-Serves :
    (icontains : String → String → Bool) (source_id t : ℕ) (p : Product) (ids : List ℕ)
    (d : ImageDb)
    → Ensures
        (sync_product icontains source_id t p ids d)
        (Serves d ids (VersionsServed source_id p.versions))
unfolding sync_product
sync_product-Serves icontains source_id t p ids d =
    after-Serves (get_or_create icontains source_id p.details)
      (λ a. sync_versions source_id a.id t p.versions ids) d ids (λ a e. IsAssetOf e source_id a.id)
      (VersionsServed source_id p.versions) (get_or_create-Grows icontains source_id p.details d)
      (λ a e h. sync_versions-Serves source_id a.id t p.versions ids e h)

sync_products-Serves :
    (icontains : String → String → Bool) (source_id t : ℕ) (products : List Product) (ids : List ℕ)
    (d : ImageDb)
    → Ensures
        (sync_products icontains source_id t products ids d)
        (Serves d ids (ProductsServed source_id products))
unfolding sync_products
sync_products-Serves icontains source_id t [] ids d = (Grows-same d, (λ i h. h), tt)
sync_products-Serves icontains source_id t (p ∷ products) ids d =
    then-Serves (sync_product icontains source_id t p ids)
      (sync_products icontains source_id t products) d ids (VersionsServed source_id p.versions)
      (ProductsServed source_id products) (VersionsServed-Grows source_id p.versions)
      (sync_product-Serves icontains source_id t p ids d)
      (λ more e g. sync_products-Serves icontains source_id t products more e)

-- A synchronization that is answered leaves on the path of every item of its products an item of the
-- source, and this item is whole, or its id is answered for the worker to download.
pub put_boot_source_assets_lem :
    (icontains : String → String → Bool) (t id : ℕ) (products : List Product) (d : ImageDb)
    → Ensures
        (put_boot_source_assets icontains t id products d)
        (λ to_download e. ProductsServed id products e to_download)
unfolding put_boot_source_assets
put_boot_source_assets_lem icontains t id products d =
    bind-Ensures
      (λ bs.
        found_source bs
        >>= (λ s. update_source id (synced_now t) >> sync_products icontains id t products []))
      (λ o e. Unit) _ (get_source_by_id id) d (any-Ensures (get_source_by_id id d))
      (λ bs e u.
        bind-Ensures
          (λ s. update_source id (synced_now t) >> sync_products icontains id t products [])
          (λ o f. Unit) _ (found_source bs) e (any-Ensures (found_source bs e))
          (λ s f v.
            bind-Ensures (λ r. sync_products icontains id t products []) (λ o g. Unit) _
              (update_source id (synced_now t)) f (any-Ensures (update_source id (synced_now t) f))
              (λ r g w.
                weaken-Ensures _ _ (sync_products icontains id t products [] g)
                  (sync_products-Serves icontains id t products [] g) (λ more h served. served.2))))
