-- ===== src/Images/Sync/Growth.antt =====
-- What a synchronization leaves of the tables: rows are added, and of a version only the time changes.
use maas_site_manager.Common.{
  ℕ, suc, String, Bool, true, List, [], ◌∷◌, ◌++◌, ◌≡◌, refl, ◌∙◌, ap, map, select, any, ◌==◌, ◌&&◌,
  arith, Bool-cases, inl, inr,
}
use maas_site_manager.Common.Ensures.{Ensures}
use maas_site_manager.Common.Result.{◌>>=◌, one_or_none}
use maas_site_manager.Common.Rows.{update, any-append, any-update, any-and}
use maas_site_manager.Images.Tables.{BootAsset, BootAssetVersion, BootAssetItem, ImageDb, in_source}
use maas_site_manager.Images.Sync.{
  matches_asset, asset_row, create_asset, same_asset, first_or_create, get_or_create, is_version,
  seen_at, or_insert, upsert,
}

pub record Grows (d e : ImageDb) : Type 0 where
  pub assets_kept : (q : BootAsset → Bool) → any q d.assets ≡ true → any q e.assets ≡ true
  pub versions_kept :
      (q : ℕ → ℕ → Bool)
      → any (λ v. q v.id v.boot_asset_id) d.versions ≡ true
      → any (λ v. q v.id v.boot_asset_id) e.versions ≡ true
  pub items_kept : (q : BootAssetItem → Bool) → any q d.items ≡ true → any q e.items ≡ true

pub Grows-same : (d : ImageDb) → Grows d d
Grows-same d = record { assets_kept = λ q h. h; versions_kept = λ q h. h; items_kept = λ q h. h }

pub Grows-trans : (d e f : ImageDb) → Grows d e → Grows e f → Grows d f
Grows-trans d e f g h = record {
  assets_kept = λ q a. h.assets_kept q (g.assets_kept q a);
  versions_kept = λ q a. h.versions_kept q (g.versions_kept q a);
  items_kept = λ q a. h.items_kept q (g.items_kept q a);
}

module _ {A : Type 0} where
  pub any_implies :
      (q r : A → Bool) (l : List A)
      → ((x : A) → q x ≡ true → r x ≡ true)
      → any q l ≡ true
      → any r l ≡ true
  any_implies q r [] h a = a
  any_implies q r (x ∷ l) h a = ground (arith, any_implies q r l h, h x)

  pub any_more : (q : A → Bool) (l : List A) (x : A) → any q l ≡ true → any q (l ++ x ∷ []) ≡ true
  any_more q l x h = any-append q l (x ∷ []) ∙ rw h refl

  pub any_last : (q : A → Bool) (l : List A) (x : A) → q x ≡ true → any q (l ++ x ∷ []) ≡ true
  any_last q l x h = any-append q l (x ∷ []) ∙ ground (arith, h)

-- The asset is one of the source, the version is one of an asset of the source.
abbrev pub IsAssetOf : ImageDb → ℕ → ℕ → Type 0
IsAssetOf d source_id id = any (λ a. (a.id == id) && in_source source_id a) d.assets ≡ true

abbrev pub IsVersionOf : ImageDb → ℕ → ℕ → Type 0
IsVersionOf d source_id id =
    any
      (λ v. (v.id == id) && any (λ a. (a.id == v.boot_asset_id) && in_source source_id a) d.assets)
      d.versions
    ≡ true

with_asset-Grows :
    (d : ImageDb) (a : BootAsset) (n : ℕ)
    → Grows d (record d { assets = d.assets ++ a ∷ []; asset_sequence = n })
with_asset-Grows d a n = record {
  assets_kept = λ q h. any_more q d.assets a h;
  versions_kept = λ q h. h;
  items_kept = λ q h. h;
}

create_asset-Grows :
    (source_id : ℕ) (p : BootAsset) (d : ImageDb)
    → Ensures (create_asset source_id p d) (λ a e. Grows d e × IsAssetOf e source_id a.id)
unfolding create_asset
create_asset-Grows source_id p d =
    let new = asset_row d.asset_sequence source_id p in
    elim (Bool-cases (any (same_asset source_id p) d.assets)) [
      | inl hit ↦ rw (hit, ◌>>=◌) tt
      | inr miss ↦
          rw (miss, ◌>>=◌)
            (
              with_asset-Grows d new (suc d.asset_sequence),
              any_last (λ a. (a.id == new.id) && in_source source_id a) d.assets new (ground arith),
            )
    ]

pub get_or_create-Grows :
    (icontains : String → String → Bool) (source_id : ℕ) (p : BootAsset) (d : ImageDb)
    → Ensures
        (get_or_create icontains source_id p d)
        (λ a e. Grows d e × IsAssetOf e source_id a.id)
unfolding get_or_create
get_or_create-Grows icontains source_id p d =
    go (select (matches_asset icontains source_id p) d.assets) refl
  where
    go :
        (l : List BootAsset)
        → select (matches_asset icontains source_id p) d.assets ≡ l
        → Ensures (first_or_create source_id p l d) (λ a e. Grows d e × IsAssetOf e source_id a.id)
    go [] at = create_asset-Grows source_id p d
    go (a ∷ l) at = (
      Grows-same d,
      any_implies (λ b. (b.id == a.id) && matches_asset icontains source_id p b)
          (λ b. (b.id == a.id) && in_source source_id b) d.assets (λ b h. ground (arith, h))
          (any-and (λ b. b.id == a.id) (matches_asset icontains source_id p) d.assets
            ∙ rw at (ground arith)),
    )

with_version-Grows :
    (d : ImageDb) (v : BootAssetVersion) (n : ℕ)
    → Grows d (record d { versions = d.versions ++ v ∷ []; version_sequence = n })
with_version-Grows d v n = record {
  assets_kept = λ q h. h;
  versions_kept = λ q h. any_more (λ w. q w.id w.boot_asset_id) d.versions v h;
  items_kept = λ q h. h;
}

seen-Grows :
    (d : ImageDb) (p : BootAssetVersion → Bool) (t : ℕ)
    → Grows d (record d { versions = update p (seen_at t) d.versions })
seen-Grows d p t = record {
  assets_kept = λ q h. h;
  versions_kept =
      λ q h. any-update (λ w. q w.id w.boot_asset_id) p (seen_at t) d.versions (λ x g. refl) ∙ h;
  items_kept = λ q h. h;
}

pub upsert-Grows :
    (source_id asset_id : ℕ) (name : String) (t : ℕ) (d : ImageDb)
    → IsAssetOf d source_id asset_id
    → Ensures (upsert asset_id name t d) (λ v e. Grows d e × IsVersionOf e source_id v.id)
unfolding upsert
upsert-Grows source_id asset_id name t d owned =
    go (select (is_version asset_id name) d.versions) refl
  where
    now : ImageDb
    now = record d { versions = update (is_version asset_id name) (seen_at t) d.versions }

    of_source : BootAssetVersion → Bool
    of_source w = any (λ a. (a.id == w.boot_asset_id) && in_source source_id a) d.assets

    theirs :
        (k : ℕ) (w : BootAssetVersion)
        → ((w.id == k) && is_version asset_id name w) ≡ true
        → ((w.id == k) && of_source w) ≡ true
    theirs k w h =
        let same : w.boot_asset_id ≡ asset_id = ground (arith, h) in
        let here : of_source w ≡ true =
          ap (λ i. any (λ a. (a.id == i) && in_source source_id a) d.assets) same ∙ owned in
        ground (arith, h, here)

    go :
        (l : List BootAssetVersion)
        → select (is_version asset_id name) d.versions ≡ l
        → Ensures
            ((one_or_none (map (seen_at t) l) >>= or_insert asset_id name t) now)
            (λ v e. Grows d e × IsVersionOf e source_id v.id)
    go [] at =
        let new : BootAssetVersion = record {
          id = d.version_sequence;
          boot_asset_id = asset_id;
          version = name;
          last_seen = t;
        } in
        (
          Grows-trans d now
              (record now {
                versions = now.versions ++ new ∷ [];
                version_sequence = suc d.version_sequence;
              })
              (seen-Grows d (is_version asset_id name) t)
              (with_version-Grows now new (suc d.version_sequence)),
          any_last (λ w. (w.id == new.id) && of_source w) now.versions new (ground (arith, owned)),
        )
    go (v ∷ []) at = (
      seen-Grows d (is_version asset_id name) t,
      any-update (λ w. (w.id == v.id) && of_source w) (is_version asset_id name) (seen_at t)
            d.versions (λ x g. refl)
          ∙ any_implies (λ w. (w.id == v.id) && is_version asset_id name w)
              (λ w. (w.id == v.id) && of_source w) d.versions (theirs v.id)
              (any-and (λ w. w.id == v.id) (is_version asset_id name) d.versions
                ∙ rw at (ground arith)),
    )
    go (v ∷ w ∷ l) at = tt
