-- ===== src/Images/Retention/Policy.antt =====
-- What the activity asks the server to remove.
use maas_site_manager.Common.{
  ℕ, suc, ◌≡◌, refl, ap, ◌∙◌, String, Bool, true, false, List, [], ◌∷◌, ◌++◌, map, ◌&&◌, not,
  select, length, ltb, All, arith, if◌then◌else◌,
}
use maas_site_manager.Common.Rows.{delete}
use maas_site_manager.Images.Retention.{
  Entry, AssetVersions, Version, is_old, names, of_id, removed_from_up, until_last, stale,
  stale_each, send, remove_stale_versions,
}
use maas_site_manager.Images.Retention.Pops.{IsDict, fresh, pop_each-removed}
use maas_site_manager.Images.Retention.Slices.{surplus, until_last_lem}

abbrev pub unseen : ℕ → Entry → Bool
unseen sync e = ltb e.1.last_seen sync

-- The versions that were not seen in the last synchronisation.
abbrev pub gone : ℕ → List AssetVersions → List Version
gone sync [] = []
gone sync (av ∷ avs) = of_id av.asset_id (names (select (unseen sync) av.versions)) ++ gone sync avs

abbrev pub complete_fresh : ℕ → AssetVersions → List String
complete_fresh sync av = names (select (λ e. e.1.complete && not (unseen sync e)) av.versions)

-- The complete versions, seen in the last synchronisation, that at least `keep` such versions of
-- the same asset follow.
abbrev pub superseded : ℕ → ℕ → List AssetVersions → List Version
superseded keep sync [] = []
superseded keep sync (av ∷ avs) =
    of_id av.asset_id (surplus keep (complete_fresh sync av)) ++ superseded keep sync avs

map-append_snd :
    (xs ys : List (ℕ × Version))
    → map (λ r. r.1) (xs ++ ys) ≡ map (λ r. r.1) xs ++ map (λ r. r.1) ys
map-append_snd [] ys = refl
map-append_snd (x ∷ xs) ys = ap (◌∷◌ x.1) (map-append_snd xs ys)

map-pair_snd : (i : ℕ) (l : List Version) → map (λ (r : ℕ × Version). r.1) (map (λ v. (i, v)) l) ≡ l
map-pair_snd i [] = refl
map-pair_snd i (v ∷ l) = ap (◌∷◌ v) (map-pair_snd i l)

removed-gone :
    (sync i : ℕ) (avs : List AssetVersions)
    → map (λ r. r.1) (removed_from_up sync i avs) ≡ gone sync avs
removed-gone sync i [] = refl
removed-gone sync i (av ∷ avs) =
    let here = of_id av.asset_id (names (select (is_old sync) av.versions)) in
    map-append_snd (map (λ v. (i, v)) here) (removed_from_up sync (suc i) avs)
    ∙ rw (map-pair_snd i here, removed-gone sync (suc i) avs) refl

select-fresh :
    (sync : ℕ) (l : List Entry)
    → select (λ e. e.1.complete) (delete (is_old sync) l)
      ≡ select (λ e. e.1.complete && not (is_old sync e)) l
select-fresh sync [] = refl
select-fresh sync (e ∷ l) = ground (arith, select-fresh sync l)

of_id-if :
    (b : Bool) (id : ℕ) (l : List String)
    → (if b then of_id id l else []) ≡ of_id id (if b then l else [])
of_id-if true id l = refl
of_id-if false id l = refl

stale_lem :
    (k sync : ℕ) (av : AssetVersions)
    → stale (suc k) (fresh sync av) ≡ of_id av.asset_id (surplus (suc k) (complete_fresh sync av))
stale_lem k sync av = rw (select-fresh sync av.versions) (
    of_id-if (ltb (suc k) (length (complete_fresh sync av))) av.asset_id
      (until_last (suc k) (complete_fresh sync av))
    ∙ ap (of_id av.asset_id) (until_last_lem k (complete_fresh sync av)))

stale_each_lem :
    (k sync : ℕ) (avs : List AssetVersions)
    → stale_each (suc k) (map (fresh sync) avs) ≡ superseded (suc k) sync avs
stale_each_lem k sync [] = refl
stale_each_lem k sync (av ∷ avs) =
    rw (stale_each_lem k sync avs)
      (ap (λ l. l ++ superseded (suc k) sync avs) (stale_lem k sync av))

-- For dictionaries with distinct keys and at least one version to keep, no lookup fails and the
-- server is asked to remove exactly the versions that were not seen in the last synchronisation,
-- and of each asset the complete versions that at least that many complete versions of the asset,
-- seen in the last synchronisation, follow; it is not asked if there are none.
pub remove_stale_versions_lem :
    (post : List Version → ℕ) (avs : List AssetVersions) (k sync : ℕ)
    → All IsDict avs
    → remove_stale_versions post avs (suc k) sync
      ≡ send post (gone sync avs ++ superseded (suc k) sync avs)
unfolding remove_stale_versions
remove_stale_versions_lem post avs k sync dicts =
    rw (pop_each-removed sync avs dicts, remove_stale_versions)
      (rw (removed-gone sync 0 avs, stale_each_lem k sync avs) refl)

none_stale : (avs : List AssetVersions) → stale_each 0 avs ≡ []
none_stale [] = refl
none_stale (av ∷ avs) = ground (arith, none_stale avs)

append_nil : (l : List Version) → l ++ [] ≡ l
append_nil [] = refl
append_nil (v ∷ l) = ap (◌∷◌ v) (append_nil l)

-- For dictionaries with distinct keys and no version to keep, the server is asked to remove only
-- the versions that were not seen in the last synchronisation: every complete version that was
-- seen is kept.
pub remove_stale_versions-zero :
    (post : List Version → ℕ) (avs : List AssetVersions) (sync : ℕ)
    → All IsDict avs
    → remove_stale_versions post avs 0 sync ≡ send post (gone sync avs)
unfolding remove_stale_versions
remove_stale_versions-zero post avs sync dicts =
    rw (pop_each-removed sync avs dicts, remove_stale_versions)
      (rw (removed-gone sync 0 avs, none_stale (map (fresh sync) avs), append_nil (gone sync avs))
        refl)
