-- ===== src/Images/Retention/Tests.antt =====
-- The activity on two assets.
use maas_site_manager.Common.{ℕ, String, ◌≡◌, refl, true, false, [], ◌∷◌, List, ◌++◌}
use maas_site_manager.Images.Retention.{
  AssetVersions, Version, removed, send, remove_stale_versions,
}
use maas_site_manager.Images.Retention.Policy.{
  gone, superseded, remove_stale_versions_lem, remove_stale_versions-zero,
}

abbrev noble : AssetVersions
noble = record {
  asset_id = 1;
  versions =
      ("a", record { complete = true; last_seen = 9 })
      ∷ ("b", record { complete = true; last_seen = 4 })
      ∷ ("c", record { complete = false; last_seen = 9 })
      ∷ ("d", record { complete = true; last_seen = 9 })
      ∷ [];
}

abbrev jammy : AssetVersions
jammy = record { asset_id = 2; versions = ("z", record { complete = true; last_seen = 3 }) ∷ [] }

abbrev answers : List Version → ℕ
answers l = 200

abbrev of : ℕ → String → Version
of id v = record { asset_id = id; version = v }

keeps_one :
    remove_stale_versions answers (noble ∷ jammy ∷ []) 1 8
    ≡ removed (of 1 "b" ∷ of 2 "z" ∷ of 1 "a" ∷ [])
unfolding remove_stale_versions
keeps_one = refl

remove_stale_versions_lem_example :
    remove_stale_versions answers (noble ∷ jammy ∷ []) 1 8
    ≡ send answers (gone 8 (noble ∷ jammy ∷ []) ++ superseded 1 8 (noble ∷ jammy ∷ []))
remove_stale_versions_lem_example =
    remove_stale_versions_lem answers (noble ∷ jammy ∷ []) 0 8
      ((refl, (refl, (refl, (refl, tt)))), ((refl, tt), tt))

remove_stale_versions-zero_example :
    remove_stale_versions answers (noble ∷ jammy ∷ []) 0 8 ≡ send answers (of 1 "b" ∷ of 2 "z" ∷ [])
remove_stale_versions-zero_example =
    remove_stale_versions-zero answers (noble ∷ jammy ∷ []) 8
      ((refl, (refl, (refl, (refl, tt)))), ((refl, tt), tt))
