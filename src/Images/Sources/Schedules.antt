-- ===== src/Images/Sources/Schedules.antt =====
-- The schedules of the boot sources, over patches of a source.
use maas_site_manager.Common.{
  ℕ, zero, suc, ◌≡◌, Bool, Option, none, some, List, ◌==◌, any, All, ltb,
}
use maas_site_manager.Common.Rows.{delete}
use maas_site_manager.Images.Tables.{BootSource, ImageDb, with_schedule}

abbrev scheduled : List ℕ → ℕ → Bool
scheduled l id = any (λ j. j == id) l

-- A source has schedules exactly if it is to be synchronised.
abbrev Fits : List ℕ → BootSource → Type 0
Fits l s = scheduled l s.id ≡ ltb 0 s.sync_interval

abbrev pub InStep : ImageDb → Type 0
InStep d = All (Fits d.schedules) d.sources

-- The schedules after a change of the interval.
abbrev planned : Option ℕ → ℕ → List ℕ → List ℕ
planned none id l = l
planned (some zero) id l = delete (λ j. j == id) l
planned (some (suc n)) id l = with_schedule id l
