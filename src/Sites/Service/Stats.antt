-- ===== src/Sites/Service/Stats.antt =====
-- The heartbeat and the counts of `SiteService`.
use maas_site_manager.Common.{ℕ, suc, some, [], ◌∷◌, ◌++◌, ◌==◌, if◌then◌else◌, any}
use maas_site_manager.Common.Result.{Tx, modify}
use maas_site_manager.Common.Rows.{update}
use maas_site_manager.Sites.Tables.{SiteDataRow, Db}

abbrev pub new_site_data : ℕ → ℕ → ℕ → SiteDataRow
new_site_data id site_id last_seen = record {
  id = id;
  site_id = site_id;
  machines_allocated = 0;
  machines_deployed = 0;
  machines_ready = 0;
  machines_error = 0;
  machines_other = 0;
  last_seen = some last_seen;
}

-- The upsert of `update_last_seen`; the histogram it may feed is not modelled.
unfoldable pub update_last_seen : ℕ → ℕ → Tx Db Unit
update_last_seen site_id last_seen = modify (λ d.
    if any (λ r. r.site_id == site_id) d.site_data
    then record d {
      site_data =
          update (λ r. r.site_id == site_id) (λ r. record r { last_seen = some last_seen })
            d.site_data;
    }
    else record d {
      site_data = d.site_data ++ new_site_data d.site_data_sequence site_id last_seen ∷ [];
      site_data_sequence = suc d.site_data_sequence;
    })
