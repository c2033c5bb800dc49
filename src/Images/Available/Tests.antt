-- ===== src/Images/Available/Tests.antt =====
-- The available selections of a small source.
use maas_site_manager.Common.{
  ℕ, ◌≡◌, refl, String, Bool, true, false, not, none, [], ◌∷◌, ◌++◌, List, select, All, ◌&&◌, arith,
}
use maas_site_manager.Common.Result.{ok}
use maas_site_manager.Common.Rows.{delete}
use maas_site_manager.Images.Tables.{BootSource, BootSourceSelection, ImageDb, refresh_index}
use maas_site_manager.Images.Available
use maas_site_manager.Images.Available.{
  AvailableBootSourceSelection, Key, selection_key, put_boot_source_avail_selections,
}
use maas_site_manager.Images.Available.Created.{IsNew}
use maas_site_manager.Images.Available.Stale.{offered, has_key, retires, selections_of}
use maas_site_manager.Images.Available.Outcome.{IsSelectable, put_avail_selections_lem}

abbrev source : BootSource
source = record {
  id = 2;
  priority = 1;
  url = "u";
  keyring = none;
  sync_interval = 60;
  name = "n";
  last_sync = 0;
}

abbrev row : ℕ → ℕ → String → Bool → BootSourceSelection
row id source_id release selected = record {
  id = id;
  boot_source_id = source_id;
  label = "stable";
  os = "ubuntu";
  release = release;
  arch = "amd64";
  selected = selected;
}

abbrev offer : String → AvailableBootSourceSelection
offer release = record { os = "ubuntu"; release = release; label = "stable"; arch = "amd64" }

abbrev db : ImageDb
db = record {
  sources = source ∷ [];
  selections =
      row 1 2 "focal" false
      ∷ row 2 2 "bionic" true
      ∷ row 3 3 "focal" false
      ∷ row 4 2 "noble" true
      ∷ [];
  assets = [];
  versions = [];
  items = [];
  selection_sequence = 5;
  asset_sequence = 1;
  version_sequence = 1;
  item_sequence = 1;
  effects = [];
  schedules = 1 ∷ 2 ∷ [];
}

abbrev available : List AvailableBootSourceSelection
available = offer "noble" ∷ offer "plucky" ∷ offer "plucky" ∷ []

abbrev same_order : List Key → List Key
same_order l = l

updated :
    put_boot_source_avail_selections same_order 2 available db
    ≡ ok (
      row 1 2 "focal" false ∷ row 2 2 "bionic" true ∷ [],
      record db {
        selections =
            row 2 2 "bionic" true
            ∷ row 3 3 "focal" false
            ∷ row 4 2 "noble" true
            ∷ row 5 2 "plucky" false
            ∷ [];
        selection_sequence = 6;
        effects = refresh_index ∷ [];
      },
    )
unfolding put_boot_source_avail_selections Available.create_each Available.create
    Available.retire_each Available.delete_selection
updated = refl

db-IsSelectable : IsSelectable 2 db
db-IsSelectable = record {
  ids = (refl, (refl, (refl, (refl, tt))));
  ids_drawn = (omega arith, (omega arith, (omega arith, (omega arith, tt))));
  keys_unique = (refl, (refl, (refl, tt)));
}

put_avail_selections_lem_example :
    (created : List BootSourceSelection) × (next : ℕ) × (put_boot_source_avail_selections same_order
        2 available db
      ≡ ok (
        select (λ v. not (offered available (selection_key v))) (selections_of 2 db),
        record db {
          selections = delete (retires 2 available) db.selections ++ created;
          selection_sequence = next;
          effects = refresh_index ∷ [];
        },
      ))
    × All (IsNew 2 5) created
    × ((k : Key)
        → has_key created k ≡ (offered available k && not (has_key (selections_of 2 db) k)))
put_avail_selections_lem_example =
    put_avail_selections_lem same_order 2 available source db (λ q l. refl) refl db-IsSelectable
