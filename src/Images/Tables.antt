-- ===== src/Images/Tables.antt =====
-- The image tables of backend/msm/apiserver/db/tables.py, with their foreign keys: a row that is
-- referred to cannot be deleted (`ondelete="RESTRICT"`). Calls of Temporal and refreshes of the
-- index view are recorded, in order. `schedules` are the sources that Temporal has schedules for: a
-- schedule that is not there cannot be deleted or fired. A request that raises leaves the state as it
-- was, also where it has called Temporal before.
use maas_site_manager.Common.{
  ℕ, String, Bool, false, Option, none, some, List, [], ◌∷◌, ◌++◌, ◌==◌, not, any, if◌then◌else◌,
}
use maas_site_manager.Common.Result.{Tx, modify, gets, raise_if, rpc_error, ◌>>=◌, ◌>>◌}
use maas_site_manager.Common.Rows.{delete}

pub record BootSource : Type 0 where
  pub id : ℕ
  pub priority : ℕ
  pub url : String
  pub keyring : Option String
  pub sync_interval : ℕ
  pub name : String
  pub last_sync : ℕ

pub record BootSourceSelection : Type 0 where
  pub id : ℕ
  pub boot_source_id : ℕ
  pub label : String
  pub os : String
  pub release : String
  pub arch : String
  pub selected : Bool

pub data BootAssetKind : Type 0 where
  os_image bootloader : BootAssetKind

pub record BootAsset : Type 0 where
  pub id : ℕ
  pub boot_source_id : ℕ
  pub kind : BootAssetKind
  pub label : String
  pub os : String
  pub release : Option String
  pub version : Option String
  pub krel : Option String
  pub codename : Option String
  pub title : Option String
  pub arch : String
  pub subarch : Option String
  pub compatibility : List String
  pub flavor : Option String
  pub base_image : Option String
  pub bootloader_type : Option String
  pub eol : Option ℕ
  pub esm_eol : Option ℕ
  pub signed : Bool

pub record BootAssetVersion : Type 0 where
  pub id : ℕ
  pub boot_asset_id : ℕ
  pub version : String
  pub last_seen : ℕ

pub record BootAssetItem : Type 0 where
  pub id : ℕ
  pub boot_asset_version_id : Option ℕ
  pub ftype : String
  pub sha256 : String
  pub path : String
  pub file_size : ℕ
  pub source_package : Option String
  pub source_version : Option String
  pub source_release : Option String
  pub bytes_synced : ℕ

pub data Effect : Type 0 where
  disable_sync trigger_sync : ℕ → Effect
  enable_sync : ℕ → ℕ → Effect
  refresh_index : Effect

pub record ImageDb : Type 0 where
  pub sources : List BootSource
  pub selections : List BootSourceSelection
  pub assets : List BootAsset
  pub versions : List BootAssetVersion
  pub items : List BootAssetItem
  pub selection_sequence : ℕ
  pub asset_sequence : ℕ
  pub version_sequence : ℕ
  pub item_sequence : ℕ
  pub effects : List Effect
  pub schedules : List ℕ

abbrev pub emit : Effect → Tx ImageDb Unit
emit e = modify (λ d. record d { effects = d.effects ++ e ∷ [] })

abbrev pub is_scheduled : ℕ → ImageDb → Bool
is_scheduled id d = any (λ j. j == id) d.schedules

-- `BootSourceWorkflowService`: `disable_sync`, `trigger_sync` and `enable_sync`
unfoldable pub disable : ℕ → Tx ImageDb Unit
disable id = do
  there ← gets (is_scheduled id)
  raise_if (not there) rpc_error
  modify (λ d. record d {
    schedules = delete (λ j. j == id) d.schedules;
    effects = d.effects ++ disable_sync id ∷ [];
  })

abbrev pub trigger : ℕ → Tx ImageDb Unit
trigger id = do
  there ← gets (is_scheduled id)
  raise_if (not there) rpc_error
  emit (trigger_sync id)

abbrev pub with_schedule : ℕ → List ℕ → List ℕ
with_schedule id l = if any (λ j. j == id) l then l else l ++ id ∷ []

unfoldable pub enable : ℕ → ℕ → Tx ImageDb Unit
enable id interval = modify (λ d. record d {
  schedules = with_schedule id d.schedules;
  effects = d.effects ++ enable_sync id interval ∷ [];
})

abbrev pub is_value : Option ℕ → ℕ → Bool
is_value none v = false
is_value (some w) v = w == v

abbrev pub in_source : ℕ → BootAsset → Bool
in_source id a = a.boot_source_id == id

abbrev pub of_asset : ℕ → BootAssetVersion → Bool
of_asset id v = v.boot_asset_id == id

abbrev pub of_version : ℕ → BootAssetItem → Bool
of_version id i = is_value i.boot_asset_version_id id
