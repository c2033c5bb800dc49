-- ===== src/Images/Sources.antt =====
-- Boot sources: `BootSourceService` of service/images.py and its handlers in user/handlers/bootassets.py.
pub mod Schedules
mod Tests
use maas_site_manager.Common.{
  ℕ, zero, suc, String, Bool, Option, none, some, List, [], ◌∷◌, ◌++◌, map, select, ltb, ◌==◌, ◌&&◌,
  is_none, if◌then◌else◌,
}
use maas_site_manager.Common.Result.{
  Tx, ◌>>=◌, ◌>>◌, pure, gets, modify, one, one_or_none, fail, not_found, raise_if,
  programming_error, ok,
}
use maas_site_manager.Common.Rows.{update}
use maas_site_manager.Images.Tables.{
  BootSource, ImageDb, disable, enable, is_scheduled, refresh_index, emit,
}

pub record BootSourceUpdate : Type 0 where
  pub priority : Option ℕ
  pub url : Option String
  pub name : Option String
  pub keyring : Option String
  pub sync_interval : Option ℕ
  pub last_sync : Option ℕ

-- `model_dump(exclude_none=True)` over a column
abbrev pub or_kept : {A : Type 0} → Option A → A → A
or_kept none a = a
or_kept (some b) a = b

abbrev pub or_kept_optional : {A : Type 0} → Option A → Option A → Option A
or_kept_optional none a = a
or_kept_optional (some b) a = some b

abbrev pub with_update : BootSourceUpdate → BootSource → BootSource
with_update u s = record s {
  priority = or_kept u.priority s.priority;
  url = or_kept u.url s.url;
  name = or_kept u.name s.name;
  keyring = or_kept_optional u.keyring s.keyring;
  sync_interval = or_kept u.sync_interval s.sync_interval;
  last_sync = or_kept u.last_sync s.last_sync;
}

abbrev pub has_id : ℕ → BootSource → Bool
has_id id s = s.id == id

-- Where there is no schedule, the error is caught.
unfoldable pub disable_if_scheduled : ℕ → Tx ImageDb Unit
disable_if_scheduled id d = if is_scheduled id d then disable id d else ok (tt, d)

abbrev pub reschedule : Option ℕ → BootSource → Tx ImageDb Unit
reschedule none s = pure tt
reschedule (some zero) s = disable_if_scheduled s.id
reschedule (some (suc n)) s = enable s.id s.sync_interval

-- No column is set.
abbrev pub sets_nothing : BootSourceUpdate → Bool
sets_nothing u =
    is_none u.priority
    && (is_none u.url
        && (is_none u.name
            && (is_none u.keyring && (is_none u.sync_interval && is_none u.last_sync))))

-- `BootSourceService.update`
unfoldable pub update_source : ℕ → BootSourceUpdate → Tx ImageDb BootSource
update_source id details = do
  raise_if (sets_nothing details) programming_error
  rows ← gets (λ d. map (with_update details) (select (has_id id) d.sources))
  modify (λ d. record d { sources = update (has_id id) (with_update details) d.sources })
  source ← one rows
  reschedule details.sync_interval source
  pure source

-- `BootSourceService.get_by_id`
abbrev pub get_source_by_id : ℕ → Tx ImageDb (Option BootSource)
get_source_by_id id = do rows ← gets (λ d. select (has_id id) d.sources); one_or_none rows

abbrev pub found_source : Option BootSource → Tx ImageDb BootSource
found_source none = fail not_found
found_source (some s) = pure s

pub record BootSourcesPatchRequest : Type 0 where
  pub priority : Option ℕ
  pub keyring : Option String
  pub sync_interval : Option ℕ
  pub name : Option String

abbrev pub requested : BootSourcesPatchRequest → BootSourceUpdate
requested r = record {
  priority = r.priority;
  url = none;
  name = r.name;
  keyring = r.keyring;
  sync_interval = r.sync_interval;
  last_sync = none;
}

-- The handler `patch_boot_source`
unfoldable pub patch_boot_source : ℕ → BootSourcesPatchRequest → Tx ImageDb BootSource
patch_boot_source id r = do
  bs ← get_source_by_id id
  source ← found_source bs
  updated ← update_source id (requested r)
  emit refresh_index
  pure updated

-- `_ensure_sync`
abbrev enable_each : List BootSource → Tx ImageDb Unit
enable_each [] = pure tt
enable_each (s ∷ l) = do enable s.id s.sync_interval; enable_each l

abbrev enable_active : List BootSource → Tx ImageDb Unit
enable_active [] = pure tt
enable_active (s ∷ []) = pure tt
enable_active (s ∷ t ∷ l) = enable_each (select (λ r. ltb 0 r.sync_interval) (s ∷ t ∷ l))

unfoldable pub ensure_sync : Tx ImageDb Unit
ensure_sync = do sources ← gets (λ d. d.sources); enable_active sources

-- `_ensure_custom`, for the URL of the service
abbrev custom_image_source_id : ℕ
custom_image_source_id = 1

abbrev custom_source : String → BootSource
custom_source service_url = record {
  id = custom_image_source_id;
  priority = 1;
  url = service_url;
  keyring = some "";
  sync_interval = 0;
  name = "MSM Custom Images";
  last_sync = 0;
}

abbrev keep_url : String → Option BootSource → Tx ImageDb Unit
keep_url service_url none =
    modify (λ d. record d { sources = d.sources ++ custom_source service_url ∷ [] })
keep_url service_url (some s) = do
  updated ← update_source custom_image_source_id (record {
    priority = none;
    url = some service_url;
    name = none;
    keyring = none;
    sync_interval = none;
    last_sync = none;
  })
  pure tt

unfoldable pub ensure_custom : String → Tx ImageDb Unit
ensure_custom service_url = do
  found ← get_source_by_id custom_image_source_id
  keep_url service_url found

unfoldable pub ensure : String → Tx ImageDb Unit
ensure service_url = do ensure_custom service_url; ensure_sync
