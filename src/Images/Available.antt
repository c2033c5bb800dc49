-- ===== src/Images/Available.antt =====
-- The handler `put_boot_source_avail_selections` of user/handlers/bootassets.py, with
-- `BootSourceSelectionService.create` and `delete`. `iterate` is the order in which Python
-- runs through the set of new keys.
pub mod Dicts
mod Created
mod Retired
pub mod Stale
pub mod Outcome
mod Tests
use maas_site_manager.Common.{
  ℕ, suc, String, Bool, true, false, Option, none, some, List, [], ◌∷◌, ◌++◌, map, ◌==◌, ◌&&◌, not,
  select, any, if◌then◌else◌, str_eq, first,
}
use maas_site_manager.Common.Result.{
  Tx, not_found, key_error, ◌>>=◌, ◌>>◌, pure, fail, gets, modify, one_or_none,
}
use maas_site_manager.Common.Rows.{delete}
pub use maas_site_manager.Images.Keys.{Key, key_eq}
use maas_site_manager.Images.Tables.{BootSource, BootSourceSelection, ImageDb, refresh_index, emit}

pub record AvailableBootSourceSelection : Type 0 where
  pub os : String
  pub release : String
  pub label : String
  pub arch : String

abbrev pub offer_key : AvailableBootSourceSelection → Key
offer_key p = (p.os, (p.release, p.arch))

abbrev pub selection_key : BootSourceSelection → Key
selection_key p = (p.os, (p.release, p.arch))

-- A dictionary: its items in order.
abbrev pub Dict : Type 0 → Type 0
Dict V = List (Key × V)

abbrev pub assign : {V : Type 0} → Key → V → Dict V → Dict V
assign k v [] = (k, v) ∷ []
assign k v (e ∷ es) = let rest = assign k v es in if key_eq e.0 k then (e.0, v) ∷ es else e ∷ rest

-- `{key(p): p for p in l}`, from a dictionary on
abbrev pub collect : {V : Type 0} → (V → Key) → Dict V → List V → Dict V
collect key d [] = d
collect key d (p ∷ l) = collect key (assign (key p) p d) l

abbrev pub keys : {V : Type 0} → Dict V → List Key
keys d = map (λ e. e.0) d

abbrev pub mem : List Key → Key → Bool
mem l k = any (λ j. key_eq j k) l

-- The difference of two sets of keys.
abbrev pub difference : List Key → List Key → List Key
difference l m = delete (mem m) l

abbrev pub lookup : {V : Type 0} → Dict V → Key → Option V
lookup [] k = none
lookup (e ∷ es) k = let rest = lookup es k in if key_eq e.0 k then some e.1 else rest

abbrev pub new_row : ℕ → AvailableBootSourceSelection → ℕ → BootSourceSelection
new_row source_id p id = record {
  id = id;
  boot_source_id = source_id;
  label = p.label;
  os = p.os;
  release = p.release;
  arch = p.arch;
  selected = false;
}

pub create : ℕ → AvailableBootSourceSelection → Tx ImageDb Unit
create source_id p = modify (λ d. record d {
  selections = d.selections ++ new_row source_id p d.selection_sequence ∷ [];
  selection_sequence = suc d.selection_sequence;
})

abbrev create_found : ℕ → Option AvailableBootSourceSelection → Tx ImageDb Unit
create_found source_id none = fail key_error
create_found source_id (some p) = create source_id p

pub create_each : ℕ → Dict AvailableBootSourceSelection → List Key → Tx ImageDb Unit
create_each source_id incoming [] = pure tt
create_each source_id incoming (k ∷ ks) = do
  create_found source_id (lookup incoming k)
  create_each source_id incoming ks

pub delete_selection : ℕ → ℕ → Tx ImageDb Unit
delete_selection source_id id = modify (λ d. record d {
  selections = delete (λ s. s.id == id && s.boot_source_id == source_id) d.selections;
})

-- One turn of the loop over the existing selections: a stale one is reported, and deleted unless
-- it is selected.
abbrev pub retire : Bool → BootSourceSelection → Tx ImageDb (List BootSourceSelection)
retire false v = pure []
retire true v = do
  (if v.selected then pure tt else delete_selection v.boot_source_id v.id)
  pure (v ∷ [])

pub retire_each : List Key → Dict BootSourceSelection → Tx ImageDb (List BootSourceSelection)
retire_each stale_keys [] = pure []
retire_each stale_keys (e ∷ es) = do
  here ← retire (mem stale_keys e.0) e.1
  rest ← retire_each stale_keys es
  pure (here ++ rest)

abbrev refuse_absent : Option BootSource → Tx ImageDb Unit
refuse_absent none = fail not_found
refuse_absent (some s) = pure tt

pub put_boot_source_avail_selections :
    (List Key → List Key)
    → ℕ
    → List AvailableBootSourceSelection
    → Tx ImageDb (List BootSourceSelection)
put_boot_source_avail_selections iterate id available = do
  rows ← gets (λ d. select (λ s. s.id == id) d.sources)
  found ← one_or_none rows
  refuse_absent found
  existing ← gets (λ d. select (λ s. s.boot_source_id == id) d.selections)
  let incoming_map = collect offer_key [] available
  let existing_map = collect selection_key [] existing
  let stale_keys = difference (keys existing_map) (keys incoming_map)
  let new_keys = difference (keys incoming_map) (keys existing_map)
  create_each id incoming_map (iterate new_keys)
  stale ← retire_each stale_keys existing_map
  emit refresh_index
  pure stale
