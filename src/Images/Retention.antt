-- ===== src/Images/Retention.antt =====
-- `remove_stale_versions` of temporal/activities/bootasset.py. A dictionary is the list of its
-- entries in order; `pop` raises KeyError or IndexError where there is nothing to take out.
mod Slices
mod Pops
pub mod Policy
mod Tests
use maas_site_manager.Common.{
  ℕ, zero, suc, ◌==◌, ◌-◌, String, Bool, true, false, Option, none, some, List, [], ◌∷◌, ◌++◌, map,
  ◌&&◌, not, ltb, if◌then◌else◌, select, length, str_eq,
}

pub record VersionStatus : Type 0 where
  pub complete : Bool
  pub last_seen : ℕ

abbrev pub Entry : Type 0
Entry = String × VersionStatus

pub record AssetVersions : Type 0 where
  pub asset_id : ℕ
  pub versions : List Entry

pub record Version : Type 0 where
  pub asset_id : ℕ
  pub version : String

abbrev pub is_old : ℕ → Entry → Bool
is_old sync e = ltb e.1.last_seen sync

abbrev pub names : List Entry → List String
names l = map (λ e. e.0) l

abbrev pub of_id : ℕ → List String → List Version
of_id id l = map (λ v. record { asset_id = id; version = v }) l

-- The versions that are gone upstream, each with the index of its asset.
abbrev pub removed_from_up : ℕ → ℕ → List AssetVersions → List (ℕ × Version)
removed_from_up sync i [] = []
removed_from_up sync i (av ∷ avs) =
    map (λ v. (i, v)) (of_id av.asset_id (names (select (is_old sync) av.versions)))
    ++ removed_from_up sync (suc i) avs

-- What follows is not run where a lookup has failed.
abbrev pub bind : {A B : Type 0} → Option A → (A → Option B) → Option B
bind none f = none
bind (some a) f = f a

-- `versions.pop(key)`
abbrev pub pop : String → List Entry → Option (List Entry)
pop key [] = none
pop key (e ∷ es) =
    let rest = pop key es in if str_eq e.0 key then some es else bind rest (λ l. some (e ∷ l))

-- `params.versions[i].versions.pop(key)`
abbrev pub pop_at : ℕ → String → List AssetVersions → Option (List AssetVersions)
pop_at i key [] = none
pop_at zero key (av ∷ avs) =
    bind (pop key av.versions) (λ l. some (record av { versions = l } ∷ avs))
pop_at (suc i) key (av ∷ avs) = bind (pop_at i key avs) (λ l. some (av ∷ l))

abbrev pub pop_each : List (ℕ × Version) → List AssetVersions → Option (List AssetVersions)
pop_each [] avs = some avs
pop_each (r ∷ rs) avs = bind (pop_at r.0 r.1.version avs) (pop_each rs)

abbrev pub take : {A : Type 0} → ℕ → List A → List A
take zero l = []
take (suc n) [] = []
take (suc n) (x ∷ l) = x ∷ take n l

-- The slice `l[: -keep]`: `l[:0]` for 0, and nothing if the list is shorter than `keep`.
abbrev pub until_last : {A : Type 0} → ℕ → List A → List A
until_last zero l = []
until_last (suc k) l = take (length l - suc k) l

abbrev pub stale : ℕ → AssetVersions → List Version
stale keep av =
    let complete = names (select (λ e. e.1.complete) av.versions) in
    if ltb keep (length complete) then of_id av.asset_id (until_last keep complete) else []

abbrev pub stale_each : ℕ → List AssetVersions → List Version
stale_each keep [] = []
stale_each keep (av ∷ avs) = stale keep av ++ stale_each keep avs

pub data Outcome : Type 0 where
  nothing_to_remove lookup_error : Outcome
  removed refused : List Version → Outcome

-- `post` is the status with which the server answers the request to remove those versions.
abbrev pub send : (List Version → ℕ) → List Version → Outcome
send post [] = nothing_to_remove
send post (v ∷ vs) = if post (v ∷ vs) == 200 then removed (v ∷ vs) else refused (v ∷ vs)

pub remove_stale_versions : (List Version → ℕ) → List AssetVersions → ℕ → ℕ → Outcome
remove_stale_versions post versions keep sync =
    let removed_up = removed_from_up sync 0 versions in
    elim (pop_each removed_up versions) [
      | none ↦ lookup_error
      | some left ↦ send post (map (λ r. r.1) removed_up ++ stale_each keep left)
    ]
