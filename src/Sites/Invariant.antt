-- ===== src/Sites/Invariant.antt =====
-- What the tables satisfy between two requests.
use maas_site_manager.Common.{
  ℕ, ◌<◌, String, ◌≡◌, ◌⊎◌, true, ◌||◌, List, [], ◌∷◌, ◌==◌, select, any, All, str_eq, eq_iff,
  arith,
}
use maas_site_manager.Common.Unique.{Unique, select-Unique}
use maas_site_manager.Sites.Tables.{SiteRow, TokenRow, Db, is_value, is_null}

abbrev pub UniqueIds : List SiteRow → Type 0
UniqueIds = Unique ◌==◌ (λ r. r.id)

abbrev pub UniqueUuids : List SiteRow → Type 0
UniqueUuids = Unique str_eq (λ r. r.cluster_uuid)

abbrev pub UniqueAuthIds : List TokenRow → Type 0
UniqueAuthIds = Unique ◌==◌ (λ t. t.auth_id)

-- The foreign key of a token: no site, or one that is there.
abbrev pub IsPlaced : List SiteRow → TokenRow → Type 0
IsPlaced sites t = (is_null t.site_id || any (λ r. is_value t.site_id r.id) sites) ≡ true

-- The constraints that the tables declare, and that the sequence is ahead of the keys.
pub record IsWellFormed (d : Db) : Type 0 where
  pub site_ids : UniqueIds d.sites
  pub site_uuids : UniqueUuids d.sites
  pub site_ids_drawn : All (λ r. r.id < d.site_sequence) d.sites
  pub auth_ids : UniqueAuthIds d.tokens
  pub tokens_placed : All (IsPlaced d.sites) d.tokens

==_same : (j l k : ℕ) → (j == k) ≡ true → (l == j) ≡ (l == k)
==_same j l k h = ground arith

pub ==_symm : (k l : ℕ) → (k == l) ≡ (l == k)
==_symm k l = ground arith

str_eq_same : (k j l : String) → str_eq j k ≡ true → str_eq l j ≡ str_eq l k
str_eq_same k j l h = ground (arith, eq_iff j k, eq_iff l j, eq_iff l k)

pub str_eq_symm : (k l : String) → str_eq k l ≡ str_eq l k
str_eq_symm k l = ground (arith, eq_iff k l, eq_iff l k)

pub select_uuid :
    (uuid : String) (sites : List SiteRow)
    → UniqueUuids sites
    → (select (λ r. str_eq r.cluster_uuid uuid) sites ≡ [])
      ⊎ ((r : SiteRow) × (select (λ r. str_eq r.cluster_uuid uuid) sites ≡ r ∷ [])
          × (str_eq r.cluster_uuid uuid ≡ true))
select_uuid uuid sites u =
    select-Unique str_eq (λ r. r.cluster_uuid) uuid sites (str_eq_same uuid) u

pub select_auth_id :
    (auth_id : ℕ) (tokens : List TokenRow)
    → UniqueAuthIds tokens
    → (select (λ t. t.auth_id == auth_id) tokens ≡ [])
      ⊎ ((t : TokenRow) × (select (λ t. t.auth_id == auth_id) tokens ≡ t ∷ [])
          × ((t.auth_id == auth_id) ≡ true))
select_auth_id auth_id tokens u =
    select-Unique ◌==◌ (λ t. t.auth_id) auth_id tokens (λ j l. ==_same j l auth_id) u
