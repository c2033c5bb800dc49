-- ===== src/Sites/Enrolment/Claims.antt =====
-- `claim_jwt` of service/site.py: when it succeeds, and what it leaves.
use maas_site_manager.Common.{
  ℕ, ◌≡◌, refl, ◌∙◌, true, ◌||◌, some, List, [], ◌∷◌, ◌==◌, select, any, All,
}
use maas_site_manager.Common.Result.{ok}
use maas_site_manager.Common.Rows.{update, select-update, select-and, All-update}
use maas_site_manager.Common.Unique.{update-Unique}
use maas_site_manager.Sites.Tables.{SiteRow, TokenRow, Db, is_value, is_null}
use maas_site_manager.Sites.Service.{is_claimable, claim_jwt}
use maas_site_manager.Sites.Invariant.{UniqueAuthIds, IsPlaced}

abbrev pub placed_on : ℕ → TokenRow → TokenRow
placed_on site_id t = record t { site_id = some site_id }

abbrev pub claimed : ℕ → ℕ → List TokenRow → List TokenRow
claimed site_id auth_id tokens = update (is_claimable site_id auth_id) (placed_on site_id) tokens

module _ (site_id auth_id : ℕ) (d : Db) (t : TokenRow)
    (found : select (λ u. u.auth_id == auth_id) d.tokens ≡ t ∷ []) where
  claimable_row : is_null t.site_id ≡ true → select (is_claimable site_id auth_id) d.tokens ≡ t ∷ []
  claimable_row free =
      select-and (λ u. u.auth_id == auth_id) (λ u. is_null u.site_id || is_value u.site_id site_id)
        d.tokens
      ∙ rw found (rw free refl)

  pub claim_jwt-free :
      is_null t.site_id ≡ true
      → claim_jwt site_id auth_id d
        ≡ ok (tt, record d { tokens = claimed site_id auth_id d.tokens })
  unfolding claim_jwt
  claim_jwt-free free = rw (claimable_row free) refl

  pub select-claimed :
      is_null t.site_id ≡ true
      → (t.auth_id == auth_id) ≡ true
      → select (λ u. u.auth_id == auth_id) (claimed site_id auth_id d.tokens)
        ≡ placed_on site_id t ∷ []
  select-claimed free own =
      select-update (λ u. u.auth_id == auth_id) (is_claimable site_id auth_id) (placed_on site_id)
        d.tokens (λ u h. refl)
      ∙ rw found (rw (own, free) refl)

pub claimed-UniqueAuthIds :
    (site_id auth_id : ℕ) (tokens : List TokenRow)
    → UniqueAuthIds tokens
    → UniqueAuthIds (claimed site_id auth_id tokens)
claimed-UniqueAuthIds site_id auth_id tokens u =
    update-Unique ◌==◌ (λ t. t.auth_id) (is_claimable site_id auth_id) (placed_on site_id) tokens
      (λ t h. refl) u

pub claimed-IsPlaced :
    (site_id auth_id : ℕ) (sites : List SiteRow) (tokens : List TokenRow)
    → any (λ r. site_id == r.id) sites ≡ true
    → All (IsPlaced sites) tokens
    → All (IsPlaced sites) (claimed site_id auth_id tokens)
claimed-IsPlaced site_id auth_id sites tokens there all =
    All-update (IsPlaced sites) (is_claimable site_id auth_id) (placed_on site_id) tokens
      (λ t h p. there) all
