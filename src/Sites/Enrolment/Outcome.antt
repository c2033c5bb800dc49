-- ===== src/Sites/Enrolment/Outcome.antt =====
-- The whole of `create_or_update_pending`, and of the handler.
use maas_site_manager.Common.{
  ℕ, suc, ◌≡◌, refl, ap, ◌∙◌, inl, inr, true, false, not, List, [], ◌∷◌, ◌++◌, ◌==◌, select, any,
  arith, Bool-cases,
}
use maas_site_manager.Common.Result.{Result, ok, ◌>>=◌}
use maas_site_manager.Common.Rows.{update, select-and, any-and, any-select}
use maas_site_manager.Sites.Tables.{SiteRow, TokenRow, Db, is_null}
use maas_site_manager.Sites.Service.{
  PendingSiteCreate, with_details, default_site, has_uuid, as_pending, as_revived, is_live,
  is_deleted_twin, claim_jwt, update_pending, create_pending, create_or_update_pending,
}
use maas_site_manager.Sites.Invariant.{IsWellFormed, select_uuid}
use maas_site_manager.Sites.Enrolment.Claims.{claimed, claim_jwt-free}
use maas_site_manager.Sites.Enrolment.Rows.{Placed, update-Placed, revive-Placed, insert-Placed}

-- The tables after the request: the placed row, and the token on it.
abbrev pub enrolled : Db → List SiteRow → ℕ → SiteRow → ℕ → Db
enrolled d sites sequence row auth_id = record d {
  sites = sites;
  site_sequence = sequence;
  tokens = claimed row.id auth_id d.tokens;
}

-- The request put a site in place and answered with it.
pub record Enrols (p : PendingSiteCreate) (d : Db) (r : Result (SiteRow × Db)) : Type 0 where
  pub sites : List SiteRow
  pub sequence : ℕ
  pub row : SiteRow
  pub placed : Placed p d sites sequence row
  pub answered : r ≡ ok (row, enrolled d sites sequence row p.auth_id)

module _ (p : PendingSiteCreate) (now : ℕ) (d : Db) (w : IsWellFormed d) (t : TokenRow)
    (own : select (λ u. u.auth_id == p.auth_id) d.tokens ≡ t ∷ [])
    (free : is_null t.site_id ≡ true) where
  claims :
      (site_id : ℕ) (e : Db)
      → e.tokens ≡ d.tokens
      → claim_jwt site_id p.auth_id e
        ≡ ok (tt, record e { tokens = claimed site_id p.auth_id e.tokens })
  claims site_id e same = claim_jwt-free site_id p.auth_id e t (rw same own) free

  live_row :
      (r : SiteRow)
      → select (has_uuid p.cluster_uuid) d.sites ≡ r ∷ []
      → has_uuid p.cluster_uuid r ≡ true
      → is_live r ≡ true
      → Enrols p d (create_or_update_pending p now d)
  unfolding create_or_update_pending update_pending
  live_row r found hit live = record {
    sites = update (has_uuid p.cluster_uuid) (as_pending p) d.sites;
    sequence = d.site_sequence;
    row = as_pending p r;
    placed = update-Placed p d w r found hit live;
    answered =
        rw (any-and is_live (has_uuid p.cluster_uuid) d.sites, found, live)
          (rw found (
            rw
              (
                claims r.id
                    (record d { sites = update (has_uuid p.cluster_uuid) (as_pending p) d.sites })
                    refl,
                ◌>>=◌,
              )
              refl));
  }

  deleted_row :
      (r : SiteRow)
      → select (has_uuid p.cluster_uuid) d.sites ≡ r ∷ []
      → has_uuid p.cluster_uuid r ≡ true
      → is_live r ≡ false
      → Enrols p d (create_or_update_pending p now d)
  unfolding create_or_update_pending create_pending
  deleted_row r found hit gone =
      let twin : select (is_deleted_twin p.cluster_uuid) d.sites ≡ r ∷ [] =
        select-and (has_uuid p.cluster_uuid) (λ x. not (is_live x)) d.sites
        ∙ rw found (rw gone refl) in
      let collides = any-select (has_uuid p.cluster_uuid) d.sites in
      record {
        sites = update (is_deleted_twin p.cluster_uuid) (as_revived p) d.sites;
        sequence = d.site_sequence;
        row = as_revived p r;
        placed = revive-Placed p d w r found (ground arith);
        answered =
            rw (any-and is_live (has_uuid p.cluster_uuid) d.sites, found, gone)
              (rw (collides, found)
                (rw (twin, ◌>>=◌)
                  (rw (twin, ◌>>=◌)
                    (rw
                      (
                        claims r.id
                            (record d {
                              sites =
                                  update (is_deleted_twin p.cluster_uuid) (as_revived p) d.sites;
                            })
                            refl,
                        ◌>>=◌,
                      )
                      refl))));
      }

  no_row :
      select (has_uuid p.cluster_uuid) d.sites ≡ [] → Enrols p d (create_or_update_pending p now d)
  unfolding create_or_update_pending create_pending
  no_row none_found =
      let row = with_details p (default_site d.site_sequence now) in
      let absent = any-select (has_uuid p.cluster_uuid) d.sites ∙ ap (any (λ x. true)) none_found in
      record {
        sites = d.sites ++ row ∷ [];
        sequence = suc d.site_sequence;
        row = row;
        placed = insert-Placed p d w now absent;
        answered =
            rw (any-and is_live (has_uuid p.cluster_uuid) d.sites, none_found)
              (rw absent (
                rw
                  (
                    claims d.site_sequence
                        (record d {
                          sites = d.sites ++ row ∷ [];
                          site_sequence = suc d.site_sequence;
                        })
                        refl,
                    ◌>>=◌,
                  )
                  refl));
      }

  pub create_or_update_pending-Enrols : Enrols p d (create_or_update_pending p now d)
  create_or_update_pending-Enrols = elim (select_uuid p.cluster_uuid d.sites w.site_uuids) [
    | inl absent ↦ no_row absent
    | inr (r, found, hit) ↦ elim (Bool-cases (is_live r)) [
      | inl live ↦ live_row r found hit live
      | inr gone ↦ deleted_row r found hit gone
    ]
  ]
