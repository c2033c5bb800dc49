-- ===== src/Sites/Enrolment/Rows.antt =====
-- The site row that an enrolment request leaves, for each state that a row of its UUID may be in.
use maas_site_manager.Common.{
  ℕ, suc, ◌<◌, ◌≡◌, refl, ap, sym, ◌∙◌, Bool, true, false, ◌||◌, List, [], ◌∷◌, ◌++◌, ◌==◌, select,
  any, All, str_eq, eq_iff, eq_refl, arith,
}
use maas_site_manager.Common.Rows.{
  update, select-update, select-append, select_none, any-append, any-update, All-update, All-append,
  All-map,
}
use maas_site_manager.Common.Unique.{update-Unique, append-Unique}
use maas_site_manager.Sites.Tables.{SiteRow, TokenRow, Db, is_value, is_null}
use maas_site_manager.Sites.Service.{
  PendingSiteCreate, with_details, default_site, has_uuid, as_pending, as_revived, is_live,
  is_pending, is_deleted_twin,
}
use maas_site_manager.Sites.Invariant.{
  UniqueIds, UniqueUuids, IsPlaced, IsWellFormed, str_eq_symm, ==_symm,
}

-- `row` is the one row of the UUID, pending and with the request's name and address, and the
-- constraints hold.
pub record Placed (p : PendingSiteCreate) (d : Db) (sites : List SiteRow) (sequence : ℕ)
    (row : SiteRow) : Type 0 where
  pub found : select (has_uuid p.cluster_uuid) sites ≡ row ∷ []
  pub pending : is_pending row ≡ true
  pub name : row.name ≡ p.name
  pub url : row.url ≡ p.url
  pub site_ids : UniqueIds sites
  pub site_uuids : UniqueUuids sites
  pub site_ids_drawn : All (λ r. r.id < sequence) sites
  pub tokens_placed : All (IsPlaced sites) d.tokens

append-IsPlaced :
    (t : TokenRow) (sites : List SiteRow) (row : SiteRow)
    → IsPlaced sites t
    → IsPlaced (sites ++ row ∷ []) t
append-IsPlaced t sites row h =
    ground (arith, any-append (λ r. is_value t.site_id r.id) sites (row ∷ []))

module _ (p : PendingSiteCreate) (d : Db) (w : IsWellFormed d) where
  -- A write to rows of that UUID, which keeps the keys.
  module _ (q : SiteRow → Bool) (f : SiteRow → SiteRow)
      (at_uuid : (r : SiteRow) → q r ≡ true → has_uuid p.cluster_uuid r ≡ true)
      (uuid_kept : (r : SiteRow) → (f r).cluster_uuid ≡ p.cluster_uuid)
      (id_kept : (r : SiteRow) → (f r).id ≡ r.id) where
    same_uuid : (r : SiteRow) → q r ≡ true → (f r).cluster_uuid ≡ r.cluster_uuid
    same_uuid r h = uuid_kept r ∙ sym ((eq_iff r.cluster_uuid p.cluster_uuid).0 (at_uuid r h))

    written-Placed :
        (r : SiteRow)
        → select (has_uuid p.cluster_uuid) d.sites ≡ r ∷ []
        → q r ≡ true
        → is_pending (f r) ≡ true
        → (f r).name ≡ p.name
        → (f r).url ≡ p.url
        → Placed p d (update q f d.sites) d.site_sequence (f r)
    written-Placed r found hit pending name url = record {
      found =
          select-update (has_uuid p.cluster_uuid) q f d.sites
            (λ x h. ap (λ u. str_eq u p.cluster_uuid) (same_uuid x h))
          ∙ rw found (rw hit refl);
      pending = pending;
      name = name;
      url = url;
      site_ids = update-Unique ◌==◌ (λ x. x.id) q f d.sites (λ x h. id_kept x) w.site_ids;
      site_uuids = update-Unique str_eq (λ x. x.cluster_uuid) q f d.sites same_uuid w.site_uuids;
      site_ids_drawn =
          All-update (λ x. x.id < d.site_sequence) q f d.sites (λ x h b. rw (id_kept x) b)
            w.site_ids_drawn;
      tokens_placed =
          All-map (IsPlaced d.sites) (IsPlaced (update q f d.sites)) d.tokens
            (λ t h.
              ap (◌||◌ (is_null t.site_id)) (
                any-update (λ x. is_value t.site_id x.id) q f d.sites
                  (λ x hit. ap (is_value t.site_id) (id_kept x)))
              ∙ h)
            w.tokens_placed;
    }

  pub update-Placed :
      (r : SiteRow)
      → select (has_uuid p.cluster_uuid) d.sites ≡ r ∷ []
      → has_uuid p.cluster_uuid r ≡ true
      → is_live r ≡ true
      → Placed p d
          (update (has_uuid p.cluster_uuid) (as_pending p) d.sites)
          d.site_sequence
          (as_pending p r)
  update-Placed r found hit live =
      written-Placed (has_uuid p.cluster_uuid) (as_pending p) (λ x h. h) (λ x. refl) (λ x. refl) r
        found hit (rw live refl) refl refl

  pub revive-Placed :
      (r : SiteRow)
      → select (has_uuid p.cluster_uuid) d.sites ≡ r ∷ []
      → is_deleted_twin p.cluster_uuid r ≡ true
      → Placed p d
          (update (is_deleted_twin p.cluster_uuid) (as_revived p) d.sites)
          d.site_sequence
          (as_revived p r)
  revive-Placed r found hit =
      written-Placed (is_deleted_twin p.cluster_uuid) (as_revived p) (λ x h. ground arith)
        (λ x. refl) (λ x. refl) r found hit refl refl refl

  id_not_drawn :
      (n : ℕ) (rows : List SiteRow) → All (λ r. r.id < n) rows → any (λ r. r.id == n) rows ≡ false
  id_not_drawn n [] all = refl
  id_not_drawn n (r ∷ rows) all = ground (arith, id_not_drawn n rows all.1)

  pub insert-Placed :
      (now : ℕ)
      → any (has_uuid p.cluster_uuid) d.sites ≡ false
      → let row = with_details p (default_site d.site_sequence now) in
        Placed p d (d.sites ++ row ∷ []) (suc d.site_sequence) row
  insert-Placed now absent =
      let row = with_details p (default_site d.site_sequence now) in
      record {
        found =
            select-append (has_uuid p.cluster_uuid) d.sites (row ∷ [])
            ∙ rw (select_none (has_uuid p.cluster_uuid) d.sites absent)
                (rw (eq_refl p.cluster_uuid) refl);
        pending = refl;
        name = refl;
        url = refl;
        site_ids =
            append-Unique ◌==◌ (λ r. r.id) row d.sites ==_symm
              (id_not_drawn d.site_sequence d.sites w.site_ids_drawn) w.site_ids;
        site_uuids =
            append-Unique str_eq (λ r. r.cluster_uuid) row d.sites str_eq_symm absent w.site_uuids;
        site_ids_drawn =
            All-append (λ r. r.id < suc d.site_sequence) d.sites (row ∷ [])
              (All-map (λ r. r.id < d.site_sequence) (λ r. r.id < suc d.site_sequence) d.sites
                (λ r h. omega arith) w.site_ids_drawn)
              (omega arith, tt);
        tokens_placed =
            All-map (IsPlaced d.sites) (IsPlaced (d.sites ++ row ∷ [])) d.tokens
              (λ t h. append-IsPlaced t d.sites row h) w.tokens_placed;
      }
