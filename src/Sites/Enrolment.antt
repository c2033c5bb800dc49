-- ===== src/Sites/Enrolment.antt =====
-- `post` of backend/msm/apiserver/site/handlers/enroll.py: which requests enrol a site, what a
-- successful one leaves in the tables, and that a token enrols once.
pub mod Claims
mod Rows
mod Outcome
use maas_site_manager.Common.{
  ℕ, String, ◌≡◌, refl, ap, sym, ◌∙◌, ◌⊎◌, inl, inr, Bool, true, false, not, ◌&&◌, ◌||◌, Option,
  none, some, List, [], ◌∷◌, ◌==◌, if◌then◌else◌, select, any, arith, Bool-cases, ltb, All,
}
use maas_site_manager.Common.Result.{Result, ok, raise, unauthorized, ◌>>=◌, one_or_none}
use maas_site_manager.Common.Rows.{select-and, any-and}
use maas_site_manager.Sites.Tables.{
  site, enrolment, audience_eq, purpose_eq, SiteRow, TokenRow, Db, is_null, is_expired,
}
use maas_site_manager.Sites.Tokens
use maas_site_manager.Sites.Service.{has_uuid, is_pending, create_or_update_pending}
use maas_site_manager.Sites.Handlers.{EnrollPostRequest, pending_site, is_refused, enroll}
use maas_site_manager.Sites.Invariant.{IsWellFormed, IsPlaced, select_auth_id}
use Claims.{placed_on, select-claimed, claimed-UniqueAuthIds, claimed-IsPlaced}
use Rows.{Placed}
use Outcome.{Enrols, enrolled, create_or_update_pending-Enrols}

abbrev is_enrolment : TokenRow → Bool
is_enrolment t = audience_eq t.audience site && purpose_eq t.purpose enrolment

-- The token's row may enrol a site at this time: a site's enrolment token, on no site, not expired.
abbrev pub may_enrol : ℕ → TokenRow → Bool
may_enrol now t = is_enrolment t && (is_null t.site_id && not (ltb t.expired now))

-- The site of the request is pending, it is the only one of its UUID, and the token stands on it.
pub record Enrolled (auth_id : ℕ) (request : EnrollPostRequest) (t : TokenRow) (e : Db)
    : Type 0 where
  pub row : SiteRow
  pub found : select (has_uuid request.cluster_uuid) e.sites ≡ row ∷ []
  pub pending : is_pending row ≡ true
  pub name : row.name ≡ request.name
  pub url : row.url ≡ request.url
  pub token : select (λ u. u.auth_id == auth_id) e.tokens ≡ placed_on row.id t ∷ []

any_id :
    (row : SiteRow) (uuid : String) (sites : List SiteRow)
    → select (has_uuid uuid) sites ≡ row ∷ []
    → any (λ r. row.id == r.id) sites ≡ true
any_id row uuid [] h = cc
any_id row uuid (r ∷ sites) h = elim (Bool-cases (has_uuid uuid r)) [
  | inl hit ↦ ground arith
  | inr miss ↦ ground (arith, any_id row uuid sites)
]

module _ (auth_id now : ℕ) (request : EnrollPostRequest) (d : Db) (w : IsWellFormed d) where
  enrolled-IsWellFormed :
      (sites : List SiteRow) (sequence : ℕ) (row : SiteRow)
      → Placed (pending_site request auth_id) d sites sequence row
      → IsWellFormed (enrolled d sites sequence row auth_id)
  enrolled-IsWellFormed sites sequence row h = record {
    site_ids = h.site_ids;
    site_uuids = h.site_uuids;
    site_ids_drawn = h.site_ids_drawn;
    auth_ids = claimed-UniqueAuthIds row.id auth_id d.tokens w.auth_ids;
    tokens_placed =
        claimed-IsPlaced row.id auth_id sites d.tokens
          (any_id row request.cluster_uuid sites h.found) h.tokens_placed;
  }

  token_lookup :
      Tokens.get_by_auth_id auth_id site enrolment d
      ≡ one_or_none (select is_enrolment (select (λ u. u.auth_id == auth_id) d.tokens)) d
  unfolding Tokens.get_by_auth_id
  token_lookup = rw (select-and (λ u. u.auth_id == auth_id) is_enrolment d.tokens) refl

  -- In well-formed tables, a request with a token that may enrol succeeds: the tables stay
  -- well-formed, the site of its UUID is the only one, pending and with the name and address of the
  -- request, and the token stands on that site.
  pub enroll_succeeds :
      (t : TokenRow)
      → select (λ u. u.auth_id == auth_id) d.tokens ≡ t ∷ []
      → may_enrol now t ≡ true
      → (e : Db) × (enroll auth_id now request d ≡ ok (tt, e))
        × IsWellFormed e
        × Enrolled auth_id request t e
  unfolding enroll
  enroll_succeeds t own may =
      let p = pending_site request auth_id in
      let free : is_null t.site_id ≡ true = ground arith in
      let kind : is_enrolment t ≡ true = ground arith in
      let fresh : is_refused (some t) now ≡ false = ground arith in
      let h = create_or_update_pending-Enrols p now d w t own free in
      let found : Tokens.get_by_auth_id auth_id site enrolment d ≡ ok (some t, d) =
        token_lookup ∙ rw own (rw kind refl) in
      (
        enrolled d h.sites h.sequence h.row auth_id,
        rw (found, ◌>>=◌) (rw (fresh, ◌>>=◌) (rw (h.answered, ◌>>=◌) refl)),
        enrolled-IsWellFormed h.sites h.sequence h.row h.placed,
        record {
          row = h.row;
          found = h.placed.found;
          pending = h.placed.pending;
          name = h.placed.name;
          url = h.placed.url;
          token = select-claimed h.row.id auth_id d t own free (own_id t own);
        },
      )
    where
      own_id :
          (u : TokenRow)
          → select (λ v. v.auth_id == auth_id) d.tokens ≡ u ∷ []
          → (u.auth_id == auth_id) ≡ true
      own_id u e = elim (select_auth_id auth_id d.tokens w.auth_ids) [
        | inl absent ↦ ground arith
        | inr (v, other, hit) ↦ ground arith
      ]

  -- In well-formed tables, a request is refused if no row of its token may enrol.
  pub enroll_refused :
      any (λ u. may_enrol now u && (u.auth_id == auth_id)) d.tokens ≡ false
      → enroll auth_id now request d ≡ raise unauthorized
  unfolding enroll
  enroll_refused unusable =
      let usable = any-and (may_enrol now) (λ u. u.auth_id == auth_id) d.tokens in
      elim (select_auth_id auth_id d.tokens w.auth_ids) [
        | inl absent ↦ rw (token_lookup, ◌>>=◌) (rw (absent, ◌>>=◌) refl)
        | inr (t, own, hit) ↦
            let no : any (may_enrol now) (t ∷ []) ≡ false = rw own at (sym usable ∙ unusable) in
            rw (token_lookup, ◌>>=◌) (rw (own, ◌>>=◌) (ground arith))
      ]
