-- ===== src/Sites/Tests.antt =====
-- Enrolment on small tables.
use maas_site_manager.Common.{ℕ, ◌≡◌, refl, select, true, none, some, [], ◌∷◌, arith}
use maas_site_manager.Common.Result.{ok, raise, unauthorized, invalid_pending_sites}
use maas_site_manager.Sites.Tables.{site, enrolment, SiteRow, TokenRow, Db}
use maas_site_manager.Sites.Tokens.{Sign}
use maas_site_manager.Sites.Service.{accept_reject_pending, default_site, is_pending}
use maas_site_manager.Sites.Handlers.{EnrollPostRequest, Settings, enroll, enroll_status}
use maas_site_manager.Sites.Decisions.{decided, accept_reject_pending_lem}
use maas_site_manager.Sites.Invariant.{IsWellFormed}
use maas_site_manager.Sites.Enrolment.{Enrolled, enroll_succeeds, enroll_refused}
use maas_site_manager.Sites.Lifecycle.{issued, enroll_once, enrolment_lifecycle}

abbrev token : TokenRow
token = record {
  id = 1;
  value = "t";
  audience = site;
  purpose = enrolment;
  auth_id = 77;
  site_id = none;
  expired = 100;
  created = 0;
}

abbrev old_site : SiteRow
old_site = record (default_site 1 0) { name = "old"; cluster_uuid = "u1"; deleted = some 5 }

abbrev db : Db
db = record {
  sites = old_site ∷ [];
  tokens = token ∷ [];
  site_data = [];
  site_sequence = 2;
  token_sequence = 2;
  site_data_sequence = 1;
}

abbrev request : EnrollPostRequest
request = record { name = "north"; url = "http://north"; cluster_uuid = "u1"; metadata = none }

db-IsWellFormed : IsWellFormed db
db-IsWellFormed = record {
  site_ids = (refl, tt);
  site_uuids = (refl, tt);
  site_ids_drawn = (omega arith, tt);
  auth_ids = (refl, tt);
  tokens_placed = (refl, tt);
}

abbrev sign : Sign
sign grant auth_id now expired = "signed"

abbrev settings : Settings
settings = record { token_lifetime_minutes = 10; token_rotation_interval_minutes = 5; minute = 60 }

enroll_succeeds_example :
    (e : Db) × (enroll 77 50 request db ≡ ok (tt, e)) × IsWellFormed e × Enrolled 77 request token e
enroll_succeeds_example = enroll_succeeds 77 50 request db db-IsWellFormed token refl refl

enroll_refused_example : enroll 77 101 request db ≡ raise unauthorized
enroll_refused_example = enroll_refused 77 101 request db db-IsWellFormed refl

enroll_once_example :
    let e = (enroll_succeeds 77 50 request db db-IsWellFormed token refl refl).0 in
    enroll 77 60 request e ≡ raise unauthorized
enroll_once_example =
    enroll_once 77 50 60 request request db
      (enroll_succeeds 77 50 request db db-IsWellFormed token refl refl).0 db-IsWellFormed
      (enroll_succeeds 77 50 request db db-IsWellFormed token refl refl).1

enrolment_lifecycle_example :
    (e : Db) × (i : ℕ) × (f : Db) × (g : Db) × (enroll 77 50 request db ≡ ok (tt, e))
    × (enroll_status sign settings 77 50 99 e ≡ ok (none, e))
    × (accept_reject_pending (i ∷ []) true 50 e ≡ ok (tt, f))
    × (enroll_status sign settings 77 50 99 f
        ≡ ok (
          some (record {
            access_token = issued sign settings 50 99 i;
            rotation_interval_minutes = 5;
          }),
          g,
        ))
enrolment_lifecycle_example =
    enrolment_lifecycle sign settings 77 50 99 request db db-IsWellFormed refl

abbrev waiting : Db
waiting = record db { sites = default_site 3 0 ∷ default_site 4 0 ∷ [] }

accept_reject_pending_lem_example :
    (accept_reject_pending (4 ∷ 5 ∷ []) true 9 waiting ≡ raise (invalid_pending_sites (5 ∷ [])))
    × (select is_pending (decided (4 ∷ 5 ∷ []) true 9 waiting).sites ≡ default_site 3 0 ∷ [])
accept_reject_pending_lem_example = accept_reject_pending_lem (4 ∷ 5 ∷ []) true 9 waiting
