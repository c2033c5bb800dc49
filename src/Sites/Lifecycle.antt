-- ===== src/Sites/Lifecycle.antt =====
-- The enrolment of one site, from its first request to its access token: the handlers `post` and
-- `get` of site/handlers/enroll.py, with `post_pending` of user/handlers/sites.py between them.
use maas_site_manager.Common.{
  ℕ, ◌+◌, ◌*◌, String, ◌≡◌, refl, ap, sym, subst, fun_ext, ◌∙◌, inl, inr, true, false, ◌&&◌, none,
  some, [], ◌∷◌, ◌++◌, ◌==◌, select, any, arith, Bool-cases,
}
use maas_site_manager.Common.Result.{ok, raise, unauthorized, ◌>>=◌}
use maas_site_manager.Common.Rows.{update, any-and, select-and, select-and_swap, select-update}
use maas_site_manager.Common.Unique.{select_key}
use maas_site_manager.Sites.Tables.{SiteRow, TokenRow, Db}
use maas_site_manager.Sites.Tokens.{Sign, member, token_rows}
use maas_site_manager.Sites.Service.{
  has_uuid, is_live, is_pending, join_sites, joined, get_enrolling, accept_reject_pending,
}
use maas_site_manager.Sites.Handlers.{
  EnrollPostRequest, Settings, access_grant, answer, enroll, enroll_status,
}
use maas_site_manager.Sites.Invariant.{IsWellFormed, select_auth_id, ==_symm}
use maas_site_manager.Sites.Enrolment.Claims.{placed_on}
use maas_site_manager.Sites.Enrolment.{may_enrol, enroll_succeeds, enroll_refused}

usable_row :
    (auth_id now : ℕ) (d : Db)
    → IsWellFormed d
    → any (λ u. may_enrol now u && (u.auth_id == auth_id)) d.tokens ≡ true
    → (t : TokenRow) × (select (λ u. u.auth_id == auth_id) d.tokens ≡ t ∷ [])
      × (may_enrol now t ≡ true)
usable_row auth_id now d w usable =
    let one = any-and (may_enrol now) (λ u. u.auth_id == auth_id) d.tokens in
    elim (select_auth_id auth_id d.tokens w.auth_ids) [
      | inl absent ↦ cc (one, usable, ap (any (may_enrol now)) absent)
      | inr (t, own, hit) ↦
          let yes_ : any (may_enrol now) (t ∷ []) ≡ true = rw own at (sym one ∙ usable) in
          (t, own, ground arith)
    ]

-- In well-formed tables, a token that has enrolled a site is refused from then on, whatever the
-- second request says and whenever it comes.
pub enroll_once :
    (auth_id now later : ℕ) (request again : EnrollPostRequest) (d e : Db)
    → IsWellFormed d
    → enroll auth_id now request d ≡ ok (tt, e)
    → enroll auth_id later again e ≡ raise unauthorized
enroll_once auth_id now later request again d e w done =
    elim (Bool-cases (any (λ u. may_enrol now u && (u.auth_id == auth_id)) d.tokens)) [
      | inr unusable ↦ cc (enroll_refused auth_id now request d w unusable)
      | inl usable ↦
          let (t, own, may) = usable_row auth_id now d w usable in
          let (e', done', w', h) = enroll_succeeds auth_id now request d w t own may in
          subst (λ x. enroll auth_id later again x ≡ raise unauthorized) (cc)
            (enroll_refused auth_id later again e' w' (
              any-and (may_enrol later) (λ u. u.auth_id == auth_id) e'.tokens
              ∙ rw h.token (ground arith)))
    ]

module _ (auth_id : ℕ) (row : SiteRow) (u : TokenRow) (d : Db)
    (own : select (λ t. t.auth_id == auth_id) d.tokens ≡ u ∷ []) (on : u.site_id ≡ some row.id)
    (at_id : select (λ r. r.id == row.id) d.sites ≡ row ∷ []) (live : is_live row ≡ true) where
  -- The site that a token stands on is found by it, unless the site is deleted.
  joined_row : joined d auth_id ≡ row ∷ []
  unfolding join_sites
  joined_row = rw own (
      rw on (
        rw (select-and_swap is_live (λ r. row.id == r.id) d.sites)
          (rw (fun_ext (λ (r : SiteRow). ==_symm row.id r.id)) (rw at_id (rw live refl)))))

  status_answer :
      (sign : Sign) (settings : Settings) (now fresh : ℕ)
      → enroll_status sign settings auth_id now fresh d
        ≡ answer sign settings now fresh (some row) d
  unfolding enroll_status get_enrolling
  status_answer sign settings now fresh = rw (joined_row, ◌>>=◌) refl

abbrev accepted_row : SiteRow → SiteRow
accepted_row r = record r { accepted = true }

abbrev accepted_db : ℕ → Db → Db
accepted_db i d = record d { sites = update (λ r. member r.id (i ∷ [])) accepted_row d.sites }

member_one : (i : ℕ) (r : SiteRow) → member r.id (i ∷ []) ≡ (r.id == i)
member_one i r = ground arith

==_refl : (k : ℕ) → (k == k) ≡ true
==_refl k = ground arith

pending_live : (r : SiteRow) → is_pending r ≡ true → is_live r ≡ true
pending_live r h = ground arith

pending_unaccepted : (r : SiteRow) → is_pending r ≡ true → r.accepted ≡ false
pending_unaccepted r h = ground arith

-- Accepting one pending site.
accept_one :
    (now : ℕ) (row : SiteRow) (d : Db)
    → select (λ r. r.id == row.id) d.sites ≡ row ∷ []
    → is_pending row ≡ true
    → accept_reject_pending (row.id ∷ []) true now d ≡ ok (tt, accepted_db row.id d)
unfolding accept_reject_pending
accept_one now row d at_id pending = rw chosen (rw (==_refl row.id) refl)
  where
    chosen : select (λ r. member r.id (row.id ∷ []) && is_pending r) d.sites ≡ row ∷ []
    chosen =
        select-and (λ r. member r.id (row.id ∷ [])) is_pending d.sites
        ∙ rw (fun_ext (member_one row.id)) (rw at_id (rw pending refl))

at_id-accepted :
    (row : SiteRow) (d : Db)
    → select (λ r. r.id == row.id) d.sites ≡ row ∷ []
    → select (λ r. r.id == row.id) (accepted_db row.id d).sites ≡ accepted_row row ∷ []
at_id-accepted row d at_id =
    select-update (λ r. r.id == row.id) (λ r. member r.id (row.id ∷ [])) accepted_row d.sites
      (λ r h. refl)
    ∙ rw at_id (rw (==_refl row.id) refl)

-- The token that `get` of an accepted site creates.
abbrev pub issued : Sign → Settings → ℕ → ℕ → ℕ → String
issued sign settings now fresh i =
    sign (access_grant settings i) fresh now
      (now + settings.token_lifetime_minutes * settings.minute)

answer_accepted :
    (sign : Sign) (settings : Settings) (now fresh : ℕ) (row : SiteRow) (d : Db)
    → row.accepted ≡ true
    → (g : Db) × (answer sign settings now fresh (some row) d
        ≡ ok (
          some (record {
            access_token = issued sign settings now fresh row.id;
            rotation_interval_minutes = settings.token_rotation_interval_minutes;
          }),
          g,
        ))
unfolding enroll_status
answer_accepted sign settings now fresh row d acc = (
  record d {
    tokens =
        d.tokens
        ++ token_rows sign (access_grant settings row.id) now d.token_sequence (fresh ∷ []);
    token_sequence = d.token_sequence + 1;
  },
  rw acc refl,
)

-- In well-formed tables, a token that may enrol takes its site through: the request leaves a
-- pending site, asking for the status answers nothing and changes nothing, accepting that one site
-- succeeds, and asking again then answers with an access token for that site.
pub enrolment_lifecycle :
    (sign : Sign) (settings : Settings) (auth_id now fresh : ℕ) (request : EnrollPostRequest)
    (d : Db)
    → IsWellFormed d
    → any (λ u. may_enrol now u && (u.auth_id == auth_id)) d.tokens ≡ true
    → (e : Db) × (i : ℕ) × (f : Db) × (g : Db) × (enroll auth_id now request d ≡ ok (tt, e))
      × (enroll_status sign settings auth_id now fresh e ≡ ok (none, e))
      × (accept_reject_pending (i ∷ []) true now e ≡ ok (tt, f))
      × (enroll_status sign settings auth_id now fresh f
          ≡ ok (
            some (record {
              access_token = issued sign settings now fresh i;
              rotation_interval_minutes = settings.token_rotation_interval_minutes;
            }),
            g,
          ))
enrolment_lifecycle sign settings auth_id now fresh request d w usable =
    let (t, own, may) = usable_row auth_id now d w usable in
    let (e, done, w', h) = enroll_succeeds auth_id now request d w t own may in
    let row = h.row in
    let at_id =
      select_key ◌==◌ (λ (r : SiteRow). r.id) (has_uuid request.cluster_uuid) row e.sites ==_symm
        ==_refl w'.site_ids h.found in
    let live : is_live row ≡ true = pending_live row h.pending in
    let f = accepted_db row.id e in
    let at_id' = at_id-accepted row e at_id in
    let (g, answered) = answer_accepted sign settings now fresh (accepted_row row) f refl in
    (
      e,
      row.id,
      f,
      g,
      done,
      status_answer auth_id row (placed_on row.id t) e h.token refl at_id live sign settings now
            fresh
          ∙ rw (pending_unaccepted row h.pending) refl,
      accept_one now row e at_id h.pending,
      status_answer auth_id (accepted_row row) (placed_on row.id t) f h.token refl at_id' live sign
            settings now fresh
          ∙ answered,
    )
