-- ===== src/Users/Outcomes.antt =====
-- The answers of the handlers that create and change users, on every branch.
use maas_site_manager.Common.{
  ℕ, suc, ◌≡◌, refl, ap, sym, ◌∙◌, String, Bool, true, false, none, some, List, [], ◌∷◌, ◌++◌, ◌&&◌,
  ◌||◌, ◌==◌, select, any, arith, if◌then◌else◌, Bool-cases, inl, inr, str_eq,
}
use maas_site_manager.Common.Result.{ok, raise, bad_request, forbidden, programming_error, ◌>>=◌}
use maas_site_manager.Common.Rows.{update, select-update, any-select}
use maas_site_manager.Users.Tables.{UserRow, Db, UserCreate, UserUpdate}
use maas_site_manager.Users.Service.{
  has_id, collides, new_user, with_update, create, exists, id_exists, update_user, sets_nothing,
}
use maas_site_manager.Users.Handlers.{is_false, post, patch}
use maas_site_manager.Users.Conflicts.{is_blank, conflicts, reported_lem}

not_taken :
    (c : UserCreate) (auth_id : ℕ) (rows : List UserRow)
    → any (conflicts none (some c.email) (some c.username)) rows ≡ false
    → any (λ r. r.auth_id == auth_id) rows ≡ false
    → any (collides c.email c.username auth_id) rows ≡ false
not_taken c auth_id [] h fresh = refl
not_taken c auth_id (r ∷ rows) h fresh = ground (arith, not_taken c auth_id rows)

-- With an email and a username that are not empty and a fresh authentication id, the creation of a user
-- is refused exactly if a user has the email or the username; otherwise the user is added, with the
-- next id and the hash of the password, and no constraint of the table is violated.
pub post_lem :
    (hash : String → String) (auth_id : ℕ) (c : UserCreate) (d : Db)
    → str_eq c.email "" ≡ false
    → str_eq c.username "" ≡ false
    → any (λ r. r.auth_id == auth_id) d.users ≡ false
    → post hash auth_id c d ≡ (
        if any (λ r. str_eq r.email c.email || str_eq r.username c.username) d.users
        then raise bad_request
        else ok (
          new_user hash auth_id c d.user_sequence,
          record d {
            users = d.users ++ new_user hash auth_id c d.user_sequence ∷ [];
            user_sequence = suc d.user_sequence;
          },
        ))
unfolding post exists create
post_lem hash auth_id c d email_given name_given fresh =
    let details =
      reported_lem (some c.email) (some c.username) none d.users email_given name_given in
    elim (Bool-cases (any (conflicts none (some c.email) (some c.username)) d.users)) [
      | inl conflict ↦ rw (details ∙ conflict, ◌>>=◌) (rw conflict refl)
      | inr new ↦
          rw (details ∙ new, ◌>>=◌) (rw (new, not_taken c auth_id d.users new fresh, ◌>>=◌) refl)
    ]

pub select_hit :
    (p : UserRow → Bool) (x : UserRow) (rows : List UserRow) → select p rows ≡ x ∷ [] → p x ≡ true
select_hit p x [] h = cc
select_hit p x (r ∷ rows) h = elim (Bool-cases (p r)) [
  | inl hit ↦ (let head : r ≡ x = ground arith in ap p (sym head) ∙ hit)
  | inr miss ↦ select_hit p x rows (ground arith)
]

-- The one row with the id, after a write that keeps the ids.
pub select-written :
    (id : ℕ) (f : UserRow → UserRow) (x : UserRow) (rows : List UserRow)
    → ((r : UserRow) → (f r).id ≡ r.id)
    → select (has_id id) rows ≡ x ∷ []
    → select (has_id id) (update (has_id id) f rows) ≡ f x ∷ []
select-written id f x rows keeps found =
    select-update (has_id id) (has_id id) f rows (λ r hit. ap (λ k. k == id) (keeps r))
    ∙ ap (update (has_id id) f) found
    ∙ rw (select_hit (has_id id) x rows found) refl

-- For a user that exists, and an email and a username that are not empty where they are given, the
-- change of an administrator is forbidden exactly if it takes the administrator's own role; else it
-- is refused exactly if another user has the email or the username; else the database refuses it
-- exactly if it sets nothing; otherwise it is made, and the answer is the row as it is then.
pub patch_lem :
    (hash : String → String) (me : UserRow) (id : ℕ) (u : UserUpdate) (x : UserRow) (d : Db)
    → is_blank u.email ≡ false
    → is_blank u.username ≡ false
    → select (has_id id) d.users ≡ x ∷ []
    → patch hash me id u d ≡ (
        if (id == me.id) && is_false u.is_admin
        then raise forbidden
        else if any (conflicts (some id) u.email u.username) d.users
        then raise bad_request
        else if sets_nothing u
        then raise programming_error
        else ok (
          with_update hash u x,
          record d { users = update (has_id id) (with_update hash u) d.users },
        ))
unfolding patch exists id_exists update_user
patch_lem hash me id u x d email_given name_given found =
    let there = any-select (has_id id) d.users ∙ ap (any (λ (r : UserRow). true)) found in
    let details = reported_lem u.email u.username (some id) d.users email_given name_given in
    elim (Bool-cases ((id == me.id) && is_false u.is_admin)) [
      | inl demoted ↦ rw (demoted, ◌>>=◌) refl
      | inr fine ↦ elim (Bool-cases (any (conflicts (some id) u.email u.username) d.users)) [
        | inl conflict ↦
            rw (fine, ◌>>=◌) (rw (there, ◌>>=◌) (rw (details ∙ conflict, ◌>>=◌) (rw conflict refl)))
        | inr new ↦ elim (Bool-cases (sets_nothing u)) [
          | inl empty ↦
              rw (fine, ◌>>=◌)
                (rw (there, ◌>>=◌) (rw (details ∙ new, ◌>>=◌) (rw (new, empty, ◌>>=◌) refl)))
          | inr given ↦
              rw (fine, ◌>>=◌)
                (rw (there, ◌>>=◌)
                  (rw (details ∙ new, ◌>>=◌)
                    (rw (new, given, there, ◌>>=◌)
                      (rw (new, ◌>>=◌)
                        (rw (select-written id (with_update hash u) x d.users (λ r. refl) found)
                          refl)))))
        ]
      ]
    ]
