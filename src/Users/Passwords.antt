-- ===== src/Users/Passwords.antt =====
-- Changing a password.
use maas_site_manager.Common.{
  ℕ, ◌≡◌, refl, ap, ◌∙◌, String, Bool, true, none, some, List, [], ◌∷◌, ◌==◌, select, arith,
  if◌then◌else◌, Bool-cases, inl, inr,
}
use maas_site_manager.Common.Result.{ok, raise, bad_request, ◌>>=◌}
use maas_site_manager.Common.Rows.{update, select-update}
use maas_site_manager.Common.Unique.{select_key}
use maas_site_manager.Users.Tables.{UserRow, Db}
use maas_site_manager.Users.Service.{
  has_id, has_email, get_by_email, update_password, password_matches,
}
use maas_site_manager.Users.Handlers.{authenticate_user, patch_me_password}
use maas_site_manager.Users.Accounts.{IsWellFormed}

-- The one user of an email is authenticated exactly by a password that its hash verifies.
authenticate_lem :
    (verify : String → String → Bool) (e p : String) (x : UserRow) (d : Db)
    → select (has_email e) d.users ≡ x ∷ []
    → select (has_id x.id) d.users ≡ x ∷ []
    → authenticate_user verify e p d ≡ ok (if verify p x.password then some x else none, d)
unfolding authenticate_user get_by_email password_matches
authenticate_lem verify e p x d by_email by_id = rw (by_email, ◌>>=◌) (rw (by_id, ◌>>=◌) refl)

-- The write goes to the one row.
written_row :
    (q : UserRow → Bool) (f : UserRow → UserRow) (x : UserRow) (rows : List UserRow)
    → ((r : UserRow) → q (f r) ≡ q r)
    → select q rows ≡ x ∷ []
    → select q (update (has_id x.id) f rows) ≡ f x ∷ []
written_row q f x rows keeps found =
    select-update q (has_id x.id) f rows (λ r hit. keeps r)
    ∙ ap (update (has_id x.id) f) found
    ∙ (let same : (x.id == x.id) ≡ true = ground arith in rw same refl)

abbrev pub with_password : (String → String) → ℕ → String → Db → Db
with_password hash id p d = record d {
  users = update (has_id id) (λ r. record r { password = hash p }) d.users;
}

-- In well-formed tables, and for a hash that verifies the password that it was made of, a user
-- changes the own password exactly with the current one: otherwise the request is refused, and
-- with it the new password authenticates the user from then on.
pub patch_me_password_lem :
    (hash : String → String) (verify : String → String → Bool) (me : UserRow) (current new : String)
    (d : Db)
    → IsWellFormed d
    → verify new (hash new) ≡ true
    → select (has_email me.email) d.users ≡ me ∷ []
    → (patch_me_password hash verify me current new d ≡ (
        if verify current me.password
        then ok (tt, with_password hash me.id new d)
        else raise bad_request))
      × (authenticate_user verify me.email new (with_password hash me.id new d)
          ≡ ok (some (record me { password = hash new }), with_password hash me.id new d))
unfolding patch_me_password update_password
patch_me_password_lem hash verify me current new d w verifies by_email =
    let f = λ (r : UserRow). record r { password = hash new } in
    let e = record d { users = update (has_id me.id) f d.users } in
    let by_id =
      select_key ◌==◌ (λ (r : UserRow). r.id) (has_email me.email) me d.users (λ k l. ground arith)
        (λ k. ground arith) w.ids by_email in
    let again =
      authenticate_lem verify me.email new (f me) e
        (written_row (has_email me.email) f me d.users (λ r. refl) by_email)
        (written_row (has_id me.id) f me d.users (λ r. refl) by_id) in
    (
      rw (authenticate_lem verify me.email current me d by_email by_id, ◌>>=◌)
          (elim (Bool-cases (verify current me.password)) [
            | inl right ↦ rw right refl
            | inr wrong ↦ rw wrong refl
          ]),
      rw (again, verifies) refl,
    )
