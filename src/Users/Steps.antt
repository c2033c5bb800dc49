-- ===== src/Users/Steps.antt =====
-- The handlers of user/handlers/users.py against the relation of Users/Changes.
use maas_site_manager.Common.{
  ℕ, ◌≡◌, ◌⊎◌, refl, sym, ◌∙◌, subst, String, Bool, true, false, Option, none, some, List, [], ◌∷◌,
  ◌&&◌, ◌==◌, select, any, if◌then◌else◌, Bool-cases, inl, inr,
}
use maas_site_manager.Common.Result.{
  Error, Result, Tx, ok, raise, after, ◌>>◌, pure, bad_request, integrity_error, programming_error,
  one, one_or_none, multiple_rows_found, fail, ◌>>=◌,
}
use maas_site_manager.Common.Rows.{update}
use maas_site_manager.Users.Tables.{UserRow, Db, UserCreate, UserUpdate, UsersPatchMeRequest}
use maas_site_manager.Users.Service.{
  has_id, collides, insert_user, is_taken, with_update, user_filter, is_other, reported, create,
  exists, id_exists, update_user, sets_nothing, delete_user, update_password, get_by_email,
  has_email, password_matches, stored_password,
}
use maas_site_manager.Users.Handlers.{
  authenticate_user, matching, is_false, post, patch, patch_me, patch_me_password, delete,
  has_details, self_update,
}
use maas_site_manager.Users.Requests.{
  Request, post_user, patch_user, patch_self, patch_password, handle,
}
use maas_site_manager.Users.Requests
use maas_site_manager.Users.Changes.{
  Change, kept, added, changed, changed_self, password_set, removed, is_admin_with, one-cases,
  Change-raise_if, by_user, by_admin,
}

pub read-cases :
    (l : List UserRow) (d : Db)
    → ((o : Option UserRow) × (one_or_none l d ≡ ok (o, d)))
      ⊎ ((e : Error) × (one_or_none l d ≡ raise e))
read-cases [] d = inl (none, refl)
read-cases (x ∷ []) d = inl (some x, refl)
read-cases (x ∷ y ∷ l) d = inr (multiple_rows_found, refl)

module _ (verify : String → String → Bool) where
  matching-cases :
      (p : String) (o : Option UserRow) (d : Db)
      → ((q : Option UserRow) × (matching verify p o d ≡ ok (q, d)))
        ⊎ ((e : Error) × (matching verify p o d ≡ raise e))
  unfolding password_matches
  matching-cases p none d = inl (none, refl)
  matching-cases p (some r) d = elim (read-cases (select (has_id r.id) d.users) d) [
    | inl (o, found) ↦ inl (
      (if elim (stored_password o) [ none ↦ false | some h ↦ verify p h ] then some r else none),
      rw (found, ◌>>=◌) refl,
    )
    | inr (e, failed) ↦ inr (e, rw (failed, ◌>>=◌) refl)
  ]

  -- A failed or successful authentication changes nothing.
  authenticate-cases :
      (e p : String) (d : Db)
      → ((q : Option UserRow) × (authenticate_user verify e p d ≡ ok (q, d)))
        ⊎ ((x : Error) × (authenticate_user verify e p d ≡ raise x))
  unfolding authenticate_user get_by_email
  authenticate-cases e p d = elim (read-cases (select (has_email e) d.users) d) [
    | inl (o, found) ↦ elim (matching-cases p o d) [
      | inl (q, done) ↦ inl (q, rw (found, ◌>>=◌) done)
      | inr (x, failed) ↦ inr (x, rw (found, ◌>>=◌) failed)
    ]
    | inr (x, failed) ↦ inr (x, rw (failed, ◌>>=◌) refl)
  ]

module _ (hash : String → String) where
  abbrev updated : ℕ → UserUpdate → Db → Db
  updated id u d = record d { users = update (has_id id) (with_update hash u) d.users }

  update-ok :
      (id : ℕ) (u : UserUpdate) (d : Db)
      → sets_nothing u ≡ false
      → any (has_id id) d.users && any (is_taken id u) d.users ≡ false
      → update_user hash id u d
        ≡ one
            (select (has_id id) (update (has_id id) (with_update hash u) d.users))
            (updated id u d)
  unfolding update_user
  update-ok id u d given free = rw (given, ◌>>=◌) (rw (free, ◌>>=◌) refl)

  update-raise :
      (id : ℕ) (u : UserUpdate) (d : Db)
      → sets_nothing u ≡ false
      → any (has_id id) d.users && any (is_taken id u) d.users ≡ true
      → update_user hash id u d ≡ raise integrity_error
  unfolding update_user
  update-raise id u d given taken = rw (given, ◌>>=◌) (rw (taken, ◌>>=◌) refl)

  update_nothing :
      (id : ℕ) (u : UserUpdate) (d : Db)
      → sets_nothing u ≡ true
      → update_user hash id u d ≡ raise programming_error
  unfolding update_user
  update_nothing id u d empty = rw (empty, ◌>>=◌) refl

  Change-update :
      (id : ℕ) (u : UserUpdate) (d : Db)
      → (any (has_id id) d.users && any (is_taken id u) d.users ≡ false
          → Change hash d (updated id u d))
      → Change hash d (after (update_user hash id u) d)
  Change-update id u d h = elim (Bool-cases (sets_nothing u)) [
    | inl empty ↦ rw (update_nothing id u d empty, after) kept
    | inr given ↦ elim (Bool-cases (any (has_id id) d.users && any (is_taken id u) d.users)) [
      | inl taken ↦ rw (update-raise id u d given taken, after) kept
      | inr free ↦
          elim (one-cases (select (has_id id) (update (has_id id) (with_update hash u) d.users))
            (updated id u d)) [
              | inl (x, done) ↦ rw (update-ok id u d given free ∙ done, after) (h free)
              | inr (e, failed) ↦ rw (update-ok id u d given free ∙ failed, after) kept
            ]
    ]
  ]

  Change-create :
      (auth_id : ℕ) (c : UserCreate) (d : Db) → Change hash d (after (create hash auth_id c) d)
  unfolding create
  Change-create auth_id c d =
      Change-raise_if hash (any (collides c.email c.username auth_id) d.users) integrity_error
        (insert_user hash auth_id c) d (λ free. added auth_id c free)

  -- The result of a request is not read.
  Change-pure :
      {A : Type 0} (m : Tx Db A) (d : Db)
      → Change hash d (after m d)
      → Change hash d (after (m >>= λ a. pure tt) d)
  Change-pure {A = A} m d h = subst (Change hash d) (sym (dropped (m d))) h
    where
      dropped :
          (r : Result (A × Db))
          → elim (elim r as (λ x. Result (Unit × Db)) [
            | ok (a, e) ↦ ok (tt, e)
            | raise e ↦ raise e
          ])
              as (λ x. Db) [ ok (a, e) ↦ e | raise e ↦ d ]
            ≡ elim r as (λ x. Db) [ ok (a, e) ↦ e | raise e ↦ d ]
      dropped (ok (a, e)) = refl
      dropped (raise e) = refl

  Change-post :
      (auth_id : ℕ) (c : UserCreate) (d : Db) → Change hash d (after (post hash auth_id c) d)
  unfolding post exists
  Change-post auth_id c d =
      Change-raise_if hash
        (has_details (
          reported (some c.email) (some c.username) (
            select (λ r. user_filter (some c.email) (some c.username) r && is_other none r)
              d.users)))
        bad_request (create hash auth_id c) d (λ new. Change-create auth_id c d)

  Change-patch :
      (me : UserRow) (id : ℕ) (u : UserUpdate) (d : Db)
      → any (is_admin_with me.id) d.users ≡ true
      → Change hash d (after (patch hash me id u) d)
  unfolding patch exists id_exists
  Change-patch me id u d adm = elim (Bool-cases ((id == me.id) && is_false u.is_admin)) [
    | inl demoted ↦ rw (demoted, after, ◌>>=◌) kept
    | inr fine ↦ elim (Bool-cases (any (has_id id) d.users)) [
      | inr absent ↦ rw (fine, after, ◌>>=◌) (rw (absent, ◌>>=◌) kept)
      | inl there ↦
          elim (Bool-cases (
            has_details (
              reported u.email u.username (
                select (λ r. user_filter u.email u.username r && is_other (some id) r) d.users)))) [
                  | inl conflict ↦
                      rw (fine, after, ◌>>=◌) (rw (there, ◌>>=◌) (rw (conflict, ◌>>=◌) kept))
                  | inr new ↦
                      rw (fine, after, ◌>>=◌)
                        (rw (there, ◌>>=◌)
                          (rw (new, ◌>>=◌)
                            (Change-update id u d (λ free. changed me.id id u adm fine free))))
                ]
    ]
  ]

  Change-patch_me :
      (me : UserRow) (p : UsersPatchMeRequest) (d : Db)
      → Change hash d (after (patch_me hash me p) d)
  unfolding patch_me exists
  Change-patch_me me p d =
      Change-raise_if hash
        (has_details (
          reported p.email p.username
            (select (λ r. user_filter p.email p.username r && is_other (some me.id) r) d.users)))
        bad_request (update_user hash me.id (self_update p)) d
        (λ new.
          Change-update me.id (self_update p) d
            (λ free. changed_self me.id (self_update p) refl free))

  Change-delete :
      (me : UserRow) (id : ℕ) (d : Db)
      → any (is_admin_with me.id) d.users ≡ true
      → Change hash d (after (delete me id) d)
  unfolding delete delete_user
  Change-delete me id d adm =
      Change-raise_if hash (me.id == id) bad_request (delete_user id) d
        (λ other. removed me.id id adm other)

  password_outcome :
      (me : UserRow) (new : String) (q : Option UserRow) (d : Db)
      → Change hash d (
          after {A = Unit}
            (elim q as (λ x. Tx Db Unit) [
              | none ↦ fail bad_request
              | some r ↦ update_password hash me.id new
            ])
            d)
  unfolding update_password
  password_outcome me new none d = kept
  password_outcome me new (some r) d = password_set me.id new

  Change-patch_me_password :
      (verify : String → String → Bool) (me : UserRow) (current new : String) (d : Db)
      → Change hash d (after (patch_me_password hash verify me current new) d)
  unfolding patch_me_password
  Change-patch_me_password verify me current new d =
      elim (authenticate-cases verify me.email current d) [
        | inl (q, done) ↦ rw (done, after, ◌>>=◌) (password_outcome me new q d)
        | inr (e, failed) ↦ rw (failed, after, ◌>>=◌) kept
      ]

  pub handle-Change :
      (verify : String → String → Bool) (r : Request) (d : Db)
      → Change hash d (after (handle hash verify r) d)
  unfolding handle
  handle-Change verify (post_user who auth_id c) d =
      by_admin hash who (λ me. post hash auth_id c >> pure tt) d
        (λ me adm. Change-pure (post hash auth_id c) d (Change-post auth_id c d))
  handle-Change verify (patch_user who id u) d =
      by_admin hash who (λ me. patch hash me id u >> pure tt) d
        (λ me adm. Change-pure (patch hash me id u) d (Change-patch me id u d adm))
  handle-Change verify (patch_self who p) d =
      by_user hash who (λ me. patch_me hash me p >> pure tt) d
        (λ me. Change-pure (patch_me hash me p) d (Change-patch_me me p d))
  handle-Change verify (patch_password who current new) d =
      by_user hash who (λ me. patch_me_password hash verify me current new) d
        (λ me. Change-patch_me_password verify me current new d)
  handle-Change verify (Requests.delete_user who id) d =
      by_admin hash who (λ me. delete me id) d (λ me adm. Change-delete me id d adm)
