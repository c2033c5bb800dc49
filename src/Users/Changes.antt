-- ===== src/Users/Changes.antt =====
-- What one request may do to the users, as a relation.
use maas_site_manager.Common.{
  ℕ, suc, ◌≡◌, ◌⊎◌, refl, ap, sym, ◌∙◌, subst, String, Bool, true, false, none, some, List, [], ◌∷◌,
  ◌++◌, ◌&&◌, not, ◌==◌, select, any, arith, if◌then◌else◌, Bool-cases, inl, inr,
}
use maas_site_manager.Common.Result.{
  Error, Tx, ok, raise, after, raise_if, ◌>>◌, pure, forbidden, one, one_or_none, unauthorized,
  multiple_rows_found, no_row_found, ◌>>=◌,
}
use maas_site_manager.Common.Rows.{update}
use maas_site_manager.Common.Rows
use maas_site_manager.Users.Tables.{UserRow, Db, UserCreate, UserUpdate}
use maas_site_manager.Users.Service.{
  has_id, collides, new_user, is_taken, with_update, get_by_auth_id,
}
use maas_site_manager.Users.Handlers.{authenticated_user, authenticated_admin, is_false}

abbrev pub is_admin_with : ℕ → UserRow → Bool
is_admin_with me r = has_id me r && r.is_admin

pub data Change (hash : String → String) (d : Db) : Db → Type 0 where
  kept : Change hash d d
  added :
      (auth_id : ℕ) (c : UserCreate)
      → any (collides c.email c.username auth_id) d.users ≡ false
      → Change hash d (record d {
        users = d.users ++ new_user hash auth_id c d.user_sequence ∷ [];
        user_sequence = suc d.user_sequence;
      })
  changed :
      (me id : ℕ) (u : UserUpdate)
      → any (is_admin_with me) d.users ≡ true
      → ((id == me) && is_false u.is_admin) ≡ false
      → any (has_id id) d.users && any (is_taken id u) d.users ≡ false
      → Change hash d (record d { users = update (has_id id) (with_update hash u) d.users })
  changed_self :
      (id : ℕ) (u : UserUpdate)
      → u.is_admin ≡ none
      → any (has_id id) d.users && any (is_taken id u) d.users ≡ false
      → Change hash d (record d { users = update (has_id id) (with_update hash u) d.users })
  password_set :
      (id : ℕ) (p : String)
      → Change hash d
          (record d { users = update (has_id id) (λ r. record r { password = hash p }) d.users })
  removed :
      (me id : ℕ)
      → any (is_admin_with me) d.users ≡ true
      → (me == id) ≡ false
      → Change hash d (record d { users = Rows.delete (has_id id) d.users })

one_or_none-cases :
    (l : List UserRow) (d : Db)
    → (one_or_none l d ≡ ok (none, d))
      ⊎ (((x : UserRow) × (l ≡ x ∷ []) × (one_or_none l d ≡ ok (some x, d)))
          ⊎ ((e : Error) × (one_or_none l d ≡ raise e)))
one_or_none-cases [] d = inl refl
one_or_none-cases (x ∷ []) d = inr (inl (x, refl, refl))
one_or_none-cases (x ∷ y ∷ l) d = inr (inr (multiple_rows_found, refl))

pub one-cases :
    (l : List UserRow) (d : Db)
    → ((x : UserRow) × (one l d ≡ ok (x, d))) ⊎ ((e : Error) × (one l d ≡ raise e))
one-cases [] d = inr (no_row_found, refl)
one-cases (x ∷ []) d = inl (x, refl)
one-cases (x ∷ y ∷ l) d = inr (multiple_rows_found, refl)

pub user-cases :
    (who : ℕ) (d : Db)
    → ((me : UserRow) × (select (λ r. r.auth_id == who) d.users ≡ me ∷ [])
        × (authenticated_user who d ≡ ok (me, d)))
      ⊎ ((e : Error) × (authenticated_user who d ≡ raise e))
unfolding authenticated_user get_by_auth_id
user-cases who d = elim (one_or_none-cases (select (λ r. r.auth_id == who) d.users) d) [
  | inl absent ↦ inr (unauthorized, rw (absent, ◌>>=◌) refl)
  | inr (inl (me, row, found)) ↦ inl (me, row, rw (found, ◌>>=◌) refl)
  | inr (inr (e, failed)) ↦ inr (e, rw (failed, ◌>>=◌) refl)
]

module _ {A B : Type 0} where
  pub after-raise :
      (m : Tx Db A) (f : A → Tx Db B) (d : Db) (e : Error) → m d ≡ raise e → after (m >>= f) d ≡ d
  after-raise m f d e h = rw (h, ◌>>=◌, after) refl

  pub after-ok :
      (m : Tx Db A) (f : A → Tx Db B) (d : Db) (a : A)
      → m d ≡ ok (a, d)
      → after (m >>= f) d ≡ after (f a) d
  after-ok m f d a h = rw (h, ◌>>=◌, after) refl

admin_row :
    (who : ℕ) (me : UserRow) (users : List UserRow)
    → select (λ r. r.auth_id == who) users ≡ me ∷ []
    → me.is_admin ≡ true
    → any (is_admin_with me.id) users ≡ true
admin_row who me [] h adm = cc
admin_row who me (r ∷ users) h adm = elim (Bool-cases (r.auth_id == who)) [
  | inl hit ↦
      let same : r ≡ me = ground arith in
      subst (λ x. any (is_admin_with x.id) (r ∷ users) ≡ true) same
        (let adm_r : r.is_admin ≡ true = ap (λ x. x.is_admin) same ∙ adm in ground arith)
  | inr miss ↦ ground (arith, admin_row who me users)
]

admin_check :
    (b : Bool) (me : UserRow) (d : Db)
    → (raise_if (not b) forbidden >> pure me) d ≡ (if b then ok (me, d) else raise forbidden)
admin_check true me d = refl
admin_check false me d = refl

admin_lem :
    (who : ℕ) (me : UserRow) (d : Db)
    → authenticated_user who d ≡ ok (me, d)
    → authenticated_admin who d ≡ (if me.is_admin then ok (me, d) else raise forbidden)
unfolding authenticated_admin
admin_lem who me d found = rw (found, ◌>>=◌) (admin_check me.is_admin me d)

admin-raise :
    (who : ℕ) (d : Db) (e : Error)
    → authenticated_user who d ≡ raise e
    → authenticated_admin who d ≡ raise e
unfolding authenticated_admin
admin-raise who d e failed = rw (failed, ◌>>=◌) refl

module _ {B : Type 0} (hash : String → String) where
  pub Change-raise_if :
      (b : Bool) (e : Error) (k : Tx Db B) (d : Db)
      → (b ≡ false → Change hash d (after k d))
      → Change hash d (after (raise_if b e >> k) d)
  Change-raise_if true e k d h = kept
  Change-raise_if false e k d h = h refl

  pub by_user :
      (who : ℕ) (f : UserRow → Tx Db B) (d : Db)
      → ((me : UserRow) → Change hash d (after (f me) d))
      → Change hash d (after (authenticated_user who >>= f) d)
  by_user who f d h = elim (user-cases who d) [
    | inl (me, row, found) ↦
        subst (Change hash d) (sym (after-ok (authenticated_user who) f d me found)) (h me)
    | inr (e, failed) ↦
        subst (Change hash d) (sym (after-raise (authenticated_user who) f d e failed)) kept
  ]

  pub by_admin :
      (who : ℕ) (f : UserRow → Tx Db B) (d : Db)
      → ((me : UserRow) → any (is_admin_with me.id) d.users ≡ true → Change hash d (after (f me) d))
      → Change hash d (after (authenticated_admin who >>= f) d)
  by_admin who f d h = elim (user-cases who d) [
    | inl (me, row, found) ↦ elim (Bool-cases me.is_admin) [
      | inl adm ↦
          let run =
            admin_lem who me d found ∙ ap (λ b. if b then ok (me, d) else raise forbidden) adm in
          subst (Change hash d) (sym (after-ok (authenticated_admin who) f d me run))
            (h me (admin_row who me d.users row adm))
      | inr plain ↦
          let run =
            admin_lem who me d found ∙ ap (λ b. if b then ok (me, d) else raise forbidden) plain in
          subst (Change hash d) (sym (after-raise (authenticated_admin who) f d forbidden run)) kept
    ]
    | inr (e, failed) ↦
        subst (Change hash d)
          (sym (after-raise (authenticated_admin who) f d e (admin-raise who d e failed))) kept
  ]
