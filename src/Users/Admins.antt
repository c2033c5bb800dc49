-- ===== src/Users/Admins.antt =====
-- Administrators through the changes of Users/Changes.
use maas_site_manager.Common.{
  ℕ, ◌≡◌, refl, String, Bool, true, false, Option, none, some, List, [], ◌∷◌, ◌==◌, any, arith,
  Bool-cases, inl, inr,
}
use maas_site_manager.Common.Rows.{update, All-update, All-append, All-map, All-delete, any-append}
use maas_site_manager.Common.Rows
use maas_site_manager.Users.Tables.{UserRow, Db}
use maas_site_manager.Users.Service.{has_id, new_user, with_update, value_or}
use maas_site_manager.Users.Handlers.{is_false}
use maas_site_manager.Users.Changes.{
  Change, kept, added, changed, changed_self, password_set, removed, is_admin_with,
}

abbrev pub has_admin : Db → Bool
has_admin d = any (λ r. r.is_admin) d.users

-- A write to a row keeps whether there is an admin if it keeps the row's admin flag, or if there is
-- an admin elsewhere.
admin_elsewhere :
    (me : ℕ) (p : UserRow → Bool) (f : UserRow → UserRow) (rows : List UserRow)
    → any (is_admin_with me) rows ≡ true
    → ((r : UserRow) → p r ≡ true → is_admin_with me r ≡ true → (f r).is_admin ≡ true)
    → any (λ r. r.is_admin) (update p f rows) ≡ true
admin_elsewhere me p f [] h keep = h
admin_elsewhere me p f (r ∷ rows) h keep = elim (Bool-cases (is_admin_with me r)) [
  | inl adm ↦ elim (Bool-cases (p r)) [
    | inl hit ↦ ground (arith, keep r hit adm)
    | inr miss ↦ ground arith
  ]
  | inr other ↦ ground (arith, admin_elsewhere me p f rows)
]

admin_kept :
    (p : UserRow → Bool) (f : UserRow → UserRow) (rows : List UserRow)
    → ((r : UserRow) → (f r).is_admin ≡ r.is_admin)
    → any (λ r. r.is_admin) rows ≡ true
    → any (λ r. r.is_admin) (update p f rows) ≡ true
admin_kept p f [] keep h = h
admin_kept p f (r ∷ rows) keep h = elim (Bool-cases (p r)) [
  | inl hit ↦ ground (arith, keep r, admin_kept p f rows keep)
  | inr miss ↦ ground (arith, admin_kept p f rows keep)
]

admin_left :
    (me id : ℕ) (rows : List UserRow)
    → (me == id) ≡ false
    → any (is_admin_with me) rows ≡ true
    → any (λ r. r.is_admin) (Rows.delete (has_id id) rows) ≡ true
admin_left me id [] apart h = h
admin_left me id (r ∷ rows) apart h = ground (arith, admin_left me id rows)

stays : (o : Option Bool) (b : Bool) → is_false o ≡ false → b ≡ true → value_or o b ≡ true
stays none b h same = same
stays (some c) b h same = ground arith

pub Change-has_admin :
    (hash : String → String) (d e : Db) → Change hash d e → has_admin d ≡ true → has_admin e ≡ true
Change-has_admin hash d e kept h = h
Change-has_admin hash d e (added auth_id c free) h =
    rw (any-append (λ r. r.is_admin) d.users (new_user hash auth_id c d.user_sequence ∷ []))
      (ground arith)
Change-has_admin hash d e (changed me id u adm fine free) h =
    admin_elsewhere me (has_id id) (with_update hash u) d.users adm
      (λ r hit a. stays u.is_admin r.is_admin (ground arith) (ground arith))
Change-has_admin hash d e (changed_self id u same free) h =
    admin_kept (has_id id) (with_update hash u) d.users (λ r. rw same refl) h
Change-has_admin hash d e (password_set id p) h =
    admin_kept (has_id id) (λ r. record r { password = hash p }) d.users (λ r. refl) h
Change-has_admin hash d e (removed me id adm other) h = admin_left me id d.users other adm
