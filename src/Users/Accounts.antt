-- ===== src/Users/Accounts.antt =====
-- What holds of the users after any sequence of requests.
use maas_site_manager.Common.{
  ℕ, suc, ◌<◌, ◌≡◌, refl, sym, subst, String, Bool, true, false, List, [], ◌∷◌, ◌++◌, ◌&&◌, not,
  ◌==◌, any, All, arith, Bool-cases, inl, inr, str_eq,
}
use maas_site_manager.Common.Result.{after}
use maas_site_manager.Common.Rows.{update, All-update, All-append, All-map, All-delete}
use maas_site_manager.Common.Unique.{Unique, update-Unique, delete-Unique, append-Unique}
use maas_site_manager.Users.Tables.{UserRow, Db, UserCreate, UserUpdate, is_value}
use maas_site_manager.Users.Service.{has_id, collides, new_user, is_taken, with_update}
use maas_site_manager.Users.Requests.{Request, handle, serve}
use maas_site_manager.Users.Renames.{written-Unique, update_absent, str_eq_symm}
use maas_site_manager.Users.Changes.{
  Change, kept, added, changed, changed_self, password_set, removed,
}
use maas_site_manager.Users.Admins.{has_admin, Change-has_admin}
use maas_site_manager.Users.Steps.{handle-Change}

-- Each of the unique columns is unique, and the ids were drawn from the sequence.
pub record IsWellFormed (d : Db) : Type 0 where
  pub ids : Unique ◌==◌ (λ (r : UserRow). r.id) d.users
  pub emails : Unique str_eq (λ (r : UserRow). r.email) d.users
  pub usernames : Unique str_eq (λ (r : UserRow). r.username) d.users
  pub auth_ids : Unique ◌==◌ (λ (r : UserRow). r.auth_id) d.users
  pub ids_drawn : All (λ r. r.id < d.user_sequence) d.users

drawn_apart :
    (n : ℕ) (rows : List UserRow) → All (λ r. r.id < n) rows → any (λ r. r.id == n) rows ≡ false
drawn_apart n [] h = refl
drawn_apart n (r ∷ rows) h = ground (arith, h.0, drawn_apart n rows h.1)

any_implied :
    (p q : UserRow → Bool) (rows : List UserRow)
    → ((r : UserRow) → q r ≡ true → p r ≡ true)
    → any p rows ≡ false
    → any q rows ≡ false
any_implied p q [] imp h = refl
any_implied p q (r ∷ rows) imp h = elim (Bool-cases (q r)) [
  | inl hit ↦ ground (arith, imp r)
  | inr miss ↦ ground (arith, any_implied p q rows imp)
]

update-IsWellFormed :
    (hash : String → String) (id : ℕ) (u : UserUpdate) (d : Db)
    → any (is_taken id u) d.users ≡ false
    → IsWellFormed d
    → IsWellFormed (record d { users = update (has_id id) (with_update hash u) d.users })
update-IsWellFormed hash id u d free w = record {
  ids =
      update-Unique ◌==◌ (λ (r : UserRow). r.id) (has_id id) (with_update hash u) d.users
        (λ r hit. refl) w.ids;
  emails =
      written-Unique (λ r. r.email) id (with_update hash u) u.email d.users w.ids w.emails
        (any_implied (is_taken id u) (λ y. not (y.id == id) && is_value u.email y.email) d.users
          (λ r h. ground arith) free)
        (λ r. refl);
  usernames =
      written-Unique (λ r. r.username) id (with_update hash u) u.username d.users w.ids w.usernames
        (any_implied (is_taken id u) (λ y. not (y.id == id) && is_value u.username y.username)
          d.users (λ r h. ground arith) free)
        (λ r. refl);
  auth_ids =
      update-Unique ◌==◌ (λ (r : UserRow). r.auth_id) (has_id id) (with_update hash u) d.users
        (λ r hit. refl) w.auth_ids;
  ids_drawn =
      All-update (λ r. r.id < d.user_sequence) (has_id id) (with_update hash u) d.users
        (λ r hit h. h) w.ids_drawn;
}

changed-IsWellFormed :
    (hash : String → String) (id : ℕ) (u : UserUpdate) (d : Db)
    → any (has_id id) d.users && any (is_taken id u) d.users ≡ false
    → IsWellFormed d
    → IsWellFormed (record d { users = update (has_id id) (with_update hash u) d.users })
changed-IsWellFormed hash id u d free w = elim (Bool-cases (any (has_id id) d.users)) [
  | inl there ↦ update-IsWellFormed hash id u d (ground arith) w
  | inr absent ↦
      subst (λ rows. IsWellFormed (record d { users = rows }))
        (sym (update_absent id (with_update hash u) d.users absent)) w
]

added-IsWellFormed :
    (hash : String → String) (auth_id : ℕ) (c : UserCreate) (d : Db)
    → any (collides c.email c.username auth_id) d.users ≡ false
    → IsWellFormed d
    → IsWellFormed (record d {
      users = d.users ++ new_user hash auth_id c d.user_sequence ∷ [];
      user_sequence = suc d.user_sequence;
    })
added-IsWellFormed hash auth_id c d free w =
    let new = new_user hash auth_id c d.user_sequence in
    let free_of =
      λ (q : UserRow → Bool)
          (imp : (r : UserRow) → q r ≡ true → collides c.email c.username auth_id r ≡ true).
        any_implied (collides c.email c.username auth_id) q d.users imp free in
    record {
      ids =
          append-Unique ◌==◌ (λ (r : UserRow). r.id) new d.users (λ k l. ground arith)
            (drawn_apart d.user_sequence d.users w.ids_drawn) w.ids;
      emails =
          append-Unique str_eq (λ (r : UserRow). r.email) new d.users str_eq_symm
            (free_of (λ r. str_eq r.email c.email) (λ r h. ground arith)) w.emails;
      usernames =
          append-Unique str_eq (λ (r : UserRow). r.username) new d.users str_eq_symm
            (free_of (λ r. str_eq r.username c.username) (λ r h. ground arith)) w.usernames;
      auth_ids =
          append-Unique ◌==◌ (λ (r : UserRow). r.auth_id) new d.users (λ k l. ground arith)
            (free_of (λ r. r.auth_id == auth_id) (λ r h. ground arith)) w.auth_ids;
      ids_drawn =
          All-append (λ r. r.id < suc d.user_sequence) d.users (new ∷ [])
            (All-map (λ r. r.id < d.user_sequence) (λ r. r.id < suc d.user_sequence) d.users
              (λ r h. omega arith) w.ids_drawn)
            (omega arith, tt);
    }

Change-IsWellFormed :
    (hash : String → String) (d e : Db) → Change hash d e → IsWellFormed d → IsWellFormed e
Change-IsWellFormed hash d e kept w = w
Change-IsWellFormed hash d e (added auth_id c free) w = added-IsWellFormed hash auth_id c d free w
Change-IsWellFormed hash d e (changed me id u adm fine free) w =
    changed-IsWellFormed hash id u d free w
Change-IsWellFormed hash d e (changed_self id u same free) w =
    changed-IsWellFormed hash id u d free w
Change-IsWellFormed hash d e (password_set id p) w =
    let f = λ (r : UserRow). record r { password = hash p } in
    record {
      ids = update-Unique ◌==◌ (λ (r : UserRow). r.id) (has_id id) f d.users (λ r hit. refl) w.ids;
      emails =
          update-Unique str_eq (λ (r : UserRow). r.email) (has_id id) f d.users (λ r hit. refl)
            w.emails;
      usernames =
          update-Unique str_eq (λ (r : UserRow). r.username) (has_id id) f d.users (λ r hit. refl)
            w.usernames;
      auth_ids =
          update-Unique ◌==◌ (λ (r : UserRow). r.auth_id) (has_id id) f d.users (λ r hit. refl)
            w.auth_ids;
      ids_drawn =
          All-update (λ r. r.id < d.user_sequence) (has_id id) f d.users (λ r hit h. h) w.ids_drawn;
    }
Change-IsWellFormed hash d e (removed me id adm other) w = record {
  ids = delete-Unique ◌==◌ (λ (r : UserRow). r.id) (has_id id) d.users w.ids;
  emails = delete-Unique str_eq (λ (r : UserRow). r.email) (has_id id) d.users w.emails;
  usernames = delete-Unique str_eq (λ (r : UserRow). r.username) (has_id id) d.users w.usernames;
  auth_ids = delete-Unique ◌==◌ (λ (r : UserRow). r.auth_id) (has_id id) d.users w.auth_ids;
  ids_drawn = All-delete (λ r. r.id < d.user_sequence) (has_id id) d.users w.ids_drawn;
}

module _ (hash : String → String) (verify : String → String → Bool) where
  -- In whatever order users make whatever requests, from a table with an administrator on there
  -- always is one: the only administrator can neither be demoted nor deleted.
  pub serve-has_admin :
      (rs : List Request) (d : Db) → has_admin d ≡ true → has_admin (serve hash verify rs d) ≡ true
  unfolding serve
  serve-has_admin [] d h = h
  serve-has_admin (r ∷ rs) d h =
      serve-has_admin rs (after (handle hash verify r) d)
        (Change-has_admin hash d (after (handle hash verify r) d) (handle-Change hash verify r d) h)

  -- The tables that requests lead to are well-formed if the first one is, since the columns are declared
  -- unique and the sequence only grows.
  serve-IsWellFormed :
      (rs : List Request) (d : Db) → IsWellFormed d → IsWellFormed (serve hash verify rs d)
  unfolding serve
  serve-IsWellFormed [] d w = w
  serve-IsWellFormed (r ∷ rs) d w = serve-IsWellFormed rs (after (handle hash verify r) d) (
      Change-IsWellFormed hash d (after (handle hash verify r) d) (handle-Change hash verify r d) w)
