-- ===== src/Users/Renames.antt =====
-- Writing one row's value of a unique column.
use maas_site_manager.Common.{
  ℕ, ◌≡◌, refl, String, true, false, Option, none, some, List, [], ◌∷◌, ◌&&◌, not, ◌==◌, any, arith,
  Bool-cases, inl, inr, str_eq, eq_iff,
}
use maas_site_manager.Common.Rows.{update}
use maas_site_manager.Common.Unique.{Unique, update-Unique}
use maas_site_manager.Users.Tables.{UserRow, is_value}
use maas_site_manager.Users.Service.{has_id, value_or}

pub str_eq_symm : (k l : String) → str_eq k l ≡ str_eq l k
str_eq_symm k l = ground (arith, eq_iff k l, eq_iff l k)

pub update_absent :
    (id : ℕ) (f : UserRow → UserRow) (rows : List UserRow)
    → any (has_id id) rows ≡ false
    → update (has_id id) f rows ≡ rows
update_absent id f [] h = refl
update_absent id f (r ∷ rows) h = ground (arith, update_absent id f rows)

module _ (key : UserRow → String) (id : ℕ) (f : UserRow → UserRow) where
  others_free :
      (k : String) (r : UserRow) (rows : List UserRow)
      → (r.id == id) ≡ true
      → any (λ y. y.id == r.id) rows ≡ false
      → any (λ y. not (y.id == id) && str_eq (key y) k) rows ≡ false
      → any (λ y. str_eq (key y) k) rows ≡ false
  others_free k r [] same apart free = refl
  others_free k r (y ∷ rows) same apart free = ground (arith, others_free k r rows)

  absent_id :
      (r : UserRow) (rows : List UserRow)
      → (r.id == id) ≡ true
      → any (λ y. y.id == r.id) rows ≡ false
      → any (λ y. y.id == id) rows ≡ false
  absent_id r [] same apart = refl
  absent_id r (y ∷ rows) same apart = ground (arith, absent_id r rows)

  still_absent :
      (k l : String) (rows : List UserRow)
      → ((r : UserRow) → key (f r) ≡ k)
      → str_eq k l ≡ false
      → any (λ y. str_eq (key y) l) rows ≡ false
      → any (λ y. str_eq (key y) l) (update (has_id id) f rows) ≡ false
  still_absent k l [] named apart h = refl
  still_absent k l (r ∷ rows) named apart h = elim (Bool-cases (has_id id r)) [
    | inl hit ↦ rw (hit, named r) (rw apart (still_absent k l rows named apart (ground arith)))
    | inr miss ↦ ground (arith, still_absent k l rows named apart)
  ]

  renamed-Unique :
      (k : String) (rows : List UserRow)
      → Unique ◌==◌ (λ (r : UserRow). r.id) rows
      → Unique str_eq key rows
      → any (λ y. not (y.id == id) && str_eq (key y) k) rows ≡ false
      → ((r : UserRow) → key (f r) ≡ k)
      → Unique str_eq key (update (has_id id) f rows)
  renamed-Unique k [] ids u free named = tt
  renamed-Unique k (r ∷ rows) ids u free named = elim (Bool-cases (has_id id r)) [
    | inl hit ↦
        rw (update_absent id f rows (absent_id r rows hit ids.0), hit)
          (rw (named r) (others_free k r rows hit ids.0 (ground arith)), u.1)
    | inr miss ↦ rw miss (
      still_absent k (key r) rows named (ground (arith, str_eq_symm k (key r))) u.0,
      renamed-Unique k rows ids.1 u.1 (ground arith) named,
    )
  ]

  -- The column is written, with a value that no other row has, or it is not.
  pub written-Unique :
      (o : Option String) (rows : List UserRow)
      → Unique ◌==◌ (λ (r : UserRow). r.id) rows
      → Unique str_eq key rows
      → any (λ y. not (y.id == id) && is_value o (key y)) rows ≡ false
      → ((r : UserRow) → key (f r) ≡ value_or o (key r))
      → Unique str_eq key (update (has_id id) f rows)
  written-Unique none rows ids u free named =
      update-Unique str_eq key (has_id id) f rows (λ r hit. named r) u
  written-Unique (some k) rows ids u free named = renamed-Unique k rows ids u free named
