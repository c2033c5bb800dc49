-- ===== src/Common/Unique.antt =====
-- Uniqueness of a column: what a table's unique constraint gives, and what keeps it.
use mathlib.Core.Path.{◌≡◌, refl, ap, subst, ◌∙◌}
use mathlib.Core.Logic.{◌⊎◌, inl, inr}
use mathlib.Core.Bool.{Bool, true, false}
use mathlib.Core.List.{List, [], ◌∷◌, ◌++◌}
use native.Mathlib.Omega.{arith}
use maas_site_manager.Common.Tests.{Bool-cases}
use maas_site_manager.Common.Lists.{select, any}
use maas_site_manager.Common.Rows.{update, delete, any-update, any-delete, any-append, select_none}

-- Uniqueness of a column, with its equality test.
module _ {A K : Type 0} (eq : K → K → Bool) (key : A → K) where
  abbrev pub Unique : List A → Type 0
  Unique [] = Unit
  Unique (x ∷ xs) = (any (λ y. eq (key y) (key x)) xs ≡ false) × Unique xs

module _ {A K : Type 0} (eq : K → K → Bool) (key : A → K) where
  -- Rewriting rows with that column kept keeps it unique.
  pub update-Unique :
      (p : A → Bool) (f : A → A) (xs : List A)
      → ((x : A) → p x ≡ true → key (f x) ≡ key x)
      → Unique eq key xs
      → Unique eq key (update p f xs)
  update-Unique p f [] h u = tt
  update-Unique p f (x ∷ xs) h u =
      let kept =
        λ (k : K). any-update (λ y. eq (key y) k) p f xs (λ y hit. ap (λ l. eq l k) (h y hit)) in
      elim (Bool-cases (p x)) [
        | inl hit ↦ rw (hit, h x hit) (kept (key x) ∙ u.0, update-Unique p f xs h u.1)
        | inr miss ↦ rw miss (kept (key x) ∙ u.0, update-Unique p f xs h u.1)
      ]

  pub delete-Unique : (p : A → Bool) (xs : List A) → Unique eq key xs → Unique eq key (delete p xs)
  delete-Unique p [] u = tt
  delete-Unique p (x ∷ xs) u = elim (Bool-cases (p x)) [
    | inl hit ↦ rw hit (delete-Unique p xs u.1)
    | inr miss ↦ rw miss (any-delete (λ y. eq (key y) (key x)) p xs u.0, delete-Unique p xs u.1)
  ]

  -- A new row whose key no row has.
  pub append-Unique :
      (x : A) (xs : List A)
      → ((k l : K) → eq k l ≡ eq l k)
      → any (λ y. eq (key y) (key x)) xs ≡ false
      → Unique eq key xs
      → Unique eq key (xs ++ x ∷ [])
  append-Unique x [] symm h u = ground arith
  append-Unique x (y ∷ xs) symm h u = elim (Bool-cases (eq (key y) (key x))) [
    | inl hit ↦ ground arith
    | inr miss ↦
        let rest = any-append (λ z. eq (key z) (key y)) xs (x ∷ []) in
        (ground (arith, rest, symm (key x) (key y)), append-Unique x xs symm (ground arith) u.1)
  ]

  -- At most one row has a given key.
  pub select-Unique :
      (k : K) (xs : List A)
      → ((j l : K) → eq j k ≡ true → eq l j ≡ eq l k)
      → Unique eq key xs
      → (select (λ y. eq (key y) k) xs ≡ [])
        ⊎ ((x : A) × (select (λ y. eq (key y) k) xs ≡ x ∷ []) × (eq (key x) k ≡ true))
  select-Unique k [] same u = inl refl
  select-Unique k (x ∷ xs) same u = elim (Bool-cases (eq (key x) k)) [
    | inl hit ↦
        let others = select_none (λ y. eq (key y) k) xs (rw (← any-same x hit xs) u.0) in
        inr (x, rw (hit, others) refl, hit)
    | inr miss ↦ rw miss (select-Unique k xs same u.1)
  ]
    where
      any-same :
          (y : A)
          → eq (key y) k ≡ true
          → (zs : List A) → any (λ z. eq (key z) (key y)) zs ≡ any (λ z. eq (key z) k) zs
      any-same y hit [] = refl
      any-same y hit (z ∷ zs) = ground (arith, any-same y hit zs, same (key y) (key z) hit)

module _ {A : Type 0} where
  any_of_select :
      (p q : A → Bool) (x : A) (xs : List A) → any p xs ≡ false → select q xs ≡ x ∷ [] → p x ≡ false
  any_of_select p q x [] none_passes h = cc
  any_of_select p q x (y ∷ xs) none_passes h = elim (Bool-cases (q y)) [
    | inl hit ↦ ground arith
    | inr miss ↦ ground (arith, any_of_select p q x xs)
  ]

module _ {A K : Type 0} (eq : K → K → Bool) (key : A → K) where
  -- The one row that a test finds is the one row of its key.
  pub select_key :
      (q : A → Bool) (x : A) (xs : List A)
      → ((k l : K) → eq k l ≡ eq l k)
      → ((k : K) → eq k k ≡ true)
      → Unique eq key xs
      → select q xs ≡ x ∷ []
      → select (λ y. eq (key y) (key x)) xs ≡ x ∷ []
  select_key q x [] symm same u h = cc
  select_key q x (y ∷ xs) symm same u h = elim (Bool-cases (q y)) [
    | inl hit ↦
        let head : y ≡ x = ground arith in
        subst (λ z. select (λ v. eq (key v) (key z)) (y ∷ xs) ≡ z ∷ []) head
          (rw (same (key y)) (rw (select_none (λ z. eq (key z) (key y)) xs u.0) refl))
    | inr miss ↦
        let rest : select q xs ≡ x ∷ [] = ground arith in
        let apart = any_of_select (λ z. eq (key z) (key y)) q x xs u.0 rest in
        rw (symm (key y) (key x)) (rw apart (select_key q x xs symm same u.1 rest))
  ]
