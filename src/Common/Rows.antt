-- ===== src/Common/Rows.antt =====
-- Tables as lists of rows. A `where` clause is a Boolean test; `select` keeps the rows that pass,
-- `update` rewrites them in place, `delete` drops them.
use mathlib.Core.Path.{◌≡◌, refl}
use mathlib.Core.Logic.{inl, inr}
use mathlib.Core.Bool.{Bool, true, false, ◌&&◌, ◌||◌}
use mathlib.Core.List.{List, [], ◌∷◌, ◌++◌}
use native.Mathlib.Omega.{arith}
use maas_site_manager.Common.Tests.{if◌then◌else◌, Bool-cases}
use maas_site_manager.Common.Lists.{select, any, first, All}
use mathlib.Core.Option.{Option, none, some}

module _ {A : Type 0} where
  abbrev pub update : (A → Bool) → (A → A) → List A → List A
  update p f [] = []
  update p f (x ∷ xs) = (if p x then f x else x) ∷ update p f xs

  abbrev pub delete : (A → Bool) → List A → List A
  delete p [] = []
  delete p (x ∷ xs) = let rest = delete p xs in if p x then rest else x ∷ rest

  -- A write that does not change how a row answers `q` can be made after selecting by `q`.
  pub select-update :
      (q p : A → Bool) (f : A → A) (xs : List A)
      → ((x : A) → p x ≡ true → q (f x) ≡ q x)
      → select q (update p f xs) ≡ update p f (select q xs)
  select-update q p f [] h = refl
  select-update q p f (x ∷ xs) h = elim (Bool-cases (p x)) [
    | inl hit ↦ ground (arith, h x hit, select-update q p f xs h)
    | inr miss ↦ ground (arith, select-update q p f xs h)
  ]

  pub any-update :
      (q p : A → Bool) (f : A → A) (xs : List A)
      → ((x : A) → p x ≡ true → q (f x) ≡ q x)
      → any q (update p f xs) ≡ any q xs
  any-update q p f [] h = refl
  any-update q p f (x ∷ xs) h = elim (Bool-cases (p x)) [
    | inl hit ↦ ground (arith, h x hit, any-update q p f xs h)
    | inr miss ↦ ground (arith, any-update q p f xs h)
  ]

  pub select-and :
      (p q : A → Bool) (xs : List A) → select (λ x. p x && q x) xs ≡ select q (select p xs)
  select-and p q [] = refl
  select-and p q (x ∷ xs) = ground (arith, select-and p q xs)

  pub select-and_swap :
      (p q : A → Bool) (xs : List A) → select (λ x. p x && q x) xs ≡ select p (select q xs)
  select-and_swap p q [] = refl
  select-and_swap p q (x ∷ xs) = ground (arith, select-and_swap p q xs)

  pub any-select : (q : A → Bool) (xs : List A) → any q xs ≡ any (λ x. true) (select q xs)
  any-select q [] = refl
  any-select q (x ∷ xs) = ground (arith, any-select q xs)

  pub any-and : (p q : A → Bool) (xs : List A) → any (λ x. p x && q x) xs ≡ any p (select q xs)
  any-and p q [] = refl
  any-and p q (x ∷ xs) = ground (arith, any-and p q xs)

  pub any-and_swap : (p q : A → Bool) (xs : List A) → any (λ x. q x && p x) xs ≡ any p (select q xs)
  any-and_swap p q [] = refl
  any-and_swap p q (x ∷ xs) = ground (arith, any-and_swap p q xs)

  pub any_never : (xs : List A) → any (λ x. false) xs ≡ false
  any_never [] = refl
  any_never (x ∷ xs) = any_never xs

  pub any-or : (p q : A → Bool) (xs : List A) → any (λ x. p x || q x) xs ≡ (any p xs || any q xs)
  any-or p q [] = refl
  any-or p q (x ∷ xs) = ground (arith, any-or p q xs)

  pub any-delete_self : (p : A → Bool) (xs : List A) → any p (delete p xs) ≡ false
  any-delete_self p [] = refl
  any-delete_self p (x ∷ xs) = ground (arith, any-delete_self p xs)

  pub delete-delete :
      (p q : A → Bool) (xs : List A) → delete p (delete q xs) ≡ delete (λ x. q x || p x) xs
  delete-delete p q [] = refl
  delete-delete p q (x ∷ xs) = ground (arith, delete-delete p q xs)

  -- Tests that agree on every row delete the same rows.
  delete-congr : (p q : A → Bool) (xs : List A) → ((x : A) → p x ≡ q x) → delete p xs ≡ delete q xs
  delete-congr p q [] h = refl
  delete-congr p q (x ∷ xs) h = ground (arith, h x, delete-congr p q xs h)

  pub delete_none : (p : A → Bool) (xs : List A) → any p xs ≡ false → delete p xs ≡ xs
  delete_none p [] h = refl
  delete_none p (x ∷ xs) h = ground (arith, delete_none p xs)

  pub select-append :
      (q : A → Bool) (xs ys : List A) → select q (xs ++ ys) ≡ select q xs ++ select q ys
  select-append q [] ys = refl
  select-append q (x ∷ xs) ys = ground (arith, select-append q xs ys)

  pub any-append : (q : A → Bool) (xs ys : List A) → any q (xs ++ ys) ≡ (any q xs || any q ys)
  any-append q [] ys = refl
  any-append q (x ∷ xs) ys = ground (arith, any-append q xs ys)

  pub select_none : (q : A → Bool) (xs : List A) → any q xs ≡ false → select q xs ≡ []
  select_none q [] h = refl
  select_none q (x ∷ xs) h = ground (arith, select_none q xs)

  pub any-delete : (q p : A → Bool) (xs : List A) → any q xs ≡ false → any q (delete p xs) ≡ false
  any-delete q p [] h = refl
  any-delete q p (x ∷ xs) h = ground (arith, any-delete q p xs)

  pub All-update {κ} :
      (P : A → Type κ) (p : A → Bool) (f : A → A) (xs : List A)
      → ((x : A) → p x ≡ true → P x → P (f x))
      → All P xs
      → All P (update p f xs)
  All-update P p f [] h all = tt
  All-update P p f (x ∷ xs) h all = elim (Bool-cases (p x)) [
    | inl hit ↦ rw hit (h x hit all.0, All-update P p f xs h all.1)
    | inr miss ↦ rw miss (all.0, All-update P p f xs h all.1)
  ]

  pub All-append {κ} : (P : A → Type κ) (xs ys : List A) → All P xs → All P ys → All P (xs ++ ys)
  All-append P [] ys hx hy = hy
  All-append P (x ∷ xs) ys hx hy = (hx.0, All-append P xs ys hx.1 hy)

  pub All-map {κ λ'} :
      (P : A → Type κ) (Q : A → Type λ') (xs : List A) → ((x : A) → P x → Q x) → All P xs → All Q xs
  All-map P Q [] h all = tt
  All-map P Q (x ∷ xs) h all = (h x all.0, All-map P Q xs h all.1)

  pub All-delete {κ} :
      (P : A → Type κ) (p : A → Bool) (xs : List A) → All P xs → All P (delete p xs)
  All-delete P p [] all = tt
  All-delete P p (x ∷ xs) all = elim (Bool-cases (p x)) [
    | inl hit ↦ rw hit (All-delete P p xs all.1)
    | inr miss ↦ rw miss (all.0, All-delete P p xs all.1)
  ]

  -- A write that keeps the rows apart does not touch the others.
  pub delete-update :
      (p : A → Bool) (f : A → A) (xs : List A)
      → ((x : A) → p (f x) ≡ p x)
      → delete p (update p f xs) ≡ delete p xs
  delete-update p f [] h = refl
  delete-update p f (x ∷ xs) h = elim (Bool-cases (p x)) [
    | inl hit ↦ ground (arith, h x, delete-update p f xs h)
    | inr miss ↦ ground (arith, delete-update p f xs h)
  ]

  abbrev pub or_first : Option A → Option A → Option A
  or_first (some x) o = some x
  or_first none o = o

  pub first-append :
      (q : A → Bool) (xs ys : List A) → first q (xs ++ ys) ≡ or_first (first q xs) (first q ys)
  first-append q [] ys = refl
  first-append q (x ∷ xs) ys = ground (arith, first-append q xs ys)

  abbrev pub is_some : Option A → Bool
  is_some none = false
  is_some (some x) = true

  pub any-first : (q : A → Bool) (xs : List A) → any q xs ≡ is_some (first q xs)
  any-first q [] = refl
  any-first q (x ∷ xs) = ground (arith, any-first q xs)
