-- ===== src/Common/Sorts.antt =====
-- Sorting, stable, by a Boolean order, and the order of texts by their code points.
use Prim.Native.Nat.{Ordering}
use Prim.Native.String.{String, compare}
use mathlib.Core.Path.{◌≡◌, refl}
use mathlib.Core.Logic.{inl, inr}
use mathlib.Core.Bool.{Bool, true, false, ◌||◌}
use mathlib.Core.List.{List, [], ◌∷◌}
use native.Mathlib.Omega.{arith}
use text.Mathlib.Text.{◌==◌ as str_eq}
use maas_site_manager.Common.Tests.{if◌then◌else◌, Bool-cases}
use maas_site_manager.Common.Lists.{select, any}

abbrev before : Ordering → Bool
before Ordering.lt = true
before Ordering.eq = false
before Ordering.gt = false

abbrev pub str_le : String → String → Bool
str_le s t = str_eq s t || before (compare s t)

module _ {A : Type 0} (le : A → A → Bool) where
  abbrev pub insert : A → List A → List A
  insert x [] = x ∷ []
  insert x (y ∷ l) = let rest = insert x l in if le x y then x ∷ y ∷ l else y ∷ rest

  abbrev pub sort : List A → List A
  sort [] = []
  sort (x ∷ l) = insert x (sort l)

  any-insert : (p : A → Bool) (x : A) (l : List A) → any p (insert x l) ≡ (p x || any p l)
  any-insert p x [] = ground arith
  any-insert p x (y ∷ l) = ground (arith, any-insert p x l)

  -- Sorting keeps the members.
  pub any-sort : (p : A → Bool) (l : List A) → any p (sort l) ≡ any p l
  any-sort p [] = refl
  any-sort p (x ∷ l) = ground (arith, any-insert p x (sort l), any-sort p l)

  select-insert :
      (p : A → Bool) (x : A) (l : List A)
      → ((a b : A) → p a ≡ true → p b ≡ true → le a b ≡ true)
      → select p (insert x l) ≡ select p (x ∷ l)
  select-insert p x [] h = refl
  select-insert p x (y ∷ l) h = elim (Bool-cases (le x y)) [
    | inl first ↦ rw first refl
    | inr later ↦ ground (arith, h x y, select-insert p x l h)
  ]

  -- Members that stand for each other in the order keep their order.
  pub select-sort :
      (p : A → Bool) (l : List A)
      → ((a b : A) → p a ≡ true → p b ≡ true → le a b ≡ true)
      → select p (sort l) ≡ select p l
  select-sort p [] h = refl
  select-sort p (x ∷ l) h = ground (arith, select-insert p x (sort l) h, select-sort p l h)
