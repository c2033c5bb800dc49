-- ===== src/Common/Members.antt =====
-- The members of a list that is filtered, searched or sorted.
use Prim.Native.Nat.{ℕ, ◌≤◌}
use mathlib.Core.Path.{◌≡◌, refl, sym, subst}
use mathlib.Core.Logic.{inl, inr}
use mathlib.Core.Bool.{Bool, true, false}
use mathlib.Core.Option.{none, some}
use mathlib.Core.List.{List, [], ◌∷◌, Memᴰ}
use mathlib.Core.List.Memᴰ.{head, tail, cases_cons}
use native.Mathlib.Omega.{arith}
use maas_site_manager.Common.Tests.{Bool-cases, leb}
use maas_site_manager.Common.Lists.{select, any, first, All}
use maas_site_manager.Common.Sorts.{insert, sort}
use maas_site_manager.Common.Rows.{All-map}

module _ {A : Type 0} where
  pub All-mem {κ} : (P : A → Type κ) (x : A) (l : List A) → All P l → Memᴰ x l → P x
  All-mem P x [] h m = elim m [ ]
  All-mem P x (y ∷ l) (p, ps) (head e) = subst P (sym e) p
  All-mem P x (y ∷ l) (p, ps) (tail m) = All-mem P x l ps m

  pub All-Mem : (l : List A) → All (λ x. Memᴰ x l) l
  All-Mem [] = tt
  All-Mem (x ∷ l) =
      (head refl, All-map (λ y. Memᴰ y l) (λ y. Memᴰ y (x ∷ l)) l (λ y m. tail m) (All-Mem l))

  pub All-select {κ} :
      (P : A → Type κ) (p : A → Bool) (l : List A)
      → All P l
      → All (λ x. P x × (p x ≡ true)) (select p l)
  All-select P p [] h = tt
  All-select P p (x ∷ l) (h, hs) = elim (Bool-cases (p x)) [
    | inl hit ↦ rw hit ((h, hit), All-select P p l hs)
    | inr miss ↦ rw miss (All-select P p l hs)
  ]

  pub mem-select : (p : A → Bool) (x : A) (l : List A) → Memᴰ x l → p x ≡ true → Memᴰ x (select p l)
  mem-select p x [] m h = elim m [ ]
  mem-select p x (y ∷ l) (head e) h = rw (← e, h) (head refl)
  mem-select p x (y ∷ l) (tail m) h = elim (Bool-cases (p y)) [
    | inl hit ↦ rw hit (tail (mem-select p x l m h))
    | inr miss ↦ rw miss (mem-select p x l m h)
  ]

  pub mem-first : (p : A → Bool) (o : A) (l : List A) → first p l ≡ some o → Memᴰ o l × (p o ≡ true)
  mem-first p o [] h = absurd cc
  mem-first p o (x ∷ l) h = elim (Bool-cases (p x)) [
    | inl hit ↦ let e : x ≡ o = ground arith in (head (sym e), rw (← e) hit)
    | inr miss ↦ let r = mem-first p o l (ground arith) in (tail r.0, r.1)
  ]

  pub first-none : (p : A → Bool) (x : A) (l : List A) → first p l ≡ none → Memᴰ x l → p x ≡ false
  first-none p x [] h m = elim m [ ]
  first-none p x (y ∷ l) h (head e) = rw e (ground arith)
  first-none p x (y ∷ l) h (tail m) = first-none p x l (ground arith) m

  pub any_no : (p : A → Bool) (l : List A) → ((x : A) → Memᴰ x l → p x ≡ false) → any p l ≡ false
  any_no p [] h = refl
  any_no p (x ∷ l) h = ground (arith, h x (head refl), any_no p l (λ y m. h y (tail m)))

  module _ (le : A → A → Bool) where
    All-insert {κ} : (P : A → Type κ) (x : A) (l : List A) → P x → All P l → All P (insert le x l)
    All-insert P x [] h hs = (h, tt)
    All-insert P x (y ∷ l) h (k, ks) = elim (Bool-cases (le x y)) [
      | inl here ↦ rw here (h, (k, ks))
      | inr later ↦ rw later (k, All-insert P x l h ks)
    ]

    pub All-sort {κ} : (P : A → Type κ) (l : List A) → All P l → All P (sort le l)
    All-sort P [] h = tt
    All-sort P (x ∷ l) (h, hs) = All-insert P x (sort le l) h (All-sort P l hs)

    mem-insert : (x y : A) (l : List A) → Memᴰ x (y ∷ l) → Memᴰ x (insert le y l)
    mem-insert x y [] m = m
    mem-insert x y (z ∷ l) m = elim (Bool-cases (le y z)) [
      | inl here ↦ rw here m
      | inr later ↦ rw later (elim (cases_cons m) [
        | inl e ↦ tail (mem-insert x y l (head e))
        | inr n ↦ elim (cases_cons n) [ inl e ↦ head e | inr k ↦ tail (mem-insert x y l (tail k)) ]
      ])
    ]

    pub mem-sort : (x : A) (l : List A) → Memᴰ x l → Memᴰ x (sort le l)
    mem-sort x [] m = elim m [ ]
    mem-sort x (y ∷ l) (head e) = mem-insert x y (sort le l) (head e)
    mem-sort x (y ∷ l) (tail m) = mem-insert x y (sort le l) (tail (mem-sort x l m))

  -- No member has a higher rank than one before it.
  abbrev pub Descends : (A → ℕ) → List A → Type 0
  Descends rank [] = Unit
  Descends rank (x ∷ l) = All (λ y. rank y ≤ rank x) l × Descends rank l

  module _ (rank : A → ℕ) where
    insert-Descends :
        (x : A) (l : List A)
        → Descends rank l
        → Descends rank (insert (λ a b. leb (rank b) (rank a)) x l)
    insert-Descends x [] h = (tt, tt)
    insert-Descends x (y ∷ l) (h, hs) = elim (Bool-cases (leb (rank y) (rank x))) [
      | inl here ↦
          let le : rank y ≤ rank x = grind arith in
          rw here (
            (le, All-map (λ z. rank z ≤ rank y) (λ z. rank z ≤ rank x) l (λ z p. omega arith) h),
            (h, hs),
          )
      | inr later ↦ rw later (
        All-insert (λ a b. leb (rank b) (rank a)) (λ z. rank z ≤ rank y) x l (grind arith) h,
        insert-Descends x l hs,
      )
    ]

    pub sort-Descends : (l : List A) → Descends rank (sort (λ a b. leb (rank b) (rank a)) l)
    sort-Descends [] = tt
    sort-Descends (x ∷ l) =
        insert-Descends x (sort (λ a b. leb (rank b) (rank a)) l) (sort-Descends l)

    -- The first member that passes a test is one of the highest rank.
    pub first-le :
        (p : A → Bool) (o x : A) (l : List A)
        → Descends rank l
        → first p l ≡ some o
        → Memᴰ x l
        → p x ≡ true
        → rank x ≤ rank o
    first-le p o x [] h e m t = elim m [ ]
    first-le p o x (y ∷ l) (h, hs) e m t = elim (Bool-cases (p y)) [
      | inl hit ↦
          let q : y ≡ o = ground arith in
          rw (← q) (All-mem (λ z. rank z ≤ rank y) x (y ∷ l) (omega arith, h) m)
      | inr miss ↦ elim (cases_cons m) [
        | inl q ↦ absurd cc
        | inr n ↦ first-le p o x l hs (ground arith) n t
      ]
    ]
