-- ===== src/Images/Index/Downloaded/Pops.antt =====
-- Popping positions, the last one first, keeps the others.
use maas_site_manager.Common.{
  ℕ, zero, suc, ◌+◌, ◌<◌, Bool, true, false, not, List, [], ◌∷◌, ◌≡◌, refl, ap, ◌∙◌, sym, any, leb,
  ◌==◌, arith, All, if◌then◌else◌, Bool-cases, inl, inr,
}
use maas_site_manager.Common.Sorts.{sort, insert, any-sort}
use maas_site_manager.Common.Rows.{All-map}
use maas_site_manager.Images.Index.{pop, pop_indeces}

abbrev pub mem : List ℕ → ℕ → Bool
mem l j = any (λ i. i == j) l

-- The members at the positions that pass, where the first is at position `n`.
abbrev pub keep {ℓ} : {A : Type ℓ} → (ℕ → Bool) → ℕ → List A → List A
keep p n [] = []
keep p n (x ∷ l) = let rest = keep p (suc n) l in if p n then x ∷ rest else rest

-- Strictly descending.
abbrev pub Descends : List ℕ → Type 0
Descends [] = Unit
Descends (i ∷ is) = All (λ j. j < i) is × Descends is

below : (is : List ℕ) (n : ℕ) → All (λ j. j < n) is → mem is n ≡ false
below [] n h = refl
below (j ∷ is) n h = ground (arith, below is n h.1, h.0)

module _ {A : Type 0} where
  keep_all :
      (is : List ℕ) (n : ℕ) (l : List A) → All (λ j. j < n) is → keep (λ j. not (mem is j)) n l ≡ l
  keep_all is n [] h = refl
  keep_all is n (x ∷ l) h = rw (below is n h) (
      ap (λ t. x ∷ t)
        (keep_all is (suc n) l (All-map (λ j. j < n) (λ j. j < suc n) is (λ j q. omega arith) h)))

  -- Popping the largest position.
  keep-pop :
      (is : List ℕ) (i n k : ℕ) (l : List A)
      → n + i ≡ k
      → All (λ j. j < k) is
      → keep (λ j. not (mem is j)) n (pop l i) ≡ keep (λ j. not (mem (k ∷ is) j)) n l
  keep-pop is i n k [] e h = refl
  keep-pop is zero n k (x ∷ l) e h =
      let here : n ≡ k = omega arith in
      let first : mem (k ∷ is) n ≡ true = ground (arith, here) in
      let lower : All (λ j. j < n) is =
        All-map (λ j. j < k) (λ j. j < n) is (λ j q. omega (arith, q, here)) h in
      rw first (
        keep_all is n l lower
        ∙ sym (
            keep_all (k ∷ is) (suc n) l (
              omega arith,
              All-map (λ j. j < k) (λ j. j < suc n) is (λ j q. omega (arith, q, here)) h,
            )))
  keep-pop is (suc i) n k (x ∷ l) e h =
      let apart : (k == n) ≡ false = ground arith in
      ground (arith, apart, keep-pop is i (suc n) k l (omega arith) h)

  pub keep-pop_indeces :
      (is : List ℕ) (l : List A) → Descends is → pop_indeces is l ≡ keep (λ j. not (mem is j)) 0 l
  keep-pop_indeces [] l d = sym (keep_all [] 0 l tt)
  keep-pop_indeces (i ∷ is) l d =
      keep-pop_indeces is (pop l i) d.1 ∙ keep-pop is i 0 i l (omega arith) d.0

-- Sorted the larger first, a list with no number twice descends strictly.
module _ where
  abbrev desc : List ℕ → List ℕ
  desc l = sort (λ i j. leb j i) l

  All-insert :
      (P : ℕ → Type 0) (x : ℕ) (l : List ℕ) → P x → All P l → All P (insert (λ i j. leb j i) x l)
  All-insert P x [] p h = (p, tt)
  All-insert P x (y ∷ l) p h = elim (Bool-cases (leb y x)) [
    | inl first ↦ rw first (p, h)
    | inr later ↦ rw later (h.0, All-insert P x l p h.1)
  ]

  insert-Descends :
      (x : ℕ) (l : List ℕ) → mem l x ≡ false → Descends l → Descends (insert (λ i j. leb j i) x l)
  insert-Descends x [] fresh d = (tt, tt)
  insert-Descends x (y ∷ l) fresh d = elim (Bool-cases (leb y x)) [
    | inl first ↦
        let less : y < x = ground arith in
        rw first
          ((less, All-map (λ j. j < y) (λ j. j < x) l (λ j q. omega (arith, q, less)) d.0), d)
    | inr later ↦
        rw later
          (All-insert (λ j. j < y) x l (ground arith) d.0, insert-Descends x l (ground arith) d.1)
  ]

  abbrev pub NoneTwice : List ℕ → Type 0
  NoneTwice [] = Unit
  NoneTwice (i ∷ is) = (mem is i ≡ false) × NoneTwice is

  pub sort-Descends : (l : List ℕ) → NoneTwice l → Descends (sort (λ i j. leb j i) l)
  sort-Descends [] h = tt
  sort-Descends (i ∷ l) h =
      insert-Descends i (desc l) (any-sort (λ i j. leb j i) (λ j. j == i) l ∙ h.0)
        (sort-Descends l h.1)
