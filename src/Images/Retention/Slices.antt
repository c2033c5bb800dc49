-- ===== src/Images/Retention/Slices.antt =====
-- The slice `l[: -keep]` against a description of its elements.
use maas_site_manager.Common.{
  ℕ, zero, suc, ◌-◌, ◌+◌, ◌≤◌, ◌≡◌, refl, List, [], ◌∷◌, arith, if◌then◌else◌, Bool-cases, leb, ltb,
  length, inl, inr,
}
use maas_site_manager.Images.Retention.{take, until_last}

-- The elements that at least `keep` others follow.
abbrev pub surplus : {A : Type 0} → ℕ → List A → List A
surplus keep [] = []
surplus keep (x ∷ l) = let rest = surplus keep l in if leb keep (length l) then x ∷ rest else rest

surplus_none : {A : Type 0} (keep : ℕ) (l : List A) → length l ≤ keep → surplus keep l ≡ []
surplus_none keep [] h = refl
surplus_none keep (x ∷ l) h = ground (arith, surplus_none keep l)

take-surplus :
    {A : Type 0} (keep : ℕ) (l : List A) (n : ℕ) → length l ≡ n + keep → take n l ≡ surplus keep l
take-surplus keep l zero h = rw (surplus_none keep l (omega arith)) refl
take-surplus keep [] (suc n) h = refl
take-surplus keep (x ∷ l) (suc n) h = ground (arith, take-surplus keep l n)

pub until_last_lem :
    {A : Type 0} (k : ℕ) (l : List A)
    → (if ltb (suc k) (length l) then until_last (suc k) l else []) ≡ surplus (suc k) l
until_last_lem k l = elim (Bool-cases (ltb (suc k) (length l))) [
  | inl more ↦ rw more (take-surplus (suc k) l (length l - suc k) (ground arith))
  | inr few ↦ rw few (rw (surplus_none (suc k) l (ground arith)) refl)
]
