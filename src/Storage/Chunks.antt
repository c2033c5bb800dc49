-- ===== src/Storage/Chunks.antt =====
-- Bytes, their slices, and how chunks join.
use maas_site_manager.Common.{
  ℕ, zero, suc, ◌+◌, ◌-◌, ◌≤◌, List, [], ◌∷◌, ◌++◌, ◌≡◌, refl, ap, ◌∙◌, sym, length, arith,
}
use mathlib.Core.List.{append_assoc}

abbrev pub Bytes : Type 0
Bytes = List ℕ

abbrev pub take : ℕ → Bytes → Bytes
take zero s = []
take (suc n) [] = []
take (suc n) (b ∷ s) = b ∷ take n s

abbrev pub drop : ℕ → Bytes → Bytes
drop zero s = s
drop (suc n) [] = []
drop (suc n) (b ∷ s) = drop n s

-- `b"".join(chunks)`
abbrev pub join : List Bytes → Bytes
join [] = []
join (s ∷ chunks) = s ++ join chunks

pub take-drop : (n : ℕ) (s : Bytes) → take n s ++ drop n s ≡ s
take-drop zero s = refl
take-drop (suc n) [] = refl
take-drop (suc n) (b ∷ s) = ap (λ t. b ∷ t) (take-drop n s)

drop_nothing : (n : ℕ) → drop n [] ≡ []
drop_nothing zero = refl
drop_nothing (suc n) = refl

pub drop-drop : (m n k : ℕ) (s : Bytes) → m + n ≡ k → drop n (drop m s) ≡ drop k s
drop-drop zero n k s h = let e : n ≡ k = omega arith in rw e refl
drop-drop (suc m) n zero s h = absurd (omega arith)
drop-drop (suc m) n (suc k) [] h = drop_nothing n
drop-drop (suc m) n (suc k) (b ∷ s) h = drop-drop m n k s (omega arith)

pub drop_all : (n : ℕ) (s : Bytes) → length s ≤ n → drop n s ≡ []
drop_all zero [] h = refl
drop_all zero (b ∷ s) h = absurd (omega arith)
drop_all (suc n) [] h = refl
drop_all (suc n) (b ∷ s) h = drop_all n s (omega arith)

pub length-take-le : (n : ℕ) (s : Bytes) → length (take n s) ≤ n
length-take-le zero s = omega arith
length-take-le (suc n) [] = omega arith
length-take-le (suc n) (b ∷ s) = omega (arith, length-take-le n s)

pub length-drop : (n : ℕ) (s : Bytes) → length (drop n s) ≡ length s - n
length-drop zero s = omega arith
length-drop (suc n) [] = omega arith
length-drop (suc n) (b ∷ s) = omega (arith, length-drop n s)

pub join-append : (xs ys : List Bytes) → join (xs ++ ys) ≡ join xs ++ join ys
join-append [] ys = refl
join-append (x ∷ xs) ys =
    ap (λ s. x ++ s) (join-append xs ys) ∙ sym (append_assoc x (join xs) (join ys))
