-- ===== src/TokenCache/Entries.antt =====
-- The operations of the ordered dictionary: what a lookup finds after each, and the order kept.
use maas_site_manager.Common.{
  ℕ, ◌+◌, ◌≤◌, String, ◌≡◌, ◌⊎◌, refl, Option, none, some, [], ◌∷◌, ◌++◌, length, str_eq, eq_iff,
  if◌then◌else◌, arith, Option-cases, inl, inr, length-append,
}
use maas_site_manager.TokenCache.{Entries, lookup, pop, assign, move_to_end, pop_oldest}

-- No key stands twice.
abbrev pub IsUnique : Entries → Type 0
IsUnique [] = Unit
IsUnique ((k, v) ∷ d) = (lookup k d ≡ none) × IsUnique d

abbrev pub or_else : Option ℕ → Option ℕ → Option ℕ
or_else none o = o
or_else (some v) o = some v

pub lookup-pop :
    (k j : String) (d : Entries)
    → IsUnique d
    → lookup j (pop k d) ≡ (if str_eq k j then none else lookup j d)
unfolding lookup pop
lookup-pop k j [] h = ground arith
lookup-pop k j ((i, v) ∷ d) h =
    ground (arith, lookup-pop k j d h.1, eq_iff i k, eq_iff i j, eq_iff k j)

pub lookup-assign :
    (k j : String) (v : ℕ) (d : Entries)
    → lookup j (assign k v d) ≡ (if str_eq k j then some v else lookup j d)
unfolding lookup assign
lookup-assign k j v [] = refl
lookup-assign k j v ((i, w) ∷ d) =
    ground (arith, lookup-assign k j v d, eq_iff i k, eq_iff i j, eq_iff k j)

lookup-append : (j : String) (d e : Entries) → lookup j (d ++ e) ≡ or_else (lookup j d) (lookup j e)
unfolding lookup
lookup-append j [] e = refl
lookup-append j ((i, v) ∷ d) e = ground (arith, lookup-append j d e)

pub lookup-move_to_end :
    (k j : String) (d : Entries) → IsUnique d → lookup j (move_to_end k d) ≡ lookup j d
unfolding move_to_end lookup
lookup-move_to_end k j d h = elim (Option-cases (lookup k d)) [
  | inl missing ↦ ground arith
  | inr (v, e) ↦
      ground (arith, lookup-append j (pop k d) ((k, v) ∷ []), lookup-pop k j d h, eq_iff k j)
]

pub pop-IsUnique : (k : String) (d : Entries) → IsUnique d → IsUnique (pop k d)
unfolding pop
pop-IsUnique k [] h = tt
pop-IsUnique k ((i, v) ∷ d) h =
    ground (arith, pop-IsUnique k d h.1, lookup-pop k i d h.1, eq_iff i k, eq_iff k i)

pub assign-IsUnique : (k : String) (v : ℕ) (d : Entries) → IsUnique d → IsUnique (assign k v d)
unfolding assign lookup
assign-IsUnique k v [] h = ground arith
assign-IsUnique k v ((i, w) ∷ d) h =
    ground (arith, assign-IsUnique k v d h.1, lookup-assign k i v d, eq_iff i k, eq_iff k i)

snoc-IsUnique :
    (k : String) (v : ℕ) (d : Entries)
    → IsUnique d
    → lookup k d ≡ none
    → IsUnique (d ++ (k, v) ∷ [])
unfolding lookup
snoc-IsUnique k v [] h e = ground arith
snoc-IsUnique k v ((i, w) ∷ d) h e =
    ground (arith, snoc-IsUnique k v d h.1, lookup-append i d ((k, v) ∷ []), eq_iff i k, eq_iff k i)

pub move_to_end-IsUnique : (k : String) (d : Entries) → IsUnique d → IsUnique (move_to_end k d)
unfolding move_to_end
move_to_end-IsUnique k d h = elim (Option-cases (lookup k d)) [
  | inl missing ↦ ground arith
  | inr (v, e) ↦
      ground
        (arith, snoc-IsUnique k v (pop k d) (pop-IsUnique k d h), lookup-pop k k d h, eq_iff k k)
]

pub pop_oldest-IsUnique : (d : Entries) → IsUnique d → IsUnique (pop_oldest d)
unfolding pop_oldest
pop_oldest-IsUnique [] h = tt
pop_oldest-IsUnique (e ∷ d) h = h.1

pub length-pop-le : (k : String) (d : Entries) → length (pop k d) ≤ length d
unfolding pop
length-pop-le k [] = omega arith
length-pop-le k ((i, v) ∷ d) = ground (arith, length-pop-le k d)

length-pop_found :
    (k : String) (v : ℕ) (d : Entries) → lookup k d ≡ some v → length (pop k d) + 1 ≡ length d
unfolding pop lookup
length-pop_found k v [] h = cc
length-pop_found k v ((i, w) ∷ d) h = ground (arith, length-pop_found k v d)

pub length-assign-le : (k : String) (v : ℕ) (d : Entries) → length (assign k v d) ≤ length d + 1
unfolding assign
length-assign-le k v [] = omega arith
length-assign-le k v ((i, w) ∷ d) = ground (arith, length-assign-le k v d)

pub length-move_to_end : (k : String) (d : Entries) → length (move_to_end k d) ≡ length d
unfolding move_to_end
length-move_to_end k d = elim (Option-cases (lookup k d)) [
  | inl missing ↦ ground arith
  | inr (v, e) ↦ ground (arith, length-append (pop k d) ((k, v) ∷ []), length-pop_found k v d e)
]

pub length-pop_oldest : (n : ℕ) (d : Entries) → length d ≤ n + 1 → length (pop_oldest d) ≤ n
unfolding pop_oldest
length-pop_oldest n [] h = omega arith
length-pop_oldest n (e ∷ d) h = omega arith

-- Dropping the oldest entry makes no key appear.
pub lookup-pop_oldest :
    (j : String) (d : Entries)
    → IsUnique d
    → (lookup j (pop_oldest d) ≡ none) ⊎ (lookup j (pop_oldest d) ≡ lookup j d)
unfolding pop_oldest lookup
lookup-pop_oldest j [] h = inl refl
lookup-pop_oldest j ((i, v) ∷ d) h = ground (arith, eq_iff i j)
