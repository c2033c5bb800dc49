-- ===== src/Common/Dict.antt =====
-- Python dictionaries as lists of entries in the order of insertion, over keys with a Boolean
-- equality.
pub mod Members
pub mod Values
use Prim.Native.Nat.{ℕ}
use Prim.Native.String.{String}
use mathlib.Core.Path.{◌≡◌, refl, ap, ◌∙◌}
use mathlib.Core.Logic.{inl, inr}
use mathlib.Core.Bool.{Bool, true, false}
use mathlib.Core.Option.{Option, none, some}
use mathlib.Core.List.{List, [], ◌∷◌}
use native.Mathlib.Omega.{arith}
use text.Mathlib.Text.{◌==◌ as str_eq}
use text.Mathlib.TextEquality.{eq_iff}
use text.Mathlib.TextPositions.{eq_refl}
use maas_site_manager.Common.Tests.{if◌then◌else◌, Bool-cases, ◌==◌}
use maas_site_manager.Common.Lists.{any}

-- `__eq__` of the keys of a dictionary.
pub record Eq (K : Type 0) : Type 0 where
  pub eq : K → K → Bool
  pub same : (a b : K) → eq a b ≡ true → a ≡ b
  pub self : (a : K) → eq a a ≡ true

abbrev pub string_eq : String → String → Bool
string_eq = str_eq

pub string_same : (a b : String) → str_eq a b ≡ true → a ≡ b
string_same a b h = (eq_iff a b).0 h

pub string_self : (a : String) → str_eq a a ≡ true
string_self = eq_refl

instance abbrev pub Eq-String : Eq String
Eq-String = record { eq = str_eq; same = string_same; self = eq_refl }

pub nat_same : (a b : ℕ) → (a == b) ≡ true → a ≡ b
nat_same a b h = ground arith

pub nat_self : (a : ℕ) → (a == a) ≡ true
nat_self a = ground arith

abbrev pub option_eq : Option String → Option String → Bool
option_eq none none = true
option_eq (some a) (some b) = str_eq a b
option_eq none (some b) = false
option_eq (some a) none = false

pub option_same : (a b : Option String) → option_eq a b ≡ true → a ≡ b
option_same none none h = refl
option_same (some a) (some b) h = ap some (string_same a b h)
option_same none (some b) h = cc
option_same (some a) none h = cc

pub option_self : (a : Option String) → option_eq a a ≡ true
option_self none = refl
option_self (some a) = eq_refl a

instance abbrev pub Eq-OptionString : Eq (Option String)
Eq-OptionString = record { eq = option_eq; same = option_same; self = option_self }

instance abbrev pub Eq-ℕ : Eq ℕ
Eq-ℕ = record { eq = ◌==◌; same = nat_same; self = nat_self }

module _ {V : Type 0} where
  abbrev pub or_get : Option V → Option V → Option V
  or_get (some v) o = some v
  or_get none o = o

  abbrev pub kept : (V → Bool) → Option V → Option V
  kept p none = none
  kept p (some v) = if p v then some v else none

eq_trans : {K : Type 0} ⦃e : Eq K⦄ (a b c : K) → e.eq a b ≡ true → e.eq a c ≡ e.eq b c
eq_trans ⦃e⦄ a b c h = ap (λ k. e.eq k c) (e.same a b h)

module _ {K V : Type 0} ⦃e : Eq K⦄ where
  -- `dict.get(k)`
  abbrev pub get : List (K × V) → K → Option V
  get [] k = none
  get (r ∷ d) k = let rest = get d k in if e.eq r.0 k then some r.1 else rest

  -- `dict[k] = v`
  abbrev pub assign : K → V → List (K × V) → List (K × V)
  assign k v [] = (k, v) ∷ []
  assign k v (r ∷ d) = let rest = assign k v d in if e.eq r.0 k then (r.0, v) ∷ d else r ∷ rest

  -- `dict | other`, entry by entry
  abbrev pub merge : List (K × V) → List (K × V) → List (K × V)
  merge d [] = d
  merge d (r ∷ other) = merge (assign r.0 r.1 d) other

  abbrev pub has : List (K × V) → K → Bool
  has d k = any (λ r. e.eq r.0 k) d

  pub get-assign :
      (k : K) (v : V) (d : List (K × V)) (j : K)
      → get (assign k v d) j ≡ (if e.eq k j then some v else get d j)
  get-assign k v [] j = refl
  get-assign k v (r ∷ d) j = elim (Bool-cases (e.eq r.0 k)) [
    | inl hit ↦ ground (arith, eq_trans r.0 k j hit)
    | inr miss ↦ elim (Bool-cases (e.eq k j)) [
      | inl here ↦
          let apart : e.eq r.0 j ≡ false = rw (← e.same k j here) miss in
          ground (arith, get-assign k v d j, apart)
      | inr there ↦ ground (arith, get-assign k v d j)
    ]
  ]

  pub get_absent : (d : List (K × V)) (k : K) → has d k ≡ false → get d k ≡ none
  get_absent [] k h = refl
  get_absent (r ∷ d) k h = ground (arith, get_absent d k)

  -- A key stands once in a dictionary.
  abbrev pub IsDict : List (K × V) → Type 0
  IsDict [] = Unit
  IsDict (r ∷ d) = (has d r.0 ≡ false) × IsDict d

  pub has_same : (j k : K) (d : List (K × V)) → e.eq j k ≡ true → has d j ≡ has d k
  has_same j k d h = ap (has d) (e.same j k h)

  pub get-merge :
      (d other : List (K × V)) (k : K)
      → IsDict other
      → get (merge d other) k ≡ or_get (get other k) (get d k)
  get-merge d [] k u = refl
  get-merge d (r ∷ other) k u = elim (Bool-cases (e.eq r.0 k)) [
    | inl hit ↦
        let absent = get_absent other k (rw (← has_same r.0 k other hit) u.0) in
        ground (arith, get-merge (assign r.0 r.1 d) other k u.1, get-assign r.0 r.1 d k, absent)
    | inr miss ↦ ground (arith, get-merge (assign r.0 r.1 d) other k u.1, get-assign r.0 r.1 d k)
  ]

  abbrev pub filter_dict : (K → V → Bool) → List (K × V) → List (K × V)
  filter_dict p [] = []
  filter_dict p (r ∷ d) = let rest = filter_dict p d in if p r.0 r.1 then r ∷ rest else rest

  has-filter :
      (p : K → V → Bool) (d : List (K × V)) (k : K)
      → has d k ≡ false
      → has (filter_dict p d) k ≡ false
  has-filter p [] k h = refl
  has-filter p (r ∷ d) k h = ground (arith, has-filter p d k)

  pub filter-IsDict : (p : K → V → Bool) (d : List (K × V)) → IsDict d → IsDict (filter_dict p d)
  filter-IsDict p [] u = tt
  filter-IsDict p (r ∷ d) u = elim (Bool-cases (p r.0 r.1)) [
    | inl hit ↦ rw hit (has-filter p d r.0 u.0, filter-IsDict p d u.1)
    | inr miss ↦ rw miss (filter-IsDict p d u.1)
  ]

  pub get-filter :
      (p : K → V → Bool) (d : List (K × V)) (k : K)
      → IsDict d
      → get (filter_dict p d) k ≡ kept (p k) (get d k)
  get-filter p [] k u = refl
  get-filter p (r ∷ d) k u = elim (Bool-cases (e.eq r.0 k)) [
    | inl hit ↦
        let gone =
          get_absent (filter_dict p d) k (has-filter p d k (rw (← has_same r.0 k d hit) u.0)) in
        ground (arith, gone, ap (λ j. p j r.1) (e.same r.0 k hit))
    | inr miss ↦ ground (arith, get-filter p d k u.1)
  ]

  has-assign :
      (k : K) (v : V) (d : List (K × V)) (j : K)
      → has (assign k v d) j ≡ (if e.eq k j then true else has d j)
  has-assign k v [] j = refl
  has-assign k v (r ∷ d) j = elim (Bool-cases (e.eq r.0 k)) [
    | inl hit ↦ ground (arith, eq_trans r.0 k j hit)
    | inr miss ↦ ground (arith, has-assign k v d j)
  ]

  pub assign-IsDict : (k : K) (v : V) (d : List (K × V)) → IsDict d → IsDict (assign k v d)
  assign-IsDict k v [] u = (refl, tt)
  assign-IsDict k v (r ∷ d) u = elim (Bool-cases (e.eq r.0 k)) [
    | inl hit ↦ rw hit u
    | inr miss ↦ elim (Bool-cases (e.eq k r.0)) [
      | inl back ↦ let loop : e.eq r.0 k ≡ true = rw (e.same k r.0 back) (e.self r.0) in cc
      | inr apart ↦ rw miss (has-assign k v d r.0 ∙ rw apart u.0, assign-IsDict k v d u.1)
    ]
  ]

  pub merge-IsDict : (d other : List (K × V)) → IsDict d → IsDict (merge d other)
  merge-IsDict d [] u = u
  merge-IsDict d (r ∷ other) u = merge-IsDict (assign r.0 r.1 d) other (assign-IsDict r.0 r.1 d u)

  -- `dict.pop(k, None)`
  abbrev pub remove : K → List (K × V) → List (K × V)
  remove k [] = []
  remove k (r ∷ d) = let rest = remove k d in if e.eq r.0 k then rest else r ∷ rest

  pub get-remove :
      (k : K) (d : List (K × V)) (j : K) → get (remove k d) j ≡ (if e.eq k j then none else get d j)
  get-remove k [] j = ground arith
  get-remove k (r ∷ d) j = elim (Bool-cases (e.eq r.0 k)) [
    | inl hit ↦ ground (arith, get-remove k d j, eq_trans r.0 k j hit)
    | inr miss ↦ elim (Bool-cases (e.eq k j)) [
      | inl here ↦
          let apart : e.eq r.0 j ≡ false = rw (← e.same k j here) miss in
          ground (arith, get-remove k d j, apart)
      | inr there ↦ ground (arith, get-remove k d j)
    ]
  ]

  has-remove : (k : K) (d : List (K × V)) (j : K) → has d j ≡ false → has (remove k d) j ≡ false
  has-remove k [] j h = refl
  has-remove k (r ∷ d) j h = ground (arith, has-remove k d j)

  pub remove-IsDict : (k : K) (d : List (K × V)) → IsDict d → IsDict (remove k d)
  remove-IsDict k [] u = tt
  remove-IsDict k (r ∷ d) u = elim (Bool-cases (e.eq r.0 k)) [
    | inl hit ↦ rw hit (remove-IsDict k d u.1)
    | inr miss ↦ rw miss (has-remove k d r.0 u.0, remove-IsDict k d u.1)
  ]
