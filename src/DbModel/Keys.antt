-- ===== src/DbModel/Keys.antt =====
-- Names of rows and the values under them, through the statements of the service.
use maas_site_manager.Common.{
  ◌≡◌, refl, ap, String, Bool, true, false, Option, none, some, List, [], ◌∷◌, ◌++◌, ◌&&◌, not,
  select, arith, if◌then◌else◌, str_eq, eq_iff, Bool-cases, Option-cases, inl, inr,
}
use maas_site_manager.Common.Rows.{delete}
use maas_site_manager.DbModel.{mem, names, value_of, default_values}

pub str_same : (j k : String) → str_eq j k ≡ true → j ≡ k
str_same j k h = ground (arith, eq_iff j k)

pub mem-delete :
    (l m : List String) (k : String) → mem (delete (mem m) l) k ≡ (mem l k && not (mem m k))
mem-delete [] m k = refl
mem-delete (j ∷ l) m k = elim (Bool-cases (str_eq j k)) [
  | inl hit ↦ ground (arith, mem-delete l m k, ap (mem m) (str_same j k hit))
  | inr miss ↦ ground (arith, mem-delete l m k)
]

module _ {V : Type 0} where
  abbrev pub later_or : Option V → Option V → Option V
  later_or (some v) o = some v
  later_or none o = o

  abbrev pub is_some : Option V → Bool
  is_some none = false
  is_some (some v) = true

  pub mem-value_of : (t : List (String × V)) (k : String) → mem (names t) k ≡ is_some (value_of t k)
  mem-value_of [] k = refl
  mem-value_of (r ∷ t) k = ground (arith, mem-value_of t k)

  later_or-none : (o : Option V) → o ≡ later_or o none
  later_or-none none = refl
  later_or-none (some v) = refl

  pub value_of-append :
      (s t : List (String × V)) (k : String)
      → value_of (s ++ t) k ≡ later_or (value_of t k) (value_of s k)
  value_of-append [] t k = later_or-none (value_of t k)
  value_of-append (r ∷ s) t k = elim (Option-cases (value_of t k)) [
    | inl absent ↦ rw (value_of-append s t k) (rw absent refl)
    | inr (v, there) ↦ rw (value_of-append s t k) (rw there refl)
  ]

  pub value_of-select :
      (valid : List String) (t : List (String × V)) (k : String)
      → value_of (select (λ r. mem valid r.0) t) k ≡ (if mem valid k then value_of t k else none)
  value_of-select valid [] k = ground arith
  value_of-select valid (r ∷ t) k = elim (Bool-cases (str_eq r.0 k)) [
    | inl hit ↦ ground (arith, value_of-select valid t k, ap (mem valid) (str_same r.0 k hit))
    | inr miss ↦ ground (arith, value_of-select valid t k)
  ]

  pub value_of-default :
      (default : String → V) (l : List String) (k : String)
      → value_of (default_values default l) k ≡ (if mem l k then some (default k) else none)
  value_of-default default [] k = refl
  value_of-default default (j ∷ l) k = elim (Bool-cases (str_eq j k)) [
    | inl hit ↦ ground (arith, value_of-default default l k, ap default (str_same j k hit))
    | inr miss ↦ ground (arith, value_of-default default l k)
  ]
