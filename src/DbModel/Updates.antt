-- ===== src/DbModel/Updates.antt =====
-- What `update` leaves, read by `get`.
use maas_site_manager.Common.{
  ◌≡◌, refl, ap, ◌∙◌, String, Bool, true, Option, none, some, List, [], ◌∷◌, arith, if◌then◌else◌,
  str_eq, eq_iff, Bool-cases, inl, inr,
}
use maas_site_manager.Common.Rows.{update}
use maas_site_manager.DbModel.{
  mem, is_named, or_else, value_of, query_values, update_each, update_values, get,
}
use maas_site_manager.DbModel.Keys.{later_or, value_of-select, str_same}

module _ {V : Type 0} where
  written : Bool → V → Option V → Option V
  written hit v none = none
  written hit v (some w) = some (if hit then v else w)

  value_of-update :
      (q : String × V) (t : List (String × V)) (k : String)
      → value_of (update (is_named q.0) (λ r. (r.0, q.1)) t) k
        ≡ written (str_eq q.0 k) q.1 (value_of t k)
  unfolding written
  value_of-update q [] k = refl
  value_of-update q (r ∷ t) k = elim (Bool-cases (str_eq r.0 q.0)) [
    | inl hit ↦ ground (arith, value_of-update q t k, ap (λ n. str_eq n k) (str_same r.0 q.0 hit))
    | inr miss ↦ ground (arith, value_of-update q t k, eq_iff r.0 q.0, eq_iff q.0 k, eq_iff r.0 k)
  ]

  -- Only rows that are there are written, the last value for a name last.
  abbrev pub written_by : Option V → Option V → Option V
  written_by o none = none
  written_by none (some w) = some w
  written_by (some v) (some w) = some v

  value_of-update_each :
      (qs t : List (String × V)) (k : String)
      → value_of (update_each qs t) k ≡ written_by (value_of qs k) (value_of t k)
  unfolding written
  value_of-update_each [] t k = ground arith
  value_of-update_each (q ∷ qs) t k = ground (
    arith,
    value_of-update_each qs (update (is_named q.0) (λ r. (r.0, q.1)) t) k,
    value_of-update q t k,
  )

  -- The value, not null, that a request gives for a name.
  abbrev pub given : List (String × Option V) → String → Option V
  given [] k = none
  given ((j, none) ∷ values) k = given values k
  given ((j, some v) ∷ values) k = later_or (given values k) (if str_eq j k then some v else none)

  query_values-given :
      (valid : List String) (values : List (String × Option V)) (k : String)
      → value_of (query_values valid values) k ≡ (if mem valid k then given values k else none)
  query_values-given valid [] k = ground arith
  query_values-given valid ((j, none) ∷ values) k = query_values-given valid values k
  query_values-given valid ((j, some v) ∷ values) k = elim (Bool-cases (str_eq j k)) [
    | inl hit ↦ ground (arith, query_values-given valid values k, ap (mem valid) (str_same j k hit))
    | inr miss ↦ ground (arith, query_values-given valid values k)
  ]

  -- `update` changes a row exactly if its name is one of the model's and the request gives a value for
  -- it that is not null; it never adds or removes a name.
  pub update_values_lem :
      (valid : List String) (values : List (String × Option V)) (t : List (String × V)) (k : String)
      → value_of (update_values valid values t) k
        ≡ written_by (if mem valid k then given values k else none) (value_of t k)
  unfolding update_values
  update_values_lem valid values t k =
      value_of-update_each (query_values valid values) t k
      ∙ rw (query_values-given valid values k) refl

  pub get_lem :
      (valid : List String) (default : String → V) (t : List (String × V)) (k : String)
      → mem valid k ≡ true
      → get valid default t k ≡ or_else (value_of t k) (default k)
  unfolding get
  get_lem valid default t k known =
      ap (λ o. or_else o (default k))
        (value_of-select valid t k ∙ ap (λ b. if b then value_of t k else none) known)
