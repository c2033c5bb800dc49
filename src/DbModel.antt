-- ===== src/DbModel.antt =====
-- `DBBackedModelService` of backend/msm/apiserver/service/base.py: the fields of a model as rows of
-- a table, one for each name.
mod Keys
pub mod Laws
pub mod Updates
pub mod Refinement
mod Tests
use maas_site_manager.Common.{
  String, Bool, true, false, Option, none, some, List, [], ◌∷◌, ◌++◌, map, ◌&&◌, not, select, any,
  if◌then◌else◌, str_eq,
}
use maas_site_manager.Common.Rows.{update, delete}

abbrev pub mem : List String → String → Bool
mem l k = any (λ j. str_eq j k) l

-- `V` is the type of a JSON value.
module _ {V : Type 0} where
  abbrev pub names : List (String × V) → List String
  names t = map (λ r. r.0) t

  abbrev pub is_named : String → String × V → Bool
  is_named k r = str_eq r.0 k

  -- The value that the dictionary of the rows has under a name: a later row takes the place of an
  -- earlier one.
  abbrev pub value_of : List (String × V) → String → Option V
  value_of [] k = none
  value_of (r ∷ t) k =
      let rest = value_of t k in
      elim rest [ some v ↦ some v | none ↦ if is_named k r then some r.1 else none ]

  abbrev pub or_else : Option V → V → V
  or_else (some v) w = v
  or_else none w = w

  -- The statement of `update`, once for each of the values.
  abbrev pub update_each : List (String × V) → List (String × V) → List (String × V)
  update_each [] t = t
  update_each (q ∷ qs) t = update_each qs (update (is_named q.0) (λ r. (r.0, q.1)) t)

  abbrev pub default_values : (String → V) → List String → List (String × V)
  default_values default [] = []
  default_values default (k ∷ ks) = (k, default k) ∷ default_values default ks

-- `valid_keys` are the names of the model's fields, in the order in which the set is run through.
module _ {V : Type 0} (valid_keys : List String) where
  -- The values that `update` accepts.
  abbrev pub query_values : List (String × Option V) → List (String × V)
  query_values [] = []
  query_values ((k, none) ∷ values) = query_values values
  query_values ((k, some v) ∷ values) =
      let rest = query_values values in if mem valid_keys k then (k, v) ∷ rest else rest

  pub update_values : List (String × Option V) → List (String × V) → List (String × V)
  update_values values t = update_each (query_values values) t

  abbrev pub missing_keys : List (String × V) → List String
  missing_keys t = delete (mem (names t)) valid_keys

  abbrev pub extra_keys : List (String × V) → List String
  extra_keys t = delete (mem valid_keys) (names t)

-- `default` is the default of a field.
module _ {V : Type 0} (valid_keys : List String) (default : String → V) where
  -- `get`, field by field: a field with no row has its default.
  pub get : List (String × V) → String → V
  get t k = or_else (value_of (select (λ r. mem valid_keys r.0) t) k) (default k)

  -- An insertion of no rows and a deletion by no names change nothing, so that their tests are left
  -- out. The names in the table are read once, before both.
  pub ensure : List (String × V) → List (String × V)
  ensure t =
      delete (λ r. mem (extra_keys valid_keys t) r.0)
        (t ++ default_values default (missing_keys valid_keys t))
