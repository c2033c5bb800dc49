-- ===== src/Profiles/Values.antt =====
-- JSON values as a configuration holds them, Python's `==` on them, the types of the fields, and the
-- checks that a config class makes of a value (db/models/global_site_config.py, common/enums.py).
use maas_site_manager.Common.{
  ℕ, String, Bool, true, false, Option, none, some, List, [], ◌∷◌, ◌&&◌, any, leb, ◌==◌, str_eq,
}

pub data ℤ : Type 0 where
  pos negsuc : ℕ → ℤ

abbrev pub eq_ℤ : ℤ → ℤ → Bool
eq_ℤ (pos m) (pos n) = m == n
eq_ℤ (negsuc m) (negsuc n) = m == n
eq_ℤ (pos m) (negsuc n) = false
eq_ℤ (negsuc m) (pos n) = false

-- `n <= z`
abbrev pub at_least : ℕ → ℤ → Bool
at_least n (pos m) = leb n m
at_least n (negsuc m) = false

-- `z <= n`
abbrev pub at_most : ℕ → ℤ → Bool
at_most n (pos m) = leb m n
at_most n (negsuc m) = true

-- `other` stands for the values that no field has: a number that is not whole, an object, a list of
-- anything but strings; by their text.
pub data Value : Type 0 where
  null : Value
  bool : Bool → Value
  int : ℤ → Value
  text : String → Value
  texts : List String → Value
  other : String → Value

abbrev pub of_bool : Bool → ℤ
of_bool true = pos 1
of_bool false = pos 0

abbrev pub eq_texts : List String → List String → Bool
eq_texts [] [] = true
eq_texts [] (t ∷ ts) = false
eq_texts (s ∷ ss) [] = false
eq_texts (s ∷ ss) (t ∷ ts) = str_eq s t && eq_texts ss ts

-- `==`, for which `True == 1`
abbrev pub eq_value : Value → Value → Bool
eq_value null null = true
eq_value (bool a) (bool b) = eq_ℤ (of_bool a) (of_bool b)
eq_value (bool a) (int n) = eq_ℤ (of_bool a) n
eq_value (int m) (bool b) = eq_ℤ m (of_bool b)
eq_value (int m) (int n) = eq_ℤ m n
eq_value (text s) (text t) = str_eq s t
eq_value (texts s) (texts t) = eq_texts s t
eq_value (other s) (other t) = str_eq s t
eq_value v w = false

-- The annotation of the field `value`, each of them `| None`.
pub data FieldType : Type 0 where
  bool_field int_field str_field address_list_field : FieldType
  enum_field : List Value → FieldType
  enum_list_field : List String → FieldType

abbrev pub mem_text : List String → String → Bool
mem_text l s = any (λ t. str_eq t s) l

abbrev pub all_in : List String → List String → Bool
all_in l [] = true
all_in l (s ∷ ss) = mem_text l s && all_in l ss

-- The value is one of the annotated type, as it stands. (An address is no JSON value.)
abbrev pub is_of_type : FieldType → Value → Bool
is_of_type t null = true
is_of_type bool_field (bool b) = true
is_of_type int_field (int n) = true
is_of_type str_field (text s) = true
is_of_type (enum_field l) (int n) = any (eq_value (int n)) l
is_of_type (enum_field l) (text s) = any (eq_value (text s)) l
is_of_type (enum_list_field l) (texts s) = all_in l s
is_of_type t v = false

-- `ge` and `le` of a field.
abbrev pub in_range : Option ℕ → Option ℕ → Value → Bool
in_range ge le (int n) =
    (elim ge [ none ↦ true | some k ↦ at_least k n ])
    && (elim le [ none ↦ true | some k ↦ at_most k n ])
in_range ge le v = true

-- A subclass of `SiteConfig`, with the outcome of its field validator on a value of the field's type.
pub record SiteConfig : Type 0 where
  pub name : String
  pub default : Value
  pub description : String
  pub help_text : Option String
  pub field : FieldType
  pub ge : Option ℕ
  pub le : Option ℕ
  pub validates : Value → Bool

-- `config_class(value=value)` raises nothing, where `coerce` is the data validation library: the value
-- that it makes of one for a type, if any.
abbrev pub accepts_coerced : SiteConfig → Option Value → Bool
accepts_coerced c none = false
accepts_coerced c (some v) = in_range c.ge c.le v && c.validates v

abbrev pub accepts : (FieldType → Value → Option Value) → SiteConfig → Value → Bool
accepts coerce c v = accepts_coerced c (coerce c.field v)

abbrev pub no_validator : Value → Bool
no_validator v = true
