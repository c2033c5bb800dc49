-- ===== src/Profiles/Roundtrip.antt =====
-- What a profile read after a request has of it.
use maas_site_manager.Common.{
  String, true, false, Option, none, some, List, [], ◌∷◌, ◌≡◌, refl, ap, sym, ◌∙◌, not, str_eq,
  arith, Bool-cases, inl, inr, eq_iff, eq_refl,
}
use maas_site_manager.Common.Dict
use maas_site_manager.Common.Dict.{
  Eq-String, IsDict, or_get, kept, get-merge, get-filter, merge-IsDict, string_same,
}
use maas_site_manager.Profiles.Values.{
  Value, ℤ, pos, negsuc, null, bool, int, text, texts, other, of_bool, eq_ℤ, eq_texts, eq_value,
}
use maas_site_manager.Profiles.Store.{
  Config, SiteProfile, fill_out_config, value_or, config_or_empty, model,
}
use maas_site_manager.Profiles.Handlers.{is_default, filter_default_values, or_none, merged_config}

eq_ℤ_self : (m : ℤ) → eq_ℤ m m ≡ true
eq_ℤ_self (pos m) = ground arith
eq_ℤ_self (negsuc m) = ground arith

eq_ℤ_symm : (m n : ℤ) → eq_ℤ m n ≡ eq_ℤ n m
eq_ℤ_symm (pos m) (pos n) = ground arith
eq_ℤ_symm (negsuc m) (negsuc n) = ground arith
eq_ℤ_symm (pos m) (negsuc n) = refl
eq_ℤ_symm (negsuc m) (pos n) = refl

str_symm : (s t : String) → str_eq s t ≡ str_eq t s
str_symm s t = ground (arith, eq_iff s t, eq_iff t s)

eq_texts_self : (s : List String) → eq_texts s s ≡ true
eq_texts_self [] = refl
eq_texts_self (t ∷ s) = ground (arith, eq_refl t, eq_texts_self s)

eq_texts_symm : (s t : List String) → eq_texts s t ≡ eq_texts t s
eq_texts_symm [] [] = refl
eq_texts_symm [] (t ∷ ts) = refl
eq_texts_symm (s ∷ ss) [] = refl
eq_texts_symm (s ∷ ss) (t ∷ ts) = ground (arith, str_symm s t, eq_texts_symm ss ts)

pub eq_value_self : (v : Value) → eq_value v v ≡ true
eq_value_self null = refl
eq_value_self (bool true) = refl
eq_value_self (bool false) = refl
eq_value_self (int m) = eq_ℤ_self m
eq_value_self (text s) = eq_refl s
eq_value_self (texts s) = eq_texts_self s
eq_value_self (other s) = eq_refl s

pub eq_value_symm : (v w : Value) → eq_value v w ≡ eq_value w v
eq_value_symm (bool a) (bool b) = eq_ℤ_symm (of_bool a) (of_bool b)
eq_value_symm (bool a) (int n) = eq_ℤ_symm (of_bool a) n
eq_value_symm (int m) (bool b) = eq_ℤ_symm m (of_bool b)
eq_value_symm (int m) (int n) = eq_ℤ_symm m n
eq_value_symm (text s) (text t) = str_symm s t
eq_value_symm (texts s) (texts t) = eq_texts_symm s t
eq_value_symm (other s) (other t) = str_symm s t
eq_value_symm null null = refl
eq_value_symm v w = refl

-- What the filled out configuration has under a name.
abbrev pub filled : Option Value → Option Value → Option Value
filled none o = none
filled (some w) o = some (value_or o w)

pub get-fill_out_config :
    (defaults : Config) (stored : Option Config) (k : String)
    → Dict.get (fill_out_config defaults stored) k
      ≡ filled (Dict.get defaults k) (Dict.get (config_or_empty stored) k)
get-fill_out_config [] stored k = refl
get-fill_out_config (r ∷ defaults) stored k = elim (Bool-cases (str_eq r.0 k)) [
  | inl hit ↦
      let here = ap (Dict.get (config_or_empty stored)) (string_same r.0 k hit) in
      rw (hit, here) refl
  | inr miss ↦ rw miss (get-fill_out_config defaults stored k)
]

-- Leaving a default value out of what is stored does not change what is read, up to `==`.
pub kept_same :
    (w : Value) (o : Option Value)
    → eq_value (value_or (kept (λ v. not (eq_value v w)) o) w) (value_or o w) ≡ true
kept_same w none = eq_value_self w
kept_same w (some v) = elim (Bool-cases (eq_value v w)) [
  | inl hit ↦ rw hit (eq_value_symm w v ∙ hit)
  | inr miss ↦ rw miss (eq_value_self v)
]

or_none_same : (c : Config) → config_or_empty (or_none c) ≡ c
or_none_same [] = refl
or_none_same (r ∷ c) = refl

pub get-filter_default_values :
    (defaults c : Config) (k : String)
    → IsDict c
    → Dict.get (config_or_empty (filter_default_values defaults (some c))) k
      ≡ kept (λ v. not (is_default defaults k v)) (Dict.get c k)
get-filter_default_values defaults c k u =
    ap (λ d. Dict.get d k)
      (or_none_same (Dict.filter_dict (λ j v. not (is_default defaults j v)) c))
    ∙ get-filter (λ j v. not (is_default defaults j v)) c k u

-- The value that a profile has under a name when it is read.
abbrev pub read_value : Config → SiteProfile → String → Value
read_value defaults p k =
    value_or (Dict.get (config_or_empty (model defaults p).global_config) k) null

pub read_value_lem :
    (defaults : Config) (p : SiteProfile) (k : String) (w : Value)
    → Dict.get defaults k ≡ some w
    → read_value defaults p k ≡ value_or (Dict.get (config_or_empty p.global_config) k) w
read_value_lem defaults p k w known =
    ap (λ o. value_or o null) (get-fill_out_config defaults p.global_config k)
    ∙ ap (λ o. value_or (filled o (Dict.get (config_or_empty p.global_config) k)) null) known

value_or_get :
    (o q : Option Value) (w : Value) → value_or (or_get o q) w ≡ value_or o (value_or q w)
value_or_get none q w = refl
value_or_get (some v) q w = refl

-- The configuration of a row that stores `merged_config`.
pub merged_value :
    (defaults stored requested : Config) (k : String) (w : Value)
    → Dict.get defaults k ≡ some w
    → IsDict stored
    → IsDict requested
    → eq_value
        (value_or (Dict.get (config_or_empty (merged_config defaults stored requested)) k) w)
        (value_or (Dict.get requested k) (value_or (Dict.get stored k) w))
      ≡ true
merged_value defaults stored requested k w known us ur =
    let o = or_get (Dict.get requested k) (Dict.get stored k) in
    let is_stored : Dict.get (config_or_empty (merged_config defaults stored requested)) k
        ≡ kept (λ v. not (eq_value v w)) o =
      get-filter_default_values defaults (Dict.merge stored requested) k
        (merge-IsDict stored requested us)
      ∙ ap
          (λ q.
            kept (λ v. not (eq_value v (value_or q null)))
              (Dict.get (Dict.merge stored requested) k))
          known
      ∙ ap (kept (λ v. not (eq_value v w))) (get-merge stored requested k ur) in
    ap
      (λ q.
        eq_value (value_or q w) (value_or (Dict.get requested k) (value_or (Dict.get stored k) w)))
      is_stored
    ∙ ap (eq_value (value_or (kept (λ v. not (eq_value v w)) o) w))
        (sym (value_or_get (Dict.get requested k) (Dict.get stored k) w))
    ∙ kept_same w o
