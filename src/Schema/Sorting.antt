-- ===== src/Schema/Sorting.antt =====
-- `SortParamParser` of backend/msm/apiserver/schema/sorting.py. A string is the list of its code
-- points; `is_space` says which of them `str.strip` takes away.
pub mod Entries
mod Tests
use maas_site_manager.Common.{
  ℕ, Bool, true, false, not, Option, none, some, List, [], ◌∷◌, ◌++◌, map, ◌==◌, ◌&&◌, any,
  if◌then◌else◌,
}

abbrev pub Text : Type 0
Text = List ℕ

abbrev pub text_eq : Text → Text → Bool
text_eq [] [] = true
text_eq [] (c ∷ t) = false
text_eq (c ∷ s) [] = false
text_eq (c ∷ s) (e ∷ t) = (c == e) && text_eq s t

abbrev pub mem : List Text → Text → Bool
mem l t = any (λ s. text_eq s t) l

pub record SortParam : Type 0 where
  pub field : Text
  pub asc : Bool

pub data SortError : Type 0 where
  extra_forbidden duplicated : Text → SortError

pub data Parsed : Type 0 where
  sort_params : List SortParam → Parsed
  validation_error : List SortError → Parsed

abbrev pub comma : ℕ
comma = 44

abbrev with_first : ℕ → List Text → List Text
with_first c [] = (c ∷ []) ∷ []
with_first c (t ∷ ts) = (c ∷ t) ∷ ts

-- `text.split(",")`, which has at least one part
abbrev pub split : Text → List Text
split [] = [] ∷ []
split (c ∷ text) = let rest = split text in if c == comma then [] ∷ rest else with_first c rest

abbrev pub lstrip : (ℕ → Bool) → Text → Text
lstrip is_space [] = []
lstrip is_space (c ∷ text) =
    let rest = lstrip is_space text in if is_space c then rest else c ∷ text

abbrev pub reverse_onto : Text → Text → Text
reverse_onto [] acc = acc
reverse_onto (c ∷ text) acc = reverse_onto text (c ∷ acc)

abbrev pub strip : (ℕ → Bool) → Text → Text
strip is_space text = reverse_onto (lstrip is_space (reverse_onto (lstrip is_space text) [])) []

-- `-desc` and `-asc`
abbrev pub desc_suffix : Text
desc_suffix = 45 ∷ 100 ∷ 101 ∷ 115 ∷ 99 ∷ []

abbrev pub asc_suffix : Text
asc_suffix = 45 ∷ 97 ∷ 115 ∷ 99 ∷ []

-- `text.endswith(suffix)`
abbrev pub ends_with : Text → Text → Bool
ends_with suffix [] = text_eq suffix []
ends_with suffix (c ∷ text) =
    let rest = ends_with suffix text in if text_eq suffix (c ∷ text) then true else rest

-- What `REMOVE_SORT_SUFFIX_REGEX.sub("", text)` leaves of a text without an ending newline.
abbrev pub remove_suffix : Text → Text
remove_suffix [] = []
remove_suffix (c ∷ text) =
    let rest = remove_suffix text in
    if text_eq desc_suffix (c ∷ text)
    then []
    else if text_eq asc_suffix (c ∷ text)
    then []
    else c ∷ rest

abbrev pub entry : Text → SortParam
entry text = record { field = remove_suffix text; asc = not (ends_with desc_suffix text) }

abbrev pub field_names : List SortParam → List Text
field_names ps = map (λ p. p.field) ps

-- What has been collected: the parameters by name, in order, and the errors.
abbrev pub Collected : Type 0
Collected = List SortParam × List SortError

-- One turn of the loop.
abbrev pub step : List Text → SortParam → Collected → Collected
step fields e (params, errors) =
    if not (mem fields e.field)
    then (params, errors ++ extra_forbidden e.field ∷ [])
    else if mem (field_names params) e.field
    then (params, errors ++ duplicated e.field ∷ [])
    else (params ++ e ∷ [], errors)

abbrev pub collect : List Text → List SortParam → Collected → Collected
collect fields [] c = c
collect fields (e ∷ es) c = collect fields es (step fields e c)

abbrev pub outcome : Collected → Parsed
outcome (params, []) = sort_params params
outcome (params, e ∷ errors) = validation_error (e ∷ errors)

-- `__call__`
pub parse : (ℕ → Bool) → List Text → Option Text → Parsed
parse is_space fields none = sort_params []
parse is_space fields (some []) = sort_params []
parse is_space fields (some (c ∷ text)) =
    outcome (collect fields (map (λ t. entry (strip is_space t)) (split (c ∷ text))) ([], []))
