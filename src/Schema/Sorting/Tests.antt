-- ===== src/Schema/Sorting/Tests.antt =====
-- Sort parameters; only the space is stripped.
use maas_site_manager.Common.{ℕ, ◌≡◌, refl, Bool, true, false, some, List, [], ◌∷◌, ◌==◌}
use maas_site_manager.Schema.Sorting.{
  Text, SortParam, sort_params, validation_error, duplicated, parse,
}
use maas_site_manager.Schema.Sorting.Entries.{accepted, parse_lem}

abbrev is_space : ℕ → Bool
is_space c = c == 32

-- the fields `id` and `a`
abbrev fields : List Text
fields = (105 ∷ 100 ∷ []) ∷ (97 ∷ []) ∷ []

-- `a-desc, id`
abbrev query : Text
query = 97 ∷ 45 ∷ 100 ∷ 101 ∷ 115 ∷ 99 ∷ 44 ∷ 32 ∷ 105 ∷ 100 ∷ []

abbrev params : List SortParam
params =
    record { field = 97 ∷ []; asc = false } ∷ record { field = 105 ∷ 100 ∷ []; asc = true } ∷ []

parsed : parse is_space fields (some query) ≡ sort_params params
unfolding parse
parsed = refl

-- `a,a-asc`
repeated :
    parse is_space fields (some (97 ∷ 44 ∷ 97 ∷ 45 ∷ 97 ∷ 115 ∷ 99 ∷ []))
    ≡ validation_error (duplicated (97 ∷ []) ∷ [])
unfolding parse
repeated = refl

parse_lem_example : accepted (parse is_space fields (some query)) ≡ some params
parse_lem_example =
    parse_lem is_space fields 97 (45 ∷ 100 ∷ 101 ∷ 115 ∷ 99 ∷ 44 ∷ 32 ∷ 105 ∷ 100 ∷ [])
