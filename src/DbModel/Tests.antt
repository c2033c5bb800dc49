-- ===== src/DbModel/Tests.antt =====
-- Settings as rows.
use maas_site_manager.Common.{ℕ, ◌≡◌, refl, String, false, Option, none, some, [], ◌∷◌, List}
use maas_site_manager.DbModel.{mem, names, value_of, update_values, get, ensure}
use maas_site_manager.DbModel.Laws.{ensure_lem, ensure-ensure}
use maas_site_manager.DbModel.Updates.{update_values_lem}
use maas_site_manager.DbModel.Refinement.{Event, updated, started, run, run-replay}

abbrev fields : List String
fields = "service_url" ∷ "token_lifetime" ∷ []

abbrev default : String → ℕ
default k = 7

abbrev table : List (String × ℕ)
table = ("old", 1) ∷ ("token_lifetime", 30) ∷ []

ensured : ensure fields default table ≡ ("token_lifetime", 30) ∷ ("service_url", 7) ∷ []
unfolding ensure
ensured = refl

abbrev changes : List (String × Option ℕ)
changes = ("token_lifetime", some 60) ∷ ("old", some 2) ∷ ("service_url", none) ∷ []

ensure_lem_example :
    (mem (names (ensure fields default table)) "old" ≡ false)
    × (value_of (ensure fields default table) "old" ≡ none)
ensure_lem_example = ensure_lem fields default table "old"

ensure-ensure_example :
    ensure fields default (ensure fields default table) ≡ ensure fields default table
ensure-ensure_example = ensure-ensure fields default table

update_values_lem_example : value_of (update_values fields changes table) "token_lifetime" ≡ some 60
update_values_lem_example = update_values_lem fields changes table "token_lifetime"

-- An update, a start and another update.
abbrev events : List (Event ℕ)
events = updated changes ∷ started ∷ updated (("service_url", some 8) ∷ []) ∷ []

run-replay_example :
    get fields default (run fields default events (ensure fields default table)) "token_lifetime"
    ≡ 60
unfolding get ensure
run-replay_example = run-replay fields default events table "token_lifetime" refl
