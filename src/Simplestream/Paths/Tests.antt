-- ===== src/Simplestream/Paths/Tests.antt =====
-- Paths that are accepted and refused.
use maas_site_manager.Common.{◌≡◌, refl, true, false, none, some, [], ◌∷◌, ◌++◌}
use maas_site_manager.Simplestream.Paths.{
  Text, sep, dot, two_dots, contains_token, assert_safe_path,
}
use maas_site_manager.Simplestream.Paths.Components.{is_refused, assert_safe_path_lem}

-- `a/../b`
abbrev climbing : Text
climbing = 97 ∷ sep ∷ dot ∷ dot ∷ sep ∷ 98 ∷ []

climbing_refused :
    assert_safe_path (some climbing) ≡ some (contains_token (sep ∷ two_dots ++ sep ∷ []))
unfolding assert_safe_path
climbing_refused = refl

-- `a/..`: a reference to a parent at the end is not seen.
ending_accepted : assert_safe_path (some (97 ∷ sep ∷ dot ∷ dot ∷ [])) ≡ none
unfolding assert_safe_path
ending_accepted = refl

assert_safe_path_lem_example :
    (is_refused (assert_safe_path (some climbing)) ≡ true)
    × (is_refused (assert_safe_path none) ≡ false)
assert_safe_path_lem_example = assert_safe_path_lem climbing
