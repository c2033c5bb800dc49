-- ===== src/Simplestream/Paths.antt =====
-- `assert_safe_path` of backend/msm/temporal/management/utils.py, on a POSIX system. A string is the
-- list of its code points.
pub mod Components
mod Tests
use maas_site_manager.Common.{
  ℕ, Bool, true, false, Option, none, some, List, [], ◌∷◌, ◌++◌, ◌==◌, ◌&&◌, ◌||◌, if◌then◌else◌,
}

abbrev pub Text : Type 0
Text = List ℕ

-- `os.path.sep`
abbrev pub sep : ℕ
sep = 47

abbrev pub dot : ℕ
dot = 46

-- `path.startswith(tok)`
abbrev pub starts_with : Text → Text → Bool
starts_with [] path = true
starts_with (t ∷ tok) [] = false
starts_with (t ∷ tok) (c ∷ path) = (t == c) && starts_with tok path

-- `tok in path`
abbrev pub contains : Text → Text → Bool
contains tok [] = starts_with tok []
contains tok (c ∷ path) = starts_with tok (c ∷ path) || contains tok path

-- Why a path is refused, with the token that is named in the message.
pub data UnsafeFilePath : Type 0 where
  is_absolute : UnsafeFilePath
  starts_with_token contains_token : Text → UnsafeFilePath

abbrev pub isabs : Text → Bool
isabs path = starts_with (sep ∷ []) path

abbrev pub check_starts : List Text → Text → Option UnsafeFilePath
check_starts [] path = none
check_starts (tok ∷ toks) path =
    let rest = check_starts toks path in
    if starts_with tok path then some (starts_with_token tok) else rest

abbrev pub check_contains : List Text → Text → Option UnsafeFilePath
check_contains [] path = none
check_contains (tok ∷ toks) path =
    let rest = check_contains toks path in
    if contains tok path then some (contains_token tok) else rest

abbrev pub two_dots : Text
two_dots = dot ∷ dot ∷ []

abbrev pub three_dots : Text
three_dots = dot ∷ dot ∷ dot ∷ []

-- The exception that is raised, or none.
pub assert_safe_path : Option Text → Option UnsafeFilePath
assert_safe_path none = none
assert_safe_path (some []) = none
assert_safe_path (some (c ∷ path)) =
    if isabs (c ∷ path)
    then some is_absolute
    else elim (check_starts ((two_dots ++ sep ∷ []) ∷ (three_dots ++ sep ∷ []) ∷ []) (c ∷ path)) [
      | some reason ↦ some reason
      | none ↦
          check_contains ((sep ∷ two_dots ++ sep ∷ []) ∷ (sep ∷ three_dots ++ sep ∷ []) ∷ [])
            (c ∷ path)
    ]
