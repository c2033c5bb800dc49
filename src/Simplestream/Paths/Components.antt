-- ===== src/Simplestream/Paths/Components.antt =====
-- The check of temporal/management/utils.py against the components of the path.
use maas_site_manager.Common.{
  ℕ, ◌≡◌, ◌∙◌, refl, ap, Bool, true, false, not, Option, none, some, List, [], ◌∷◌, ◌++◌, ◌==◌,
  ◌&&◌, ◌||◌, any, arith, if◌then◌else◌, Bool-cases, inl, inr,
}
use maas_site_manager.Simplestream.Paths.{
  Text, sep, starts_with, contains, isabs, two_dots, three_dots, UnsafeFilePath, is_absolute,
  starts_with_token, contains_token, assert_safe_path,
}

abbrev pub text_eq : Text → Text → Bool
text_eq [] [] = true
text_eq [] (c ∷ t) = false
text_eq (c ∷ s) [] = false
text_eq (c ∷ s) (e ∷ t) = (c == e) && text_eq s t

abbrev pub with_first : ℕ → List Text → List Text
with_first c [] = []
with_first c (d ∷ ds) = (c ∷ d) ∷ ds

-- The components that a separator follows: all but the last.
abbrev pub directories : Text → List Text
directories [] = []
directories (c ∷ path) =
    let rest = directories path in if c == sep then [] ∷ rest else with_first c rest

abbrev pub is_parent : Text → Bool
is_parent d = text_eq two_dots d || text_eq three_dots d

abbrev first_is : Text → List Text → Bool
first_is x [] = false
first_is x (d ∷ ds) = text_eq x d

abbrev rest_has : Text → List Text → Bool
rest_has x [] = false
rest_has x (d ∷ ds) = any (text_eq x) ds

abbrev no_sep : Text → Bool
no_sep x = not (any (λ c. c == sep) x)

first-none : (c : ℕ) (ds : List Text) → first_is [] (with_first c ds) ≡ false
first-none c [] = refl
first-none c (d ∷ ds) = refl

first-some :
    (y c : ℕ) (x : Text) (ds : List Text)
    → first_is (y ∷ x) (with_first c ds) ≡ ((y == c) && first_is x ds)
first-some y c x [] = ground arith
first-some y c x (d ∷ ds) = refl

rest-with_first : (c : ℕ) (x : Text) (ds : List Text) → rest_has x (with_first c ds) ≡ rest_has x ds
rest-with_first c x [] = refl
rest-with_first c x (d ∷ ds) = refl

any-first : (x : Text) (ds : List Text) → any (text_eq x) ds ≡ (first_is x ds || rest_has x ds)
any-first x [] = refl
any-first x (d ∷ ds) = ground arith

-- A path starts with a name and a separator if the name is its first component.
starts_lem :
    (x path : Text)
    → no_sep x ≡ true
    → starts_with (x ++ sep ∷ []) path ≡ first_is x (directories path)
starts_lem [] [] h = refl
starts_lem [] (c ∷ path) h = elim (Bool-cases (c == sep)) [
  | inl slash ↦ rw slash (ground arith)
  | inr other ↦ rw other (ground (arith, first-none c (directories path)))
]
starts_lem (y ∷ x) [] h = refl
starts_lem (y ∷ x) (c ∷ path) h = elim (Bool-cases (c == sep)) [
  | inl slash ↦ rw slash (ground arith)
  | inr other ↦
      rw other
        (ground (arith, first-some y c x (directories path), starts_lem x path (ground arith)))
]

-- It contains a name between separators if a later component is the name.
contains_lem :
    (x path : Text)
    → no_sep x ≡ true
    → contains (sep ∷ x ++ sep ∷ []) path ≡ rest_has x (directories path)
contains_lem x [] h = refl
contains_lem x (c ∷ path) h = elim (Bool-cases (c == sep)) [
  | inl slash ↦
      rw slash
        (ground (arith, starts_lem x path h, contains_lem x path h, any-first x (directories path)))
  | inr other ↦
      rw other (ground (arith, rest-with_first c x (directories path), contains_lem x path h))
]

any-parents :
    (ds : List Text) → any is_parent ds ≡ (any (text_eq two_dots) ds || any (text_eq three_dots) ds)
any-parents [] = refl
any-parents (d ∷ ds) = ground (arith, any-parents ds)

abbrev pub is_refused : {A : Type 0} → Option A → Bool
is_refused none = false
is_refused (some reason) = true

-- The tests one after the other refuse exactly if one of them does.
decision :
    (a s t u v : Bool) (p q r w z : UnsafeFilePath)
    → is_refused (
        if a
        then some p
        else elim (if s then some q else (if t then some r else none))
            as (λ x. Option UnsafeFilePath) [
              | some x ↦ some x
              | none ↦ if u then some w else (if v then some z else none)
            ])
      ≡ (a || ((s || t) || (u || v)))
decision true s t u v p q r w z = refl
decision false true t u v p q r w z = refl
decision false false true u v p q r w z = refl
decision false false false true v p q r w z = refl
decision false false false false true p q r w z = refl
decision false false false false false p q r w z = refl

shuffle : (a b c d : Bool) → ((a || b) || (c || d)) ≡ ((a || c) || (b || d))
shuffle a b c d = ground arith

parents_lem :
    (path : Text)
    → ((starts_with (two_dots ++ sep ∷ []) path || starts_with (three_dots ++ sep ∷ []) path)
        || (contains (sep ∷ two_dots ++ sep ∷ []) path
            || contains (sep ∷ three_dots ++ sep ∷ []) path))
      ≡ any is_parent (directories path)
parents_lem path =
    let ds = directories path in
    rw
      (
        starts_lem two_dots path refl,
        starts_lem three_dots path refl,
        contains_lem two_dots path refl,
        contains_lem three_dots path refl,
      )
      (rw (any-parents ds, any-first two_dots ds, any-first three_dots ds)
        (shuffle (first_is two_dots ds) (first_is three_dots ds) (rest_has two_dots ds)
          (rest_has three_dots ds)))

-- A path is refused exactly if it is absolute, or if one of its components before the last is `..` or
-- `...`; no path and the empty path are accepted.
pub assert_safe_path_lem :
    (path : Text)
    → (is_refused (assert_safe_path (some path)) ≡ (isabs path || any is_parent (directories path)))
      × (is_refused (assert_safe_path none) ≡ false)
unfolding assert_safe_path
assert_safe_path_lem [] = (refl, refl)
assert_safe_path_lem (c ∷ path) =
    let p : Text = c ∷ path in
    (
      decision (isabs p) (starts_with (two_dots ++ sep ∷ []) p)
            (starts_with (three_dots ++ sep ∷ []) p) (contains (sep ∷ two_dots ++ sep ∷ []) p)
            (contains (sep ∷ three_dots ++ sep ∷ []) p) is_absolute
            (starts_with_token (two_dots ++ sep ∷ [])) (starts_with_token (three_dots ++ sep ∷ []))
            (contains_token (sep ∷ two_dots ++ sep ∷ []))
            (contains_token (sep ∷ three_dots ++ sep ∷ []))
          ∙ ap (λ b. isabs p || b) (parents_lem p),
      refl,
    )
