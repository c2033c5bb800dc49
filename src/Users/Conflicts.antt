-- ===== src/Users/Conflicts.antt =====
-- `exists` of service/user.py and `check_for_existing_user` against a description of a conflict.
use maas_site_manager.Common.{
  ℕ, ◌≡◌, refl, ap, sym, ◌∙◌, String, Bool, true, false, Option, none, some, List, [], ◌∷◌, ◌&&◌,
  ◌||◌, not, select, any, arith, Bool-cases, inl, inr, str_eq, fun_ext,
}
use maas_site_manager.Users.Tables.{UserRow, is_value}
use maas_site_manager.Users.Service.{
  truthy, user_filter, is_other, conflicting, conflicts_of, reported,
}
use maas_site_manager.Users.Handlers.{has_details}

abbrev pub is_blank : Option String → Bool
is_blank none = false
is_blank (some s) = str_eq s ""

abbrev pub conflicts : Option ℕ → Option String → Option String → UserRow → Bool
conflicts ex e n r = is_other ex r && (is_value e r.email || is_value n r.username)

named :
    (e n : Option String) (r : UserRow)
    → user_filter e n r ≡ true
    → has_details (some (conflicting e n r)) ≡ true
named e n r h = elim (Bool-cases (is_value e r.email)) [
  | inl hit ↦ rw hit refl
  | inr miss ↦ elim (Bool-cases (is_value n r.username)) [
    | inl hit ↦ rw (miss, hit) refl
    | inr other ↦ ground arith
  ]
]

first_conflict :
    (e n : Option String) (q : UserRow → Bool) (rows : List UserRow)
    → has_details (conflicts_of e n (select (λ r. user_filter e n r && q r) rows))
      ≡ any (λ r. user_filter e n r && q r) rows
first_conflict e n q [] = refl
first_conflict e n q (r ∷ rows) = elim (Bool-cases (user_filter e n r && q r)) [
  | inl hit ↦ rw hit (named e n r (ground arith))
  | inr miss ↦ rw miss (first_conflict e n q rows)
]

filter_lem :
    (e n : Option String) (r : UserRow)
    → is_blank e ≡ false
    → is_blank n ≡ false
    → (truthy e || truthy n) ≡ true
    → user_filter e n r ≡ (is_value e r.email || is_value n r.username)
filter_lem none none r he hn some_ = ground arith
filter_lem none (some n) r he hn some_ = ground arith
filter_lem (some e) none r he hn some_ = ground arith
filter_lem (some e) (some n) r he hn some_ = ground arith

any-same :
    (p q : UserRow → Bool) (rows : List UserRow)
    → ((r : UserRow) → p r ≡ q r)
    → any p rows ≡ any q rows
any-same p q rows h = ap (λ t. any t rows) (fun_ext h)

no_conflict :
    (e n : Option String) (ex : Option ℕ) (rows : List UserRow)
    → is_blank e ≡ false
    → is_blank n ≡ false
    → (truthy e || truthy n) ≡ false
    → any (conflicts ex e n) rows ≡ false
no_conflict e n ex [] he hn h = refl
no_conflict none none ex (r ∷ rows) he hn h = ground (arith, no_conflict none none ex rows he hn h)
no_conflict none (some n) ex (r ∷ rows) he hn h = ground arith
no_conflict (some e) n ex (r ∷ rows) he hn h = ground arith

pub reported_lem :
    (e n : Option String) (ex : Option ℕ) (rows : List UserRow)
    → is_blank e ≡ false
    → is_blank n ≡ false
    → has_details (reported e n (select (λ r. user_filter e n r && is_other ex r) rows))
      ≡ any (conflicts ex e n) rows
reported_lem e n ex rows he hn = elim (Bool-cases (truthy e || truthy n)) [
  | inl asked ↦
      let used : (not (truthy e) && not (truthy n)) ≡ false = ground arith in
      rw used (
        first_conflict e n (is_other ex) rows
        ∙ any-same (λ r. user_filter e n r && is_other ex r) (conflicts ex e n) rows
            (λ r. ground (arith, filter_lem e n r he hn asked)))
  | inr idle ↦
      let used : (not (truthy e) && not (truthy n)) ≡ true = ground arith in
      rw used (sym (no_conflict e n ex rows he hn idle))
]
