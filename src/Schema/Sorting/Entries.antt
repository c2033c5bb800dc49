-- ===== src/Schema/Sorting/Entries.antt =====
-- The parser of schema/sorting.py against a description of the lists that it accepts.
use maas_site_manager.Common.{
  ℕ, ◌≡◌, ◌∙◌, refl, ap, Bool, true, false, not, Option, none, some, List, [], ◌∷◌, ◌++◌, map, ◌&&◌,
  ◌||◌, any, arith, if◌then◌else◌, Bool-cases, inl, inr,
}
use maas_site_manager.Schema.Sorting.{
  Text, text_eq, mem, SortParam, SortError, extra_forbidden, duplicated, Parsed, Collected,
  sort_params, validation_error, split, strip, entry, field_names, step, collect, outcome, parse,
}

abbrev pub all_known : List Text → List SortParam → Bool
all_known fields [] = true
all_known fields (e ∷ es) = mem fields e.field && all_known fields es

abbrev pub distinct : List Text → Bool
distinct [] = true
distinct (n ∷ ns) = not (mem ns n) && distinct ns

-- The names of the second list that the first has.
abbrev overlap : List SortParam → List SortParam → Bool
overlap ps es = any (λ e. mem (field_names ps) e.field) es

abbrev none_left : List SortError → Bool
none_left [] = true
none_left (e ∷ es) = false

text_eq_symm : (s t : Text) → text_eq s t ≡ text_eq t s
text_eq_symm [] [] = refl
text_eq_symm [] (c ∷ t) = refl
text_eq_symm (c ∷ s) [] = refl
text_eq_symm (c ∷ s) (e ∷ t) = ground (arith, text_eq_symm s t)

none_left-append : (es : List SortError) (e : SortError) → none_left (es ++ e ∷ []) ≡ false
none_left-append [] e = refl
none_left-append (x ∷ es) e = refl

mem-append :
    (ps : List SortParam) (e : SortParam) (n : Text)
    → mem (field_names (ps ++ e ∷ [])) n ≡ (mem (field_names ps) n || text_eq e.field n)
mem-append [] e n = ground arith
mem-append (p ∷ ps) e n = ground (arith, mem-append ps e n)

overlap-append :
    (ps : List SortParam) (e : SortParam) (es : List SortParam)
    → overlap (ps ++ e ∷ []) es ≡ (overlap ps es || mem (field_names es) e.field)
overlap-append ps e [] = refl
overlap-append ps e (x ∷ es) =
    ground (arith, overlap-append ps e es, mem-append ps e x.field, text_eq_symm e.field x.field)

abbrev fits : List Text → List SortParam → List SortParam → Bool
fits fields ps es = all_known fields es && (distinct (field_names es) && not (overlap ps es))

module _ (fields : List Text) (e : SortParam) (ps : List SortParam) (errors : List SortError) where
  step-unknown :
      mem fields e.field ≡ false
      → step fields e (ps, errors) ≡ (ps, errors ++ extra_forbidden e.field ∷ [])
  step-unknown h = rw h refl

  step-again :
      mem fields e.field ≡ true
      → mem (field_names ps) e.field ≡ true
      → step fields e (ps, errors) ≡ (ps, errors ++ duplicated e.field ∷ [])
  step-again h k = rw h (rw k refl)

  step-new :
      mem fields e.field ≡ true
      → mem (field_names ps) e.field ≡ false
      → step fields e (ps, errors) ≡ (ps ++ e ∷ [], errors)
  step-new h k = rw h (rw k refl)

-- No error is collected exactly if every name is known and none is there twice.
collect_errors :
    (fields : List Text) (es ps : List SortParam) (errors : List SortError)
    → none_left (collect fields es (ps, errors)).1 ≡ (none_left errors && fits fields ps es)
collect_errors fields [] ps errors = ground arith
collect_errors fields (e ∷ es) ps errors =
    let left = λ (c : Collected). none_left (collect fields es c).1 in
    elim (Bool-cases (mem fields e.field)) [
      | inr unknown ↦
          ap left (step-unknown fields e ps errors unknown)
          ∙ collect_errors fields es ps (errors ++ extra_forbidden e.field ∷ [])
          ∙ ground (arith, none_left-append errors (extra_forbidden e.field))
      | inl known ↦ elim (Bool-cases (mem (field_names ps) e.field)) [
        | inl again ↦
            ap left (step-again fields e ps errors known again)
            ∙ collect_errors fields es ps (errors ++ duplicated e.field ∷ [])
            ∙ ground (arith, none_left-append errors (duplicated e.field))
        | inr new ↦
            ap left (step-new fields e ps errors known new)
            ∙ collect_errors fields es (ps ++ e ∷ []) errors
            ∙ ground (arith, overlap-append ps e es)
      ]
    ]

append_assoc :
    (ps : List SortParam) (e : SortParam) (es : List SortParam)
    → (ps ++ e ∷ []) ++ es ≡ ps ++ e ∷ es
append_assoc [] e es = refl
append_assoc (p ∷ ps) e es = ap (◌∷◌ p) (append_assoc ps e es)

append_nil : (ps : List SortParam) → ps ≡ ps ++ []
append_nil [] = refl
append_nil (p ∷ ps) = ap (◌∷◌ p) (append_nil ps)

collect_params :
    (fields : List Text) (es ps : List SortParam) (errors : List SortError)
    → fits fields ps es ≡ true
    → (collect fields es (ps, errors)).0 ≡ ps ++ es
collect_params fields [] ps errors h = append_nil ps
collect_params fields (e ∷ es) ps errors h =
    let known : mem fields e.field ≡ true = ground arith in
    let new : mem (field_names ps) e.field ≡ false = ground arith in
    ap (λ c. (collect fields es c).0) (step-new fields e ps errors known new)
    ∙ collect_params fields es (ps ++ e ∷ []) errors (ground (arith, overlap-append ps e es))
    ∙ append_assoc ps e es

abbrev pub accepted : Parsed → Option (List SortParam)
accepted (sort_params ps) = some ps
accepted (validation_error es) = none

outcome_lem : (c : Collected) → accepted (outcome c) ≡ (if none_left c.1 then some c.0 else none)
outcome_lem (ps, []) = refl
outcome_lem (ps, e ∷ es) = refl

no_overlap : (es : List SortParam) → overlap [] es ≡ false
no_overlap [] = refl
no_overlap (e ∷ es) = no_overlap es

abbrev pub parts : (ℕ → Bool) → Text → List SortParam
parts is_space text = map (λ t. entry (strip is_space t)) (split text)

-- A `sort_by` parameter that is not empty is accepted exactly if each of its parts names a known field and
-- no two parts name the same; then the answer is its parts, in their order, each with its direction.
pub parse_lem :
    (is_space : ℕ → Bool) (fields : List Text) (c : ℕ) (text : Text)
    → accepted (parse is_space fields (some (c ∷ text))) ≡ (
        if all_known fields (parts is_space (c ∷ text))
          && distinct (field_names (parts is_space (c ∷ text)))
        then some (parts is_space (c ∷ text))
        else none)
unfolding parse
parse_lem is_space fields c text =
    let es = parts is_space (c ∷ text) in
    outcome_lem (collect fields es ([], [])) ∙ elim (Bool-cases (fits fields [] es)) [
      | inl fit ↦
          let both : (all_known fields es && distinct (field_names es)) ≡ true =
            ground (arith, no_overlap es) in
          rw (collect_errors fields es [] [])
            (rw (fit, both) (ap some (collect_params fields es [] [] fit)))
      | inr unfit ↦
          let both : (all_known fields es && distinct (field_names es)) ≡ false =
            ground (arith, no_overlap es) in
          rw (collect_errors fields es [] []) (rw (unfit, both) refl)
    ]
