-- ===== src/DbModel/Laws.antt =====
-- What `ensure` and `update` leave, read by name and by `get`.
use maas_site_manager.Common.{
  ◌≡◌, refl, ap, sym, ◌∙◌, String, Bool, true, false, Option, none, some, List, [], ◌∷◌, ◌++◌, ◌&&◌,
  ◌||◌, not, select, All, arith, if◌then◌else◌, str_eq, eq_refl, Bool-cases, inl, inr,
}
use maas_site_manager.Common.Rows.{delete, All-map, All-delete}
use maas_site_manager.DbModel.{
  mem, names, or_else, value_of, default_values, missing_keys, extra_keys, ensure,
}
use maas_site_manager.DbModel.Keys.{
  mem-delete, value_of-append, value_of-select, later_or, is_some, mem-value_of, value_of-default,
  str_same,
}

mem_self : (l : List String) → All (λ k. mem l k ≡ true) l
mem_self [] = tt
mem_self (k ∷ l) = (
  rw (eq_refl k) refl,
  All-map (λ j. mem l j ≡ true) (λ j. mem (k ∷ l) j ≡ true) l (λ j h. ground arith) (mem_self l),
)

delete_every : (p : String → Bool) (l : List String) → All (λ k. p k ≡ true) l → delete p l ≡ []
delete_every p [] h = refl
delete_every p (k ∷ l) h = ground (arith, h.0, delete_every p l h.1)

module _ {V : Type 0} where
  names_self : (t : List (String × V)) → All (λ r. mem (names t) r.0 ≡ true) t
  names_self [] = tt
  names_self (r ∷ t) = (
    rw (eq_refl r.0) refl,
    All-map (λ s. mem (names t) s.0 ≡ true) (λ s. mem (names (r ∷ t)) s.0 ≡ true) t
        (λ s h. ground arith) (names_self t),
  )

  delete-select :
      (p q : String × V → Bool) (t : List (String × V))
      → All (λ r. p r ≡ not (q r)) t
      → delete p t ≡ select q t
  delete-select p q [] h = refl
  delete-select p q (r ∷ t) h = ground (arith, h.0, delete-select p q t h.1)

  select_every :
      (p : String × V → Bool) (t : List (String × V)) → All (λ r. p r ≡ true) t → select p t ≡ t
  select_every p [] h = refl
  select_every p (r ∷ t) h = rw (h.0, select_every p t h.1) refl

  append_nil : (t : List (String × V)) → t ++ [] ≡ t
  append_nil [] = refl
  append_nil (r ∷ t) = ap (◌∷◌ r) (append_nil t)

  delete-append :
      (p : String × V → Bool) (s t : List (String × V))
      → delete p (s ++ t) ≡ delete p s ++ delete p t
  delete-append p [] t = refl
  delete-append p (r ∷ s) t = ground (arith, delete-append p s t)

  default_values-kept :
      (default : String → V) (p : String → Bool) (ks : List String)
      → All (λ k. p k ≡ false) ks
      → delete (λ r. p r.0) (default_values default ks) ≡ default_values default ks
  default_values-kept default p [] h = refl
  default_values-kept default p (k ∷ ks) h =
      ground (arith, h.0, default_values-kept default p ks h.1)

  mem-append :
      (s t : List (String × V)) (k : String)
      → mem (names (s ++ t)) k ≡ (mem (names s) k || mem (names t) k)
  mem-append [] t k = refl
  mem-append (r ∷ s) t k = ground (arith, mem-append s t k)

  mem-select :
      (valid : List String) (t : List (String × V)) (k : String)
      → mem (names (select (λ r. mem valid r.0) t)) k ≡ (mem (names t) k && mem valid k)
  mem-select valid [] k = refl
  mem-select valid (r ∷ t) k = elim (Bool-cases (str_eq r.0 k)) [
    | inl hit ↦ ground (arith, mem-select valid t k, ap (mem valid) (str_same r.0 k hit))
    | inr miss ↦ ground (arith, mem-select valid t k)
  ]

  mem-default_values :
      (default : String → V) (ks : List String) (k : String)
      → mem (names (default_values default ks)) k ≡ mem ks k
  mem-default_values default [] k = refl
  mem-default_values default (j ∷ ks) k = ground (arith, mem-default_values default ks k)

module _ {V : Type 0} (valid : List String) (default : String → V) where
  -- The rows of unknown names go, the missing ones are added at the end.
  ensure-append :
      (t : List (String × V))
      → ensure valid default t
        ≡ select (λ r. mem valid r.0) t ++ default_values default (missing_keys valid t)
  unfolding ensure
  ensure-append t =
      let extra = mem (extra_keys valid t) in
      let gone =
        delete-select (λ r. extra r.0) (λ r. mem valid r.0) t
          (All-map (λ r. mem (names t) r.0 ≡ true) (λ r. extra r.0 ≡ not (mem valid r.0)) t
            (λ r h. ground (arith, mem-delete (names t) valid r.0)) (names_self t)) in
      let kept = default_values-kept default extra (missing_keys valid t) (
        All-delete (λ k. extra k ≡ false) (mem (names t)) valid
          (All-map (λ k. mem valid k ≡ true) (λ k. extra k ≡ false) valid
            (λ k h. ground (arith, mem-delete (names t) valid k)) (mem_self valid))) in
      delete-append (λ r. extra r.0) t (default_values default (missing_keys valid t))
      ∙ rw (gone, kept) refl

  -- What the defaults and the known rows give for a name.
  join_values :
      (b : Bool) (o : Option V) (v : V)
      → later_or (if b && not (is_some o) then some v else none) (if b then o else none)
        ≡ (if b then some (or_else o v) else none)
  join_values false o v = refl
  join_values true none v = refl
  join_values true (some w) v = refl

  -- After `ensure` the table has exactly the names of the model, each value that was there under such a
  -- name is kept, and a name that had none has its default.
  pub ensure_lem :
      (t : List (String × V)) (k : String)
      → (mem (names (ensure valid default t)) k ≡ mem valid k)
        × (value_of (ensure valid default t) k
            ≡ (if mem valid k then some (or_else (value_of t k) (default k)) else none))
  ensure_lem t k = (
    rw (ensure-append t) (
        mem-append (select (λ r. mem valid r.0) t) (default_values default (missing_keys valid t)) k
        ∙ rw
            (
              mem-select valid t k,
              mem-default_values default (missing_keys valid t) k,
              mem-delete valid (names t) k,
            )
            (ground arith)),
    rw (ensure-append t) (
        value_of-append (select (λ r. mem valid r.0) t)
          (default_values default (missing_keys valid t)) k
        ∙ rw
            (
              value_of-select valid t k,
              value_of-default default (missing_keys valid t) k,
              mem-delete valid (names t) k,
            )
            (rw (mem-value_of t k) (join_values (mem valid k) (value_of t k) (default k)))),
  )

  nothing_missing :
      (t : List (String × V))
      → ((k : String) → mem (names t) k ≡ mem valid k)
      → missing_keys valid t ≡ []
  nothing_missing t same = delete_every (mem (names t)) valid (
      All-map (λ k. mem valid k ≡ true) (λ k. mem (names t) k ≡ true) valid (λ k h. same k ∙ h)
        (mem_self valid))

  -- `ensure` changes nothing in a table that it has been applied to.
  pub ensure-ensure :
      (t : List (String × V))
      → ensure valid default (ensure valid default t) ≡ ensure valid default t
  ensure-ensure t =
      let same = λ (k : String). (ensure_lem t k).0 in
      ensure-append (ensure valid default t)
      ∙ rw (nothing_missing (ensure valid default t) same) (
          append_nil (select (λ r. mem valid r.0) (ensure valid default t))
          ∙ select_every (λ r. mem valid r.0) (ensure valid default t)
              (All-map (λ r. mem (names (ensure valid default t)) r.0 ≡ true)
                (λ r. mem valid r.0 ≡ true) (ensure valid default t) (λ r h. sym (same r.0) ∙ h)
                (names_self (ensure valid default t))))
