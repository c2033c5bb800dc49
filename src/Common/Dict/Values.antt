-- ===== src/Common/Dict/Values.antt =====
-- Dictionaries whose values hold their own keys, and the list of their values.
use mathlib.Core.Path.{◌≡◌, refl, ap}
use mathlib.Core.Logic.{inl, inr}
use mathlib.Core.Bool.{false}
use mathlib.Core.Option.{Option, none, some}
use mathlib.Core.List.{List, [], ◌∷◌, map}
use native.Mathlib.Omega.{arith}
use maas_site_manager.Common.Tests.{Bool-cases}
use maas_site_manager.Common.Lists.{select}
use maas_site_manager.Common.Dict.{Eq, get, assign, remove, has, IsDict, has_same}

module _ {V : Type 0} where
  abbrev pub to_list : Option V → List V
  to_list none = []
  to_list (some v) = v ∷ []

module _ {K V : Type 0} ⦃e : Eq K⦄ where
  -- The values of a dictionary that hold their own keys.
  module _ (key : V → K) where
    abbrev pub IsKeyed : List (K × V) → Type 0
    IsKeyed [] = Unit
    IsKeyed (r ∷ d) = (r.0 ≡ key r.1) × IsKeyed d

  module _ (key : V → K) where
    pub assign-IsKeyed :
        (v : V) (d : List (K × V)) → IsKeyed key d → IsKeyed key (assign (key v) v d)
    assign-IsKeyed v [] h = (refl, tt)
    assign-IsKeyed v (r ∷ d) h = elim (Bool-cases (e.eq r.0 (key v))) [
      | inl hit ↦ rw hit (e.same r.0 (key v) hit, h.1)
      | inr miss ↦ rw miss (h.0, assign-IsKeyed v d h.1)
    ]

    pub remove-IsKeyed : (k : K) (d : List (K × V)) → IsKeyed key d → IsKeyed key (remove k d)
    remove-IsKeyed k [] h = tt
    remove-IsKeyed k (r ∷ d) h = elim (Bool-cases (e.eq r.0 k)) [
      | inl hit ↦ rw hit (remove-IsKeyed k d h.1)
      | inr miss ↦ rw miss (h.0, remove-IsKeyed k d h.1)
    ]

    select_absent :
        (d : List (K × V)) (k : K)
        → IsKeyed key d
        → has d k ≡ false
        → select (λ v. e.eq (key v) k) (map (λ r. r.1) d) ≡ []
    select_absent [] k h a = refl
    select_absent (r ∷ d) k h a = ground (arith, select_absent d k h.1, ap (λ j. e.eq j k) h.0)

    -- Of the values at most one has a given key: the one that the dictionary has under it.
    pub select-values :
        (d : List (K × V)) (k : K)
        → IsDict d
        → IsKeyed key d
        → select (λ v. e.eq (key v) k) (map (λ r. r.1) d) ≡ to_list (get d k)
    select-values [] k u h = refl
    select-values (r ∷ d) k u h = elim (Bool-cases (e.eq r.0 k)) [
      | inl hit ↦
          let gone = select_absent d k h.1 (rw (← has_same r.0 k d hit) u.0) in
          ground (arith, gone, ap (λ j. e.eq j k) h.0)
      | inr miss ↦ ground (arith, select-values d k u.1 h.1, ap (λ j. e.eq j k) h.0)
    ]
