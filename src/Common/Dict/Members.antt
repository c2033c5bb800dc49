-- ===== src/Common/Dict/Members.antt =====
-- What holds of the entries of a dictionary, and the list of its keys.
use mathlib.Core.Path.{◌≡◌, refl, sym, subst}
use mathlib.Core.Logic.{inl, inr}
use mathlib.Core.Bool.{true}
use mathlib.Core.Option.{some}
use mathlib.Core.List.{List, [], ◌∷◌, ◌++◌, map}
use native.Mathlib.Omega.{arith}
use maas_site_manager.Common.Tests.{Bool-cases, if◌then◌else◌}
use maas_site_manager.Common.Lists.{any, All}
use maas_site_manager.Common.Dict.{Eq, get, assign, has}

module _ {K : Type 0} ⦃e : Eq K⦄ where
  -- A member that a set gets, and those of a list.
  abbrev pub add : List K → K → List K
  add s k = if any (λ j. e.eq j k) s then s else s ++ k ∷ []

  abbrev pub add_all : List K → List K → List K
  add_all s [] = s
  add_all s (k ∷ ks) = add_all (add s k) ks

module _ {K V : Type 0} ⦃e : Eq K⦄ where
  pub get_there : (d : List (K × V)) (k : K) → has d k ≡ true → (v : V) × (get d k ≡ some v)
  get_there [] k h = cc
  get_there (r ∷ d) k h = elim (Bool-cases (e.eq r.0 k)) [
    | inl hit ↦ (r.1, rw hit refl)
    | inr miss ↦ let rest = get_there d k (ground (arith, h, miss)) in (rest.0, rw miss rest.1)
  ]

  pub All-get :
      (P : K → V → Type 0) (d : List (K × V)) (k : K) (v : V)
      → All (λ r. P r.0 r.1) d
      → get d k ≡ some v
      → P k v
  All-get P [] k v a h = cc
  All-get P (r ∷ d) k v a h = elim (Bool-cases (e.eq r.0 k)) [
    | inl hit ↦
        let value : r.1 ≡ v = ground (arith, h, hit) in
        subst (λ w. P k w) value (subst (λ j. P j r.1) (e.same r.0 k hit) a.0)
    | inr miss ↦ All-get P d k v a.1 (ground (arith, h, miss))
  ]

  pub All-assign :
      (P : K → V → Type 0) (k : K) (v : V) (d : List (K × V))
      → P k v
      → All (λ r. P r.0 r.1) d
      → All (λ r. P r.0 r.1) (assign k v d)
  All-assign P k v [] p a = (p, tt)
  All-assign P k v (r ∷ d) p a = elim (Bool-cases (e.eq r.0 k)) [
    | inl hit ↦ rw hit (subst (λ j. P j v) (sym (e.same r.0 k hit)) p, a.1)
    | inr miss ↦ rw miss (a.0, All-assign P k v d p a.1)
  ]

  pub has-assign : (k : K) (v : V) (d : List (K × V)) → has (assign k v d) k ≡ true
  has-assign k v [] = ground (arith, e.self k)
  has-assign k v (r ∷ d) = ground (arith, has-assign k v d)

  has-keys : (d : List (K × V)) (k : K) → any (λ j. e.eq j k) (map (λ r. r.0) d) ≡ has d k
  has-keys [] k = refl
  has-keys (r ∷ d) k = ground (arith, has-keys d k)

  -- An assignment adds its key to the keys.
  pub keys-assign :
      (k : K) (v : V) (d : List (K × V)) → map (λ r. r.0) (assign k v d) ≡ add (map (λ r. r.0) d) k
  keys-assign k v [] = refl
  keys-assign k v (r ∷ d) = ground (arith, keys-assign k v d)
