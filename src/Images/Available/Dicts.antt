-- ===== src/Images/Available/Dicts.antt =====
-- Keys, dictionaries built from a list, and differences of their key sets.
use maas_site_manager.Common.{
  ◌≡◌, refl, ap, sym, ◌∙◌, true, false, not, List, [], ◌∷◌, ◌++◌, map, ◌&&◌, ◌||◌, any, All, arith,
  Bool-cases, eq_refl, eq_iff, inl, inr,
}
use maas_site_manager.Common.Unique.{Unique}
use maas_site_manager.Images.Available.{Key, key_eq, Dict, assign, collect, keys, mem, difference}

pub key_eq_same : (j k : Key) → key_eq j k ≡ true → j ≡ k
key_eq_same j k h =
    let os : j.0 ≡ k.0 = ground (arith, eq_iff j.0 k.0) in
    let release : j.1.0 ≡ k.1.0 = ground (arith, eq_iff j.1.0 k.1.0) in
    let arch : j.1.1 ≡ k.1.1 = ground (arith, eq_iff j.1.1 k.1.1) in
    λ i. (os i, (release i, arch i))

pub key_eq_refl : (k : Key) → key_eq k k ≡ true
key_eq_refl k = rw (eq_refl k.0, eq_refl k.1.0, eq_refl k.1.1) refl

mem-same : (l : List Key) (j k : Key) → key_eq j k ≡ true → mem l j ≡ mem l k
mem-same l j k h = ap (mem l) (key_eq_same j k h)

key_eq-right : (h j k : Key) → key_eq j k ≡ true → key_eq h j ≡ key_eq h k
key_eq-right h j k same = ap (key_eq h) (key_eq_same j k same)

key_eq-left : (h j k : Key) → key_eq j k ≡ true → key_eq j h ≡ key_eq k h
key_eq-left h j k same = ap (λ x. key_eq x h) (key_eq_same j k same)

pub mem-difference :
    (l m : List Key) (k : Key) → mem (difference l m) k ≡ (mem l k && not (mem m k))
mem-difference [] m k = refl
mem-difference (j ∷ l) m k = elim (Bool-cases (key_eq j k)) [
  | inl hit ↦ ground (arith, mem-difference l m k, mem-same m j k hit)
  | inr miss ↦ ground (arith, mem-difference l m k)
]

module _ {V : Type 0} where
  mem-assign :
      (k j : Key) (v : V) (d : Dict V)
      → mem (keys (assign k v d)) j ≡ (mem (keys d) j || key_eq k j)
  mem-assign k j v [] = ground arith
  mem-assign k j v (e ∷ es) = elim (Bool-cases (key_eq e.0 k)) [
    | inl hit ↦ ground (arith, key_eq-left j e.0 k hit)
    | inr miss ↦ ground (arith, mem-assign k j v es)
  ]

  pub mem-collect :
      (key : V → Key) (d : Dict V) (l : List V) (j : Key)
      → mem (keys (collect key d l)) j ≡ (mem (keys d) j || any (λ p. key_eq (key p) j) l)
  mem-collect key d [] j = ground arith
  mem-collect key d (p ∷ l) j =
      ground (arith, mem-collect key (assign (key p) p d) l j, mem-assign (key p) j p d)

  Keyed-assign :
      (key : V → Key) (p : V) (d : Dict V)
      → All (λ e. key e.1 ≡ e.0) d
      → All (λ e. key e.1 ≡ e.0) (assign (key p) p d)
  Keyed-assign key p [] h = (refl, tt)
  Keyed-assign key p (e ∷ es) h = elim (Bool-cases (key_eq e.0 (key p))) [
    | inl hit ↦ rw hit (sym (key_eq_same e.0 (key p) hit), h.1)
    | inr miss ↦ rw miss (h.0, Keyed-assign key p es h.1)
  ]

  pub Keyed-collect :
      (key : V → Key) (d : Dict V) (l : List V)
      → All (λ e. key e.1 ≡ e.0) d
      → All (λ e. key e.1 ≡ e.0) (collect key d l)
  Keyed-collect key d [] h = h
  Keyed-collect key d (p ∷ l) h = Keyed-collect key (assign (key p) p d) l (Keyed-assign key p d h)

  assign_new :
      (k : Key) (v : V) (d : Dict V) → mem (keys d) k ≡ false → assign k v d ≡ d ++ (k, v) ∷ []
  assign_new k v [] h = refl
  assign_new k v (e ∷ es) h = elim (Bool-cases (key_eq e.0 k)) [
    | inl hit ↦ ground arith
    | inr miss ↦ rw miss (ap (◌∷◌ e) (assign_new k v es (ground arith)))
  ]

  append_assoc : (d : Dict V) (e : Key × V) (l : Dict V) → (d ++ e ∷ []) ++ l ≡ d ++ e ∷ l
  append_assoc [] e l = refl
  append_assoc (x ∷ d) e l = ap (◌∷◌ x) (append_assoc d e l)

  abbrev pub NewKeys : (V → Key) → Dict V → List V → Type 0
  NewKeys key d [] = Unit
  NewKeys key d (p ∷ l) = (mem (keys d) (key p) ≡ false) × NewKeys key d l

  still_new :
      (key : V → Key) (p : V) (d : Dict V) (l : List V)
      → any (λ y. key_eq (key y) (key p)) l ≡ false
      → NewKeys key d l
      → NewKeys key (assign (key p) p d) l
  still_new key p d [] h new = tt
  still_new key p d (q ∷ l) h new = elim (Bool-cases (key_eq (key p) (key q))) [
    | inl hit ↦ ground (arith, key_eq-left (key p) (key p) (key q) hit, key_eq_refl (key p))
    | inr miss ↦ (
      ground (arith, mem-assign (key p) (key q) p d, new.0),
      still_new key p d l (ground arith) new.1,
    )
  ]

  pub empty-NewKeys : (key : V → Key) (l : List V) → NewKeys key [] l
  empty-NewKeys key [] = tt
  empty-NewKeys key (p ∷ l) = (refl, empty-NewKeys key l)

  append_nil : (d : Dict V) → d ≡ d ++ []
  append_nil [] = refl
  append_nil (e ∷ d) = ap (◌∷◌ e) (append_nil d)

  -- Items with distinct keys all stay, in their order.
  pub collect-Unique :
      (key : V → Key) (d : Dict V) (l : List V)
      → Unique key_eq key l
      → NewKeys key d l
      → collect key d l ≡ d ++ map (λ p. (key p, p)) l
  collect-Unique key d [] u new = append_nil d
  collect-Unique key d (p ∷ l) u new =
      collect-Unique key (assign (key p) p d) l u.1 (still_new key p d l u.0 new.1)
      ∙ rw (assign_new (key p) p d new.0) (append_assoc d (key p, p) (map (λ q. (key q, q)) l))
