-- ===== src/Images/Retention/Pops.antt =====
-- The first phase of `remove_stale_versions`: the dictionaries without the versions that are gone
-- upstream.
use maas_site_manager.Common.{
  ℕ, suc, ◌≡◌, refl, ap, sym, ◌∙◌, String, Bool, false, Option, none, some, List, [], ◌∷◌, ◌++◌,
  map, select, any, All, arith, Bool-cases, str_eq, eq_refl, eq_iff, inl, inr,
}
use maas_site_manager.Common.Rows.{delete}
use maas_site_manager.Common.Unique.{Unique}
use maas_site_manager.Images.Retention.{
  Entry, AssetVersions, Version, is_old, names, of_id, removed_from_up, bind, pop, pop_at, pop_each,
}

-- The keys of a dictionary are distinct.
abbrev pub IsDict : AssetVersions → Type 0
IsDict av = Unique str_eq (λ (e : Entry). e.0) av.versions

abbrev pop_list : List String → List Entry → Option (List Entry)
pop_list [] l = some l
pop_list (k ∷ ks) l = bind (pop k l) (pop_list ks)

abbrev has : List String → String → Bool
has ks k = any (λ x. str_eq x k) ks

abbrev with_head : {A : Type 0} → A → Option (List A) → Option (List A)
with_head x o = bind o (λ l. some (x ∷ l))

bind_twice :
    {A B C D : Type 0} (o : Option A) (f : A → Option B) (g : B → Option D) (f' : A → Option C)
    (g' : C → Option D)
    → ((a : A) → bind (f a) g ≡ bind (f' a) g')
    → bind (bind o f) g ≡ bind (bind o f') g'
bind_twice none f g f' g' h = refl
bind_twice (some a) f g f' g' h = h a

-- An entry whose key is not taken out stays at the front.
pop_list-skip :
    (e : Entry) (ks : List String) (l : List Entry)
    → any (λ k. str_eq e.0 k) ks ≡ false
    → pop_list ks (e ∷ l) ≡ with_head e (pop_list ks l)
pop_list-skip e [] l h = refl
pop_list-skip e (k ∷ ks) l h = elim (Bool-cases (str_eq e.0 k)) [
  | inl hit ↦ ground arith
  | inr miss ↦ rw miss (
      bind_twice (pop k l) (λ l'. some (e ∷ l')) (pop_list ks) (pop_list ks) (λ l'. some (e ∷ l'))
        (λ l'. pop_list-skip e ks l' (ground arith)))
]

absent_names :
    (p : Entry → Bool) (k : String) (l : List Entry)
    → any (λ e. str_eq e.0 k) l ≡ false
    → any (λ n. str_eq k n) (names (select p l)) ≡ false
absent_names p k [] h = refl
absent_names p k (e ∷ l) h = ground (arith, absent_names p k l, eq_iff e.0 k, eq_iff k e.0)

-- Taking out the keys of the entries that pass a test leaves the others.
pop_list_lem :
    (p : Entry → Bool) (l : List Entry)
    → Unique str_eq (λ (e : Entry). e.0) l
    → pop_list (names (select p l)) l ≡ some (delete p l)
pop_list_lem p [] u = refl
pop_list_lem p (e ∷ l) u = elim (Bool-cases (p e)) [
  | inl hit ↦ rw (hit, pop_list) (rw (eq_refl e.0) (pop_list_lem p l u.1))
  | inr miss ↦ rw miss (
      pop_list-skip e (names (select p l)) l (absent_names p e.0 l u.0)
      ∙ rw (pop_list_lem p l u.1) refl)
]

-- The pops of one asset, before those of the others.
pop_each-head :
    (id : ℕ) (ks : List String) (rs : List (ℕ × Version)) (av : AssetVersions)
    (avs : List AssetVersions)
    → pop_each (map (λ v. (0, v)) (of_id id ks) ++ rs) (av ∷ avs)
      ≡ bind (pop_list ks av.versions) (λ l. pop_each rs (record av { versions = l } ∷ avs))
pop_each-head id [] rs av avs = refl
pop_each-head id (k ∷ ks) rs av avs =
    bind_twice (pop k av.versions) (λ l. some (record av { versions = l } ∷ avs))
      (pop_each (map (λ v. (0, v)) (of_id id ks) ++ rs)) (pop_list ks)
      (λ l. pop_each rs (record av { versions = l } ∷ avs))
      (λ l. pop_each-head id ks rs (record av { versions = l }) avs)

abbrev later : List (ℕ × Version) → List (ℕ × Version)
later rs = map (λ r. (suc r.0, r.1)) rs

pop_each-later :
    (rs : List (ℕ × Version)) (av : AssetVersions) (avs : List AssetVersions)
    → pop_each (later rs) (av ∷ avs) ≡ with_head av (pop_each rs avs)
pop_each-later [] av avs = refl
pop_each-later (r ∷ rs) av avs =
    bind_twice (pop_at r.0 r.1.version avs) (λ l. some (av ∷ l)) (pop_each (later rs)) (pop_each rs)
      (λ l. some (av ∷ l)) (λ l. pop_each-later rs av l)

later-append : (xs ys : List (ℕ × Version)) → later (xs ++ ys) ≡ later xs ++ later ys
later-append [] ys = refl
later-append (x ∷ xs) ys = ap (◌∷◌ (suc x.0, x.1)) (later-append xs ys)

later-map : (i : ℕ) (l : List Version) → later (map (λ v. (i, v)) l) ≡ map (λ v. (suc i, v)) l
later-map i [] = refl
later-map i (v ∷ l) = ap (◌∷◌ (suc i, v)) (later-map i l)

removed-later :
    (sync i : ℕ) (avs : List AssetVersions)
    → removed_from_up sync (suc i) avs ≡ later (removed_from_up sync i avs)
removed-later sync i [] = refl
removed-later sync i (av ∷ avs) =
    let here = map (λ v. (i, v)) (of_id av.asset_id (names (select (is_old sync) av.versions))) in
    sym (
      later-append here (removed_from_up sync (suc i) avs)
      ∙ rw (later-map i (of_id av.asset_id (names (select (is_old sync) av.versions))))
          (rw (removed-later sync (suc i) avs) refl))

abbrev pub fresh : ℕ → AssetVersions → AssetVersions
fresh sync av = record av { versions = delete (is_old sync) av.versions }

pub pop_each-removed :
    (sync : ℕ) (avs : List AssetVersions)
    → All IsDict avs
    → pop_each (removed_from_up sync 0 avs) avs ≡ some (map (fresh sync) avs)
pop_each-removed sync [] dicts = refl
pop_each-removed sync (av ∷ avs) dicts =
    pop_each-head av.asset_id (names (select (is_old sync) av.versions))
      (removed_from_up sync 1 avs) av avs
    ∙ rw (pop_list_lem (is_old sync) av.versions dicts.0) (
        ap (λ rs. pop_each rs (fresh sync av ∷ avs)) (removed-later sync 0 avs)
        ∙ pop_each-later (removed_from_up sync 0 avs) (fresh sync av) avs
        ∙ rw (pop_each-removed sync avs dicts.1) refl)
