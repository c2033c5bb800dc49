-- ===== src/Images/Available/Created.antt =====
-- The selections that are created, in closed form.
use maas_site_manager.Common.{
  ℕ, suc, ◌≤◌, ◌≡◌, refl, ap, ◌∙◌, Bool, true, false, not, some, List, [], ◌∷◌, ◌++◌, map, any, All,
  arith, Bool-cases, inl, inr,
}
use maas_site_manager.Common.Result.{ok, ◌>>=◌}
use maas_site_manager.Images.Tables.{BootSourceSelection, ImageDb}
use maas_site_manager.Images.Available.{
  AvailableBootSourceSelection, Key, key_eq, offer_key, selection_key, Dict, keys, mem, lookup,
  new_row, create, create_each,
}
use maas_site_manager.Images.Available.Dicts.{key_eq_same}

abbrev pub rows_from : ℕ → ℕ → List AvailableBootSourceSelection → List BootSourceSelection
rows_from source_id n [] = []
rows_from source_id n (p ∷ ps) = new_row source_id p n ∷ rows_from source_id (suc n) ps

abbrev pub advance : ℕ → List AvailableBootSourceSelection → ℕ
advance n [] = n
advance n (p ∷ ps) = advance (suc n) ps

abbrev pub with_rows : ℕ → List AvailableBootSourceSelection → ImageDb → ImageDb
with_rows source_id ps d = record d {
  selections = d.selections ++ rows_from source_id d.selection_sequence ps;
  selection_sequence = advance d.selection_sequence ps;
}

append_assoc :
    (xs : List BootSourceSelection) (y : BootSourceSelection) (zs : List BootSourceSelection)
    → (xs ++ y ∷ []) ++ zs ≡ xs ++ y ∷ zs
append_assoc [] y zs = refl
append_assoc (x ∷ xs) y zs = ap (◌∷◌ x) (append_assoc xs y zs)

append_nil : (xs : List BootSourceSelection) → xs ++ [] ≡ xs
append_nil [] = refl
append_nil (x ∷ xs) = ap (◌∷◌ x) (append_nil xs)

-- A key of the dictionary is found, with a value of that key.
found :
    {V : Type 0} (key : V → Key) (incoming : Dict V) (k : Key)
    → All (λ e. key e.1 ≡ e.0) incoming
    → mem (keys incoming) k ≡ true
    → (p : V) × (lookup incoming k ≡ some p) × (key p ≡ k)
found key [] k keyed h = cc
found key (e ∷ es) k keyed h = elim (Bool-cases (key_eq e.0 k)) [
  | inl hit ↦ (e.1, rw hit refl, keyed.0 ∙ key_eq_same e.0 k hit)
  | inr miss ↦ rw miss (found key es k keyed.1 (ground arith))
]

-- Every key is found, and one row for each key is created, under the next ids.
pub create_each_lem :
    (source_id : ℕ) (incoming : Dict AvailableBootSourceSelection) (ks : List Key) (d : ImageDb)
    → All (λ e. offer_key e.1 ≡ e.0) incoming
    → any (λ k. not (mem (keys incoming) k)) ks ≡ false
    → (ps : List AvailableBootSourceSelection) × (create_each source_id incoming ks d
        ≡ ok (tt, with_rows source_id ps d))
      × (map offer_key ps ≡ ks)
unfolding create create_each
create_each_lem source_id incoming [] d keyed h = ([], rw (append_nil d.selections) refl, refl)
create_each_lem source_id incoming (k ∷ ks) d keyed h =
    let (p, at, same) = found offer_key incoming k keyed (ground arith) in
    let e = record d {
      selections = d.selections ++ new_row source_id p d.selection_sequence ∷ [];
      selection_sequence = suc d.selection_sequence;
    } in
    let (ps, made, all) = create_each_lem source_id incoming ks e keyed (ground arith) in
    (
      p ∷ ps,
      rw (at, ◌>>=◌)
          (rw (made, ◌>>=◌)
            (rw
              (append_assoc d.selections (new_row source_id p d.selection_sequence)
                (rows_from source_id (suc d.selection_sequence) ps))
              refl)),
      rw (same, all) refl,
    )

pub any-rows_from :
    (q : Key → Bool) (source_id n : ℕ) (ps : List AvailableBootSourceSelection)
    → any (λ s. q (selection_key s)) (rows_from source_id n ps) ≡ any q (map offer_key ps)
any-rows_from q source_id n [] = refl
any-rows_from q source_id n (p ∷ ps) = ground (arith, any-rows_from q source_id (suc n) ps)

abbrev pub IsNew : ℕ → ℕ → BootSourceSelection → Type 0
IsNew source_id n s = (n ≤ s.id) × (s.boot_source_id ≡ source_id) × (s.selected ≡ false)

pub rows_from-IsNew :
    (source_id n m : ℕ) (ps : List AvailableBootSourceSelection)
    → m ≤ n
    → All (IsNew source_id m) (rows_from source_id n ps)
rows_from-IsNew source_id n m [] h = tt
rows_from-IsNew source_id n m (p ∷ ps) h =
    ((h, refl, refl), rows_from-IsNew source_id (suc n) m ps (omega arith))
