-- ===== src/Images/Available/Stale.antt =====
-- Which selections of `put_boot_source_avail_selections` are stale and which are new.
use maas_site_manager.Common.{
  ℕ, ◌≤◌, ◌<◌, ◌≡◌, refl, ap, ◌∙◌, Bool, true, false, not, List, [], ◌∷◌, ◌++◌, map, ◌==◌, ◌&&◌,
  select, any, All, arith, Bool-cases, inl, inr,
}
use maas_site_manager.Common.Rows.{delete, All-map}
use maas_site_manager.Images.Tables.{BootSourceSelection, ImageDb}
use maas_site_manager.Images.Available.{
  AvailableBootSourceSelection, Key, key_eq, offer_key, selection_key, collect, keys, mem,
  difference,
}
use maas_site_manager.Images.Available.Dicts.{mem-difference, mem-collect}
use maas_site_manager.Images.Available.Created.{IsNew}
use maas_site_manager.Images.Available.Retired.{matches, listed}

abbrev pub offered : List AvailableBootSourceSelection → Key → Bool
offered available k = any (λ p. key_eq (offer_key p) k) available

abbrev pub of_source : ℕ → BootSourceSelection → Bool
of_source id s = s.boot_source_id == id

abbrev pub has_key : List BootSourceSelection → Key → Bool
has_key l k = any (λ s. key_eq (selection_key s) k) l

abbrev pub selections_of : ℕ → ImageDb → List BootSourceSelection
selections_of id d = select (of_source id) d.selections

pub delete-append :
    (p : BootSourceSelection → Bool) (xs ys : List BootSourceSelection)
    → delete p (xs ++ ys) ≡ delete p xs ++ delete p ys
delete-append p [] ys = refl
delete-append p (x ∷ xs) ys = ground (arith, delete-append p xs ys)

pub All-select :
    (n : ℕ) (p : BootSourceSelection → Bool) (l : List BootSourceSelection)
    → All (λ s. s.id < n) l
    → All (λ s. s.id < n) (select p l)
All-select n p [] h = tt
All-select n p (s ∷ l) h = elim (Bool-cases (p s)) [
  | inl hit ↦ rw hit (h.0, All-select n p l h.1)
  | inr miss ↦ rw miss (All-select n p l h.1)
]

no_match :
    (n : ℕ) (c : BootSourceSelection → Bool) (s : BootSourceSelection)
    (l : List BootSourceSelection)
    → n ≤ s.id
    → All (λ v. v.id < n) l
    → any (λ v. c v && matches v s) l ≡ false
no_match n c s [] above h = refl
no_match n c s (v ∷ l) above h = ground (arith, h.0, no_match n c s l above h.1)

-- A row that was just created is not deleted.
pub new_kept :
    (n id : ℕ) (c : BootSourceSelection → Bool) (l rows : List BootSourceSelection)
    → All (λ v. v.id < n) l
    → All (IsNew id n) rows
    → delete (λ s. any (λ v. c v && matches v s) l) rows ≡ rows
new_kept n id c l [] h new = refl
new_kept n id c l (s ∷ rows) h new =
    rw (no_match n c s l new.0.0 h) (ap (◌∷◌ s) (new_kept n id c l rows h new.1))

mem-pairs :
    (l : List BootSourceSelection) (k : Key)
    → mem (keys (map (λ s. (selection_key s, s)) l)) k ≡ has_key l k
mem-pairs [] k = refl
mem-pairs (s ∷ l) k = ground (arith, mem-pairs l k)

module _ (available : List AvailableBootSourceSelection) (existing : List BootSourceSelection) where
  abbrev pub incoming : List Key
  incoming = keys (collect offer_key [] available)

  abbrev pub held : List Key
  held = keys (map (λ s. (selection_key s, s)) existing)

  -- An existing selection is stale if it is not offered.
  pub stale-offered :
      All
        (λ v.
          mem (difference held incoming) (selection_key v)
          ≡ not (offered available (selection_key v)))
        existing
  stale-offered =
      All-map (λ v. has_key existing (selection_key v) ≡ true)
        (λ v.
          mem (difference held incoming) (selection_key v)
          ≡ not (offered available (selection_key v)))
        existing
        (λ v h.
          mem-difference held incoming (selection_key v)
          ∙ rw
              (
                mem-pairs existing (selection_key v),
                mem-collect offer_key [] available (selection_key v),
                h,
              )
              refl)
        (listed existing)

  pub new-offered :
      (k : Key)
      → mem (difference incoming held) k ≡ (offered available k && not (has_key existing k))
  new-offered k =
      mem-difference incoming held k
      ∙ rw (mem-pairs existing k, mem-collect offer_key [] available k) refl

abbrev pub retires : ℕ → List AvailableBootSourceSelection → BootSourceSelection → Bool
retires id available s =
    of_source id s && (not (offered available (selection_key s)) && not s.selected)
