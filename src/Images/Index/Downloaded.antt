-- ===== src/Images/Index/Downloaded.antt =====
-- What `_filter_for_fully_downloaded` keeps.
mod Status
mod Pops
mod Removed
pub use maas_site_manager.Images.Index.Downloaded.Status.{all_synced}
use maas_site_manager.Common.{
  ℕ, zero, suc, ◌+◌, Bool, true, false, not, ◌&&◌, ◌||◌, Option, none, some, List, [], ◌∷◌, ◌++◌,
  ◌≡◌, refl, ap, ◌∙◌, sym, any, select, length, length-append, ◌==◌, arith, leb, if◌then◌else◌,
  Bool-cases, inl, inr,
}
use mathlib.Core.List.{append_assoc}
use maas_site_manager.Common.Dict
use maas_site_manager.Common.Dict.{Eq-ℕ, IsDict, get_absent}
use maas_site_manager.Common.Rows.{any-append}
use maas_site_manager.Common.Sorts.{any-sort, sort}
use maas_site_manager.Images.Index.{
  IndexProduct, is_synced, DownloadStatus, status_of, indeces_to_remove,
  filter_for_fully_downloaded,
}
use maas_site_manager.Images.Index.Downloaded.Pops.{mem, keep, keep-pop_indeces, sort-Descends}
use maas_site_manager.Images.Index.Downloaded.Removed.{
  fresh, entries, mem-indeces_to_remove, indeces_to_remove-NoneTwice, removes,
}
use maas_site_manager.Images.Index.Downloaded.Status.{
  positions, positions-append, all_synced, summary, status_of_lem,
}

before :
    (k : ℕ) (l : List IndexProduct) (n m : ℕ) → n + length l ≡ m → mem (positions k l n) m ≡ false
before k [] n m e = refl
before k (p ∷ l) n m e =
    let rest = before k l (suc n) m (omega arith) in
    let apart : (n == m) ≡ false = ground arith in ground (arith, rest, apart)

has_got :
    (d : List (ℕ × DownloadStatus)) (k : ℕ) (s : DownloadStatus)
    → Dict.get d k ≡ some s
    → Dict.has d k ≡ true
has_got d k s h = elim (Bool-cases (Dict.has d k)) [
  | inl there ↦ there
  | inr gone ↦ let absent = get_absent d k gone in cc
]

-- The product at position `n` is at a position of its own id only.
positions-own :
    (k : ℕ) (pre : List IndexProduct) (p : IndexProduct) (post : List IndexProduct)
    → mem (positions k (pre ++ p ∷ post) 0) (length pre) ≡ (p.id == k)
positions-own k pre p post =
    let split =
      any-append (λ j. j == length pre) (positions k pre 0) (positions k (p ∷ post) (length pre)) in
    rw (positions-append k pre (p ∷ post) 0 (length pre) (omega arith)) (
      split ∙ elim (Bool-cases (p.id == k)) [
        | inl hit ↦ rw (hit, before k pre 0 (length pre) (omega arith)) (ground arith)
        | inr miss ↦
            rw (miss, before k pre 0 (length pre) (omega arith)) (fresh k post (length pre))
      ])

removes_one :
    (l : List IndexProduct) (i k : ℕ) (d : List (ℕ × DownloadStatus))
    → ((j : ℕ) → mem (positions j l 0) i ≡ (k == j))
    → any (removes l i) d ≡ (not (all_synced k l) && Dict.has d k)
removes_one l i k [] own = ground arith
removes_one l i k (e ∷ d) own = elim (Bool-cases (k == e.0)) [
  | inl hit ↦
      let same : k ≡ e.0 = ground arith in
      ground (arith, removes_one l i k d own, own e.0, ap (λ j. all_synced j l) same)
  | inr miss ↦ ground (arith, removes_one l i k d own, own e.0)
]

occurs :
    (pre : List IndexProduct) (p : IndexProduct) (post : List IndexProduct)
    → any (λ q. q.id == p.id) (pre ++ p ∷ post) ≡ true
occurs pre p post = any-append (λ q. q.id == p.id) pre (p ∷ post) ∙ ground arith

-- A position is removed if a file of its product's id is not synced.
removed_at :
    (pre : List IndexProduct) (p : IndexProduct) (post l : List IndexProduct)
    → pre ++ p ∷ post ≡ l
    → mem (indeces_to_remove (status_of l 0 [])) (length pre) ≡ not (all_synced p.id l)
removed_at pre p post l at =
    let found = status_of_lem l in
    let d = status_of l 0 [] in
    let here : any (λ q. q.id == p.id) l ≡ true = rw (← at) (occurs pre p post) in
    let got : Dict.get d p.id
        ≡ some (record { indeces = positions p.id l 0; downloaded = all_synced p.id l }) =
      found.1 p.id ∙ rw here refl in
    let known : Dict.has d p.id ≡ true = has_got d p.id _ got in
    mem-indeces_to_remove l d (length pre) (entries l d found.0 (λ k q. found.1 k))
    ∙ removes_one l (length pre) p.id d (λ j. rw (← at) (positions-own j pre p post))
    ∙ rw known (ground arith)

keep-select :
    (post pre l : List IndexProduct)
    → pre ++ post ≡ l
    → keep (λ j. not (mem (indeces_to_remove (status_of l 0 [])) j)) (length pre) post
      ≡ select (λ p. all_synced p.id l) post
keep-select [] pre l at = refl
keep-select (p ∷ post) pre l at =
    let here = removed_at pre p post l at in
    let next : suc (length pre) ≡ length (pre ++ p ∷ []) =
      omega (arith, length-append pre (p ∷ [])) in
    let rest : keep (λ j. not (mem (indeces_to_remove (status_of l 0 [])) j)) (suc (length pre))
          post
        ≡ select (λ q. all_synced q.id l) post =
      rw next (keep-select post (pre ++ p ∷ []) l (append_assoc pre (p ∷ []) post ∙ at)) in
    elim (Bool-cases (all_synced p.id l)) [
      | inl done ↦ rw (here, done) (ap (λ t. p ∷ t) rest)
      | inr undone ↦ rw (here, undone) rest
    ]

-- The filter keeps, in their order, the products of which every file with the same id is synced.
pub filter_for_fully_downloaded_lem :
    (products : List IndexProduct)
    → filter_for_fully_downloaded products ≡ select (λ p. all_synced p.id products) products
unfolding filter_for_fully_downloaded
filter_for_fully_downloaded_lem products =
    let d = status_of products 0 [] in
    let found = status_of_lem products in
    let once =
      indeces_to_remove-NoneTwice products d found.0
        (entries products d found.0 (λ k q. found.1 k)) in
    keep-pop_indeces (sort (λ i j. leb j i) (indeces_to_remove d)) products
      (sort-Descends (indeces_to_remove d) once)
    ∙ ap (λ (f : ℕ → Bool). keep (λ j. not (f j)) 0 products)
        (λ t j. any-sort (λ a b. leb b a) (λ i. i == j) (indeces_to_remove d) t)
    ∙ keep-select products [] products refl
