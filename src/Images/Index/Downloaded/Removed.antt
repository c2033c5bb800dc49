-- ===== src/Images/Index/Downloaded/Removed.antt =====
-- The positions that `_filter_for_fully_downloaded` removes.
use maas_site_manager.Common.{
  ℕ, suc, ◌≤◌, ◌<◌, Bool, true, false, not, ◌&&◌, Option, none, some, List, [], ◌∷◌, ◌++◌, ◌≡◌,
  refl, ap, ◌∙◌, sym, any, ◌==◌, arith, All, ◌⊎◌, subst, Bool-cases, inl, inr,
}
use maas_site_manager.Common.Dict
use maas_site_manager.Common.Dict.{Eq-ℕ, IsDict}
use maas_site_manager.Common.Rows.{All-map, any-append}
use maas_site_manager.Images.Index.{IndexProduct, DownloadStatus, indeces_to_remove}
use maas_site_manager.Images.Index.Downloaded.Pops.{mem, NoneTwice}
use maas_site_manager.Images.Index.Downloaded.Status.{positions, all_synced, summary}

positions-le : (k : ℕ) (l : List IndexProduct) (n : ℕ) → All (λ j. n ≤ j) (positions k l n)
positions-le k [] n = tt
positions-le k (p ∷ l) n =
    let rest =
      All-map (λ j. suc n ≤ j) (λ j. n ≤ j) (positions k l (suc n)) (λ j q. omega (arith, q))
        (positions-le k l (suc n)) in
    elim (Bool-cases (p.id == k)) [ inl hit ↦ rw hit (omega arith, rest) | inr miss ↦ rw miss rest ]

mem_below : (is : List ℕ) (n j : ℕ) → All (λ i. n ≤ i) is → j < n → mem is j ≡ false
mem_below [] n j h q = refl
mem_below (i ∷ is) n j h q = ground (arith, mem_below is n j h.1 q, h.0)

pub fresh : (k : ℕ) (l : List IndexProduct) (n : ℕ) → mem (positions k l (suc n)) n ≡ false
fresh k l n = mem_below (positions k l (suc n)) (suc n) n (positions-le k l (suc n)) (omega arith)

positions-NoneTwice : (k : ℕ) (l : List IndexProduct) (n : ℕ) → NoneTwice (positions k l n)
positions-NoneTwice k [] n = tt
positions-NoneTwice k (p ∷ l) n = elim (Bool-cases (p.id == k)) [
  | inl hit ↦ rw hit (fresh k l n, positions-NoneTwice k l (suc n))
  | inr miss ↦ rw miss (positions-NoneTwice k l (suc n))
]

-- The positions of two ids have nothing in common.
disjoint :
    (j k : ℕ) (l : List IndexProduct) (n : ℕ)
    → (j == k) ≡ false
    → All (λ i. mem (positions k l n) i ≡ false) (positions j l n)
disjoint j k [] n h = tt
disjoint j k (p ∷ l) n h = elim (Bool-cases (p.id == j)) [
  | inl hit ↦
      let miss : (p.id == k) ≡ false = ground (arith, hit, h) in
      let apart : mem (positions k (p ∷ l) n) n ≡ false = rw miss (fresh k l n) in
      rw hit (apart, with_head (inr miss) (disjoint j k l (suc n) h))
  | inr miss ↦ rw miss (with_head (Bool-cases (p.id == k)) (disjoint j k l (suc n) h))
]
  where
    with_head :
        ((p.id == k) ≡ true) ⊎ ((p.id == k) ≡ false)
        → All (λ i. mem (positions k l (suc n)) i ≡ false) (positions j l (suc n))
        → All (λ i. mem (positions k (p ∷ l) n) i ≡ false) (positions j l (suc n))
    with_head (inr miss) rest =
        let same : positions k (p ∷ l) n ≡ positions k l (suc n) = rw miss refl in
        subst (λ q. All (λ i. mem q i ≡ false) (positions j l (suc n))) (sym same) rest
    with_head (inl hit) rest =
        let same : positions k (p ∷ l) n ≡ n ∷ positions k l (suc n) = rw hit refl in
        subst (λ q. All (λ i. mem q i ≡ false) (positions j l (suc n))) (sym same)
          (later (positions j l (suc n)) (positions-le j l (suc n)) rest)
      where
        later :
            (is : List ℕ)
            → All (λ i. suc n ≤ i) is
            → All (λ i. mem (positions k l (suc n)) i ≡ false) is
            → All (λ i. mem (n ∷ positions k l (suc n)) i ≡ false) is
        later [] a b = tt
        later (i ∷ is) a b = (ground (arith, a.0, b.0), later is a.1 b.1)

-- Every entry is the summary of its id.
abbrev pub Entries : List IndexProduct → List (ℕ × DownloadStatus) → Type 0
Entries l d = All (λ e. some e.1 ≡ summary e.0 l) d

pub entries :
    (l : List IndexProduct) (d : List (ℕ × DownloadStatus))
    → IsDict d
    → ((k : ℕ) → Dict.has d k ≡ true → Dict.get d k ≡ summary k l)
    → Entries l d
entries l [] u h = tt
entries l (e ∷ d) u h = (head, entries l d u.1 (λ k q. tail k q))
  where
    head : some e.1 ≡ summary e.0 l
    head = ground (arith, h e.0)

    tail : (k : ℕ) → Dict.has d k ≡ true → Dict.get d k ≡ summary k l
    tail k q = elim (Bool-cases (e.0 == k)) [
      | inl same ↦ let e' : e.0 ≡ k = ground arith in let none_left = u.0 in cc
      | inr other ↦ ground (arith, h k, q)
    ]

parts :
    (k : ℕ) (l : List IndexProduct) (s : DownloadStatus)
    → some s ≡ summary k l
    → (s.indeces ≡ positions k l 0) × (s.downloaded ≡ all_synced k l)
parts k l s h = elim (Bool-cases (any (λ p. p.id == k) l)) [
  | inl seen ↦
      let e : some s ≡ some (record { indeces = positions k l 0; downloaded = all_synced k l }) =
        h ∙ rw seen refl in
      (ap (λ o. indeces_of o) e, ap (λ o. downloaded_of o) e)
  | inr unseen ↦ let e : some s ≡ none = h ∙ rw unseen refl in cc
]
  where
    indeces_of : Option DownloadStatus → List ℕ
    indeces_of none = []
    indeces_of (some t) = t.indeces

    downloaded_of : Option DownloadStatus → Bool
    downloaded_of none = false
    downloaded_of (some t) = t.downloaded

-- A position is removed if an entry with it is not downloaded.
abbrev pub removes : List IndexProduct → ℕ → ℕ × DownloadStatus → Bool
removes l i e = not (all_synced e.0 l) && mem (positions e.0 l 0) i

pub mem-indeces_to_remove :
    (l : List IndexProduct) (d : List (ℕ × DownloadStatus)) (i : ℕ)
    → Entries l d
    → mem (indeces_to_remove d) i ≡ any (removes l i) d
mem-indeces_to_remove l [] i h = refl
mem-indeces_to_remove l (e ∷ d) i h =
    let p = parts e.0 l e.1 h.0 in
    let split = any-append (λ j. j == i) e.1.indeces (indeces_to_remove d) in
    let here = ap (λ q. mem q i) p.0 in
    ground (arith, mem-indeces_to_remove l d i h.1, split, here, p.1)

NoneTwice-append :
    (a b : List ℕ) → NoneTwice a → NoneTwice b → All (λ i. mem b i ≡ false) a → NoneTwice (a ++ b)
NoneTwice-append [] b ha hb h = hb
NoneTwice-append (i ∷ a) b ha hb h =
    (any-append (λ j. j == i) a b ∙ ground (arith, ha.0, h.0), NoneTwice-append a b ha.1 hb h.1)

-- What the other entries remove is apart from the positions of an id.
apart :
    (k : ℕ) (l : List IndexProduct) (d : List (ℕ × DownloadStatus))
    → Dict.has d k ≡ false
    → Entries l d
    → All (λ i. mem (indeces_to_remove d) i ≡ false) (positions k l 0)
apart k l [] fresh_key h = all_false (positions k l 0)
  where
    all_false : (is : List ℕ) → All (λ i. mem [] i ≡ false) is
    all_false [] = tt
    all_false (i ∷ is) = (refl, all_false is)
apart k l (e ∷ d) fresh_key h =
    both (positions k l 0)
      (subst (λ q. All (λ i. mem q i ≡ false) (positions k l 0)) (sym (parts e.0 l e.1 h.0).0)
        (disjoint k e.0 l 0 (ground arith)))
      (apart k l d (ground arith) h.1)
  where
    both :
        (is : List ℕ)
        → All (λ i. mem e.1.indeces i ≡ false) is
        → All (λ i. mem (indeces_to_remove d) i ≡ false) is
        → All (λ i. mem (indeces_to_remove (e ∷ d)) i ≡ false) is
    both [] a b = tt
    both (i ∷ is) a b = (
      ground (arith, a.0, b.0, any-append (λ j. j == i) e.1.indeces (indeces_to_remove d)),
      both is a.1 b.1,
    )

pub indeces_to_remove-NoneTwice :
    (l : List IndexProduct) (d : List (ℕ × DownloadStatus))
    → IsDict d
    → Entries l d
    → NoneTwice (indeces_to_remove d)
indeces_to_remove-NoneTwice l [] u h = tt
indeces_to_remove-NoneTwice l (e ∷ d) u h =
    let p = (parts e.0 l e.1 h.0).0 in
    let rest = indeces_to_remove-NoneTwice l d u.1 h.1 in
    elim (Bool-cases e.1.downloaded) [
      | inl done ↦ rw done rest
      | inr undone ↦ rw undone (
          NoneTwice-append e.1.indeces (indeces_to_remove d)
            (subst NoneTwice (sym p) (positions-NoneTwice e.0 l 0)) rest
            (subst (λ q. All (λ i. mem (indeces_to_remove d) i ≡ false) q) (sym p)
              (apart e.0 l d u.0 h.1)))
    ]
