-- ===== src/Images/Index/Agreement/Parts.antt =====
-- The retained products of a partition are those that are retained of the whole view.
use maas_site_manager.Common.{
  ℕ, String, Bool, true, not, ◌&&◌, Option, none, some, List, [], ◌∷◌, map, ◌≡◌, refl, ◌∙◌, ap, sym,
  arith, select, any, All, ◌==◌, Bool-cases, inl, inr,
}
use maas_site_manager.Common.Dict.{string_self}
use maas_site_manager.Common.Rows.{any-and}
use maas_site_manager.Images.Index.{
  IndexProduct, is_synced, DownloadPartition, ubuntu, bootloaders, other, partition_eq,
  partition_of, wanted, fetch_products, same_file, retained, filter_for_fully_downloaded,
}
use maas_site_manager.Images.Index.Downloaded.{all_synced, filter_for_fully_downloaded_lem}

abbrev pub Rows : Type 0
Rows = List (IndexProduct × DownloadPartition)

partition_same : (p q : DownloadPartition) → partition_eq p q ≡ partition_eq q p
partition_same ubuntu ubuntu = refl
partition_same ubuntu bootloaders = refl
partition_same ubuntu other = refl
partition_same bootloaders ubuntu = refl
partition_same bootloaders bootloaders = refl
partition_same bootloaders other = refl
partition_same other ubuntu = refl
partition_same other bootloaders = refl
partition_same other other = refl

-- The tests are those of equal values.
partition_eq-same : (p q : DownloadPartition) → partition_eq p q ≡ true → p ≡ q
partition_eq-same ubuntu ubuntu h = refl
partition_eq-same bootloaders bootloaders h = refl
partition_eq-same other other h = refl
partition_eq-same ubuntu bootloaders h = cc
partition_eq-same ubuntu other h = cc
partition_eq-same bootloaders ubuntu h = cc
partition_eq-same bootloaders other h = cc
partition_eq-same other ubuntu h = cc
partition_eq-same other bootloaders h = cc

partition_self : (p : DownloadPartition) → partition_eq p p ≡ true
partition_self ubuntu = refl
partition_self bootloaders = refl
partition_self other = refl

fetch_products-partition :
    (lower : String → String) (p : DownloadPartition) (view : List IndexProduct)
    → fetch_products lower (some p) view
      ≡ select (λ r. partition_eq r.1 p) (fetch_products lower none view)
fetch_products-partition lower p [] = refl
fetch_products-partition lower p (x ∷ view) =
    ground (arith, fetch_products-partition lower p view, partition_same p (partition_of lower x))

-- What depends on the id alone is the same of two files of an id.
any_same :
    (g : ℕ → Bool) (p : IndexProduct) (l : List IndexProduct)
    → any (λ q. same_file q p && g q.id) l ≡ (any (λ q. same_file q p) l && g p.id)
any_same g p [] = refl
any_same g p (q ∷ l) = elim (Bool-cases (q.id == p.id)) [
  | inl same ↦ let e : q.id ≡ p.id = ground arith in ground (arith, any_same g p l, ap g e)
  | inr apart ↦ ground (arith, any_same g p l)
]

any_first : (q : IndexProduct → Bool) (l : Rows) → any q (map (λ s. s.0) l) ≡ any (λ s. q s.0) l
any_first q [] = refl
any_first q (s ∷ l) = ground (arith, any_first q l)

self : (p : IndexProduct) → same_file p p ≡ true
self p = ground (arith, string_self p.path, string_self p.ftype)

all_there :
    (l sup : Rows)
    → ((q : IndexProduct × DownloadPartition → Bool) → any q l ≡ true → any q sup ≡ true)
    → All (λ r. any (λ q. same_file q r.0) (map (λ s. s.0) sup) ≡ true) l
all_there [] sup h = tt
all_there (r ∷ l) sup h = (
  any_first (λ q. same_file q r.0) sup ∙ h (λ s. same_file s.0 r.0) (ground (arith, self r.0)),
  all_there l sup (λ q t. h q (ground (arith, t))),
)

select_agree :
    (f g : IndexProduct × DownloadPartition → Bool) (l : Rows)
    → All (λ r. f r ≡ g r) l
    → select f l ≡ select g l
select_agree f g [] h = refl
select_agree f g (r ∷ l) h = ground (arith, select_agree f g l h.1, h.0)

retained-select : (l : Rows) → retained l ≡ select (λ r. all_synced r.0.id (map (λ s. s.0) l)) l
unfolding retained
retained-select l =
    let files = map (λ s. s.0) l in
    ap (λ kept. select (λ r. any (λ q. same_file q r.0) kept) l)
      (filter_for_fully_downloaded_lem files)
    ∙ select_agree (λ r. any (λ q. same_file q r.0) (select (λ p. all_synced p.id files) files))
        (λ r. all_synced r.0.id files) l (each l (all_there l l (λ q t. t)))
  where
    each :
        (m : Rows)
        → All (λ r. any (λ q. same_file q r.0) (map (λ s. s.0) l) ≡ true) m
        → All
            (λ r.
              any
                (λ q. same_file q r.0)
                (select (λ p. all_synced p.id (map (λ s. s.0) l)) (map (λ s. s.0) l))
              ≡ all_synced r.0.id (map (λ s. s.0) l))
            m
    each [] h = tt
    each (r ∷ m) h =
        let files = map (λ s. s.0) l in
        let g : ℕ → Bool = λ k. all_synced k files in
        (
          sym (any-and (λ q. same_file q r.0) (λ p. g p.id) files)
              ∙ any_same g r.0 files
              ∙ rw h.0 refl,
          each m h.1,
        )

-- Whether a file of an id is not synced is told from its partition.
unsynced-part :
    (part_of : ℕ → DownloadPartition) (k : ℕ) (l : Rows)
    → All (λ r. r.1 ≡ part_of r.0.id) l
    → any
        (λ p. (p.id == k) && not (is_synced p))
        (map (λ s. s.0) (select (λ r. partition_eq r.1 (part_of k)) l))
      ≡ any (λ p. (p.id == k) && not (is_synced p)) (map (λ s. s.0) l)
unsynced-part part_of k [] h = refl
unsynced-part part_of k (r ∷ l) h = elim (Bool-cases (r.0.id == k)) [
  | inl hit ↦
      let id : r.0.id ≡ k = ground arith in
      let same : r.1 ≡ part_of k = h.0 ∙ ap part_of id in
      let kept : partition_eq r.1 (part_of k) ≡ true = rw same (partition_self (part_of k)) in
      ground (arith, kept, unsynced-part part_of k l h.1)
  | inr miss ↦ ground (arith, unsynced-part part_of k l h.1)
]

fetched :
    (lower : String → String) (part_of : ℕ → DownloadPartition) (view : List IndexProduct)
    → All (λ p. partition_of lower p ≡ part_of p.id) view
    → All (λ r. r.1 ≡ part_of r.0.id) (fetch_products lower none view)
fetched lower part_of [] h = tt
fetched lower part_of (p ∷ view) h = (h.0, fetched lower part_of view h.1)

select_part :
    (q f g : IndexProduct × DownloadPartition → Bool) (l : Rows)
    → All (λ r. q r ≡ true → f r ≡ g r) l
    → select f (select q l) ≡ select q (select g l)
select_part q f g [] h = refl
select_part q f g (r ∷ l) h = ground (arith, select_part q f g l h.1, h.0)

pub retained-partition :
    (lower : String → String) (view : List IndexProduct) (part_of : ℕ → DownloadPartition)
    (p : DownloadPartition)
    → All (λ x. partition_of lower x ≡ part_of x.id) view
    → retained (fetch_products lower (some p) view)
      ≡ select (λ r. partition_eq r.1 p) (retained (fetch_products lower none view))
retained-partition lower view part_of p h =
    let all = fetch_products lower none view in
    let grouped = fetched lower part_of view h in
    let part = select (λ r. partition_eq r.1 p) all in
    ap retained (fetch_products-partition lower p view)
    ∙ retained-select part
    ∙ select_part (λ r. partition_eq r.1 p) (λ r. all_synced r.0.id (map (λ s. s.0) part))
        (λ r. all_synced r.0.id (map (λ s. s.0) all)) all (each all all grouped grouped)
    ∙ ap (select (λ r. partition_eq r.1 p)) (sym (retained-select all))
  where
    each :
        (l m : Rows)
        → All (λ r. r.1 ≡ part_of r.0.id) m
        → All (λ r. r.1 ≡ part_of r.0.id) l
        → All
            (λ r.
              partition_eq r.1 p ≡ true
              → all_synced r.0.id (map (λ s. s.0) (select (λ s. partition_eq s.1 p) m))
                ≡ all_synced r.0.id (map (λ s. s.0) m))
            l
    each [] m g h = tt
    each (r ∷ l) m g h = (
      (λ q.
          let same : p ≡ part_of r.0.id = sym (partition_eq-same r.1 p q) ∙ h.0 in
          rw same (ap not (unsynced-part part_of r.0.id m g))),
      each l m g h.1,
    )

-- What holds of the products of the view holds of the retained ones.
module _ (P : IndexProduct → Type 0) where
  fetched-All :
      (lower : String → String) (target : Option DownloadPartition) (view : List IndexProduct)
      → All P view
      → All (λ r. P r.0) (fetch_products lower target view)
  fetched-All lower target [] h = tt
  fetched-All lower target (x ∷ view) h = elim (Bool-cases (wanted target (partition_of lower x))) [
    | inl hit ↦ rw hit (h.0, fetched-All lower target view h.1)
    | inr miss ↦ rw miss (fetched-All lower target view h.1)
  ]

  selected-All :
      (f : IndexProduct × DownloadPartition → Bool) (l : Rows)
      → All (λ r. P r.0) l
      → All P (map (λ r. r.0) (select f l))
  selected-All f [] h = tt
  selected-All f (r ∷ l) h = elim (Bool-cases (f r)) [
    | inl hit ↦ rw hit (h.0, selected-All f l h.1)
    | inr miss ↦ rw miss (selected-All f l h.1)
  ]

  pub retained-All :
      (lower : String → String) (target : Option DownloadPartition) (view : List IndexProduct)
      → All P view
      → All P (map (λ r. r.0) (retained (fetch_products lower target view)))
  unfolding retained
  retained-All lower target view h =
      let all = fetch_products lower target view in
      let files = filter_for_fully_downloaded (map (λ r. r.0) all) in
      selected-All (λ r. any (λ q. same_file q r.0) files) all (fetched-All lower target view h)
