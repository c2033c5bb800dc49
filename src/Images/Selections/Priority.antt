-- ===== src/Images/Selections/Priority.antt =====
-- Which offer of an image comes first: `offers` against the tables.
use maas_site_manager.Common.{
  ℕ, Bool, true, false, Bool-cases, inl, inr, none, some, List, [], ◌∷◌, ◌++◌, ◌≤◌, ◌==◌, ◌&&◌, ◌≡◌,
  refl, select, any, first, All, ltb, leb, arith,
}
use mathlib.Core.List.{Memᴰ}
use mathlib.Core.List.Memᴰ.{head, tail, append_left, append_right}
use maas_site_manager.Common.Rows.{All-append, All-map}
use maas_site_manager.Common.Members.{
  All-mem, All-Mem, All-select, mem-select, mem-first, first-none, any_no, All-sort, mem-sort,
  Descends, sort-Descends, first-le,
}
use maas_site_manager.Images.Tables.{BootSource, BootSourceSelection, ImageDb}
use maas_site_manager.Images.Keys.{Key, key_eq}
use maas_site_manager.Images.Selections.{selection_key, with_source, offers_of, offers, by_priority}
use maas_site_manager.Images.Selections.Selectable.{Offer, is_selected}

-- The selection is one of the source, is selected, and has the key.
abbrev pub selects : Key → BootSource → BootSourceSelection → Bool
selects k b s = (s.boot_source_id == b.id) && (s.selected && key_eq (selection_key s) k)

abbrev rank : Offer → ℕ
rank o = o.0.priority

-- A property of a source holds of each of its offers.
All-with_source {κ} :
    (P : Offer → Type κ) (b : BootSource) (l : List BootSourceSelection)
    → All (λ s. P (b, s)) l
    → All P (with_source b l)
All-with_source P b [] h = tt
All-with_source P b (s ∷ l) (h, hs) = (h, All-with_source P b l hs)

All_all : {A : Type 0} (P : A → Type 0) (l : List A) → ((x : A) → P x) → All P l
All_all P [] h = tt
All_all P (x ∷ l) h = (h x, All_all P l h)

All-offers_of :
    (P : BootSource → Type 0) (sources : List BootSource) (selections : List BootSourceSelection)
    → All P sources
    → All (λ o. P o.0) (offers_of sources selections)
All-offers_of P [] selections h = tt
All-offers_of P (b ∷ sources) selections (h, hs) =
    let l = select (λ s. s.boot_source_id == b.id) selections in
    All-append (λ o. P o.0) (with_source b l) (offers_of sources selections)
      (All-with_source (λ o. P o.0) b l (All_all (λ s. P b) l (λ s. h)))
      (All-offers_of P sources selections hs)

with_source-Descends :
    (b : BootSource) (l : List BootSourceSelection) (rest : List Offer)
    → All (λ o. o.0.priority ≤ b.priority) rest
    → Descends rank rest
    → Descends rank (with_source b l ++ rest)
with_source-Descends b [] rest h d = d
with_source-Descends b (s ∷ l) rest h d = (
  All-append (λ o. o.0.priority ≤ b.priority) (with_source b l) rest
      (All-with_source (λ o. o.0.priority ≤ b.priority) b l
        (All_all (λ t. b.priority ≤ b.priority) l (λ t. omega arith)))
      h,
  with_source-Descends b l rest h d,
)

offers_of-Descends :
    (sources : List BootSource) (selections : List BootSourceSelection)
    → Descends (λ b. b.priority) sources
    → Descends rank (offers_of sources selections)
offers_of-Descends [] selections h = tt
offers_of-Descends (b ∷ sources) selections (h, hs) =
    with_source-Descends b (select (λ s. s.boot_source_id == b.id) selections)
      (offers_of sources selections)
      (All-offers_of (λ c. c.priority ≤ b.priority) sources selections h)
      (offers_of-Descends sources selections hs)

mem-with_source :
    (b : BootSource) (s : BootSourceSelection) (l : List BootSourceSelection)
    → Memᴰ s l
    → Memᴰ (b, s) (with_source b l)
mem-with_source b s [] m = elim m [ ]
mem-with_source b s (t ∷ l) (head e) = head (rw e refl)
mem-with_source b s (t ∷ l) (tail m) = tail (mem-with_source b s l m)

mem-offers_of :
    (b : BootSource) (s : BootSourceSelection) (sources : List BootSource)
    (selections : List BootSourceSelection)
    → Memᴰ b sources
    → Memᴰ s selections
    → (s.boot_source_id == b.id) ≡ true
    → Memᴰ (b, s) (offers_of sources selections)
mem-offers_of b s [] selections m n e = elim m [ ]
mem-offers_of b s (c ∷ sources) selections (head q) n e = rw (← q) (
    append_left (offers_of sources selections) (
      mem-with_source b s (select (λ t. t.boot_source_id == b.id) selections)
        (mem-select (λ t. t.boot_source_id == b.id) s selections n e)))
mem-offers_of b s (c ∷ sources) selections (tail m) n e =
    append_right (with_source c (select (λ t. t.boot_source_id == c.id) selections))
      (mem-offers_of b s sources selections m n e)

abbrev IsIn : ImageDb → Offer → Type 0
IsIn d o = Memᴰ o.0 d.sources × Memᴰ o.1 d.selections × ((o.1.boot_source_id == o.0.id) ≡ true)

offers_of-IsIn :
    (d : ImageDb) (sources : List BootSource)
    → All (λ b. Memᴰ b d.sources) sources
    → All (IsIn d) (offers_of sources d.selections)
offers_of-IsIn d [] h = tt
offers_of-IsIn d (b ∷ sources) (h, hs) =
    let p = λ (s : BootSourceSelection). s.boot_source_id == b.id in
    All-append (IsIn d) (with_source b (select p d.selections)) (offers_of sources d.selections)
      (All-with_source (IsIn d) b (select p d.selections) (
        All-map (λ s. Memᴰ s d.selections × (p s ≡ true)) (λ s. IsIn d (b, s))
          (select p d.selections) (λ s m. (h, m.0, m.1))
          (All-select (λ s. Memᴰ s d.selections) p d.selections (All-Mem d.selections))))
      (offers_of-IsIn d sources hs)

module _ (d : ImageDb) (k : Key) where
  -- No source has the image selected.
  abbrev pub Unselected : Type 0
  Unselected = any (λ b. any (selects k b) d.selections) d.sources ≡ false

  -- A source and its selection of the image, and no source of a higher priority has it selected.
  abbrev pub IsBest : Offer → Type 0
  IsBest o =
      Memᴰ o.0 d.sources
      × Memᴰ o.1 d.selections
      × (selects k o.0 o.1 ≡ true)
      × (any (λ b. ltb o.0.priority b.priority && any (selects k b) d.selections) d.sources ≡ false)

  offered :
      (b : BootSource) (s : BootSourceSelection)
      → Memᴰ b d.sources
      → Memᴰ s d.selections
      → selects k b s ≡ true
      → Memᴰ (b, s) (offers d) × (is_selected k (b, s) ≡ true)
  offered b s m n h = (
    mem-offers_of b s (by_priority d.sources) d.selections
        (mem-sort (λ a c. leb c.priority a.priority) b d.sources m) n (ground arith),
    ground arith,
  )

  pub first-none_lem : first (is_selected k) (offers d) ≡ none → Unselected
  first-none_lem e =
      any_no (λ b. any (selects k b) d.selections) d.sources
        (λ b m. any_no (selects k b) d.selections (λ s n. elim (Bool-cases (selects k b s)) [
          | inl hit ↦
              let o = offered b s m n hit in
              let r = first-none (is_selected k) (b, s) (offers d) e o.0 in absurd cc
          | inr miss ↦ miss
        ]))

  none_higher :
      (o : Offer)
      → first (is_selected k) (offers d) ≡ some o
      → (b : BootSource) → Memᴰ b d.sources
      → ltb o.0.priority b.priority ≡ true
      → any (selects k b) d.selections ≡ false
  none_higher o e b m high = any_no (selects k b) d.selections (λ s n.
      elim (Bool-cases (selects k b s)) [
        | inl hit ↦
            let f = offered b s m n hit in
            let le =
              first-le rank (is_selected k) o (b, s) (offers d)
                (offers_of-Descends (by_priority d.sources) d.selections
                  (sort-Descends (λ c. c.priority) d.sources))
                e f.0 f.1 in
            absurd (grind (arith, le, high))
        | inr miss ↦ miss
      ])

  pub first-some_lem : (o : Offer) → first (is_selected k) (offers d) ≡ some o → IsBest o
  first-some_lem o e =
      let f = mem-first (is_selected k) o (offers d) e in
      let i =
        All-mem (IsIn d) o (offers d)
          (offers_of-IsIn d (by_priority d.sources) (
            All-sort (λ a c. leb c.priority a.priority) (λ b. Memᴰ b d.sources) d.sources
              (All-Mem d.sources)))
          f.0 in
      let best =
        any_no (λ b. ltb o.0.priority b.priority && any (selects k b) d.selections) d.sources
          (λ b m. elim (Bool-cases (ltb o.0.priority b.priority)) [
            | inl high ↦ rw (high, none_higher o e b m high) refl
            | inr low ↦ rw low refl
          ]) in
      (i.0, i.1, ground (arith, i.2, f.1), best)
