-- ===== src/Images/Selections/Selectable.antt =====
-- What `get_selectable_images` answers.
use maas_site_manager.Common.{
  Bool, true, false, Option, none, some, List, [], ◌∷◌, ◌++◌, map, ◌&&◌, ◌||◌, ◌≡◌, refl, ap, sym,
  ◌∙◌, select, any, first, arith, if◌then◌else◌, Bool-cases, inl, inr, subst,
}
use mathlib.Core.List.{append-nil, append_assoc}
use maas_site_manager.Common.Dict
use maas_site_manager.Common.Dict.{get-assign, get-remove, IsDict, assign-IsDict, remove-IsDict}
use maas_site_manager.Common.Dict.Values.{
  to_list, IsKeyed, assign-IsKeyed, remove-IsKeyed, select-values,
}
use maas_site_manager.Common.Rows.{any-append, first-append, or_first, is_some, any-first}
use maas_site_manager.Common.Sorts.{select-sort}
use maas_site_manager.Images.Tables.{BootSource, BootSourceSelection, ImageDb}
use maas_site_manager.Images.Keys.{Key, key_eq, key_le, key_same, key_self, key_le_same, Eq-Key}
use maas_site_manager.Images.Selections.{
  SelectableImage, selection_key, selectable_key, offers, selectable_image, mem_key, Found, look_at,
  look_at_all, pop_selected, nothing_found, get_selectable_images,
}

abbrev pub Offer : Type 0
Offer = BootSource × BootSourceSelection

abbrev pub is_of : Key → Offer → Bool
is_of k o = key_eq (selection_key o.1) k

abbrev pub is_selected : Key → Offer → Bool
is_selected k o = is_of k o && o.1.selected

-- What the first offer of a key leaves in the dictionary.
abbrev unselected : Option Offer → Option SelectableImage
unselected none = none
unselected (some o) = if o.1.selected then none else some (selectable_image o)

-- The collections after the offers of `l`, at one key.
abbrev Inv : Key → List Offer → Found → Type 0
Inv k l f =
    (mem_key f.images_found k ≡ any (is_of k) l)
    × (Dict.get f.selectable k ≡ unselected (first (is_of k) l))
    × (mem_key f.selected k ≡ (any (is_selected k) l && is_some (Dict.get f.selectable k)))

has-get : (d : List (Key × SelectableImage)) (k : Key) → Dict.has d k ≡ is_some (Dict.get d k)
has-get [] k = refl
has-get (r ∷ d) k = ground (arith, has-get d k)

module _ (k : Key) (o : Offer) (l : List Offer) (f : Found) where
  any_of : any (is_of k) (l ++ o ∷ []) ≡ (any (is_of k) l || is_of k o)
  any_of = any-append (is_of k) l (o ∷ []) ∙ ground arith

  any_chosen : any (is_selected k) (l ++ o ∷ []) ≡ (any (is_selected k) l || is_selected k o)
  any_chosen = any-append (is_selected k) l (o ∷ []) ∙ ground arith

  found_more :
      (j : Key) → mem_key (f.images_found ++ j ∷ []) k ≡ (mem_key f.images_found k || key_eq j k)
  found_more j = any-append (λ i. key_eq i k) f.images_found (j ∷ []) ∙ ground arith

  chosen_more : (j : Key) → mem_key (f.selected ++ j ∷ []) k ≡ (mem_key f.selected k || key_eq j k)
  chosen_more j = any-append (λ i. key_eq i k) f.selected (j ∷ []) ∙ ground arith

  first_of :
      first (is_of k) (l ++ o ∷ [])
      ≡ or_first (first (is_of k) l) (if is_of k o then some o else none)
  first_of = first-append (is_of k) l (o ∷ [])

look_at-Inv_other :
    (k : Key) (o : Offer) (l : List Offer) (f : Found)
    → is_of k o ≡ false
    → Inv k l f
    → Inv k (l ++ o ∷ []) (look_at o f)
look_at-Inv_other k o l f miss (h, g, s) = ground (
  arith,
  any_of k o l f,
  any_chosen k o l f,
  found_more k o l f (selection_key o.1),
  chosen_more k o l f (selection_key o.1),
  first_of k o l f,
  get-assign (selection_key o.1) (selectable_image o) f.selectable k,
  miss,
)

-- What is selected is offered.
pub selected_offered :
    (k : Key) (l : List Offer) → any (is_selected k) l ≡ true → any (is_of k) l ≡ true
selected_offered k [] h = h
selected_offered k (o ∷ l) h = ground (arith, selected_offered k l)

look_at-Inv_self :
    (o : Offer) (l : List Offer) (f : Found)
    → Inv (selection_key o.1) l f
    → Inv (selection_key o.1) (l ++ o ∷ []) (look_at o f)
look_at-Inv_self o l f (h, g, s) =
    let k = selection_key o.1 in
    ground (
      arith,
      any_of k o l f,
      any_chosen k o l f,
      found_more k o l f k,
      chosen_more k o l f k,
      first_of k o l f,
      get-assign k (selectable_image o) f.selectable k,
      key_self k,
      has-get f.selectable k,
      any-first (is_of k) l,
      selected_offered k l,
    )

look_at-Inv :
    (k : Key) (o : Offer) (l : List Offer) (f : Found)
    → Inv k l f
    → Inv k (l ++ o ∷ []) (look_at o f)
look_at-Inv k o l f inv = elim (Bool-cases (is_of k o)) [
  | inl hit ↦
      let e = key_same (selection_key o.1) k hit in
      subst (λ j. Inv j (l ++ o ∷ []) (look_at o f)) e
        (look_at-Inv_self o l f (subst (λ j. Inv j l f) (sym e) inv))
  | inr miss ↦ look_at-Inv_other k o l f miss inv
]

look_at_all-Inv :
    (k : Key) (rest l : List Offer) (f : Found) → Inv k l f → Inv k (l ++ rest) (look_at_all rest f)
look_at_all-Inv k [] l f inv = rw (append-nil l) inv
look_at_all-Inv k (o ∷ rest) l f inv =
    rw (← append_assoc l (o ∷ []) rest)
      (look_at_all-Inv k rest (l ++ o ∷ []) (look_at o f) (look_at-Inv k o l f inv))

get-pop_selected :
    (keys : List Key) (d : List (Key × SelectableImage)) (k : Key)
    → Dict.get (pop_selected keys d) k ≡ (if mem_key keys k then none else Dict.get d k)
get-pop_selected [] d k = refl
get-pop_selected (j ∷ keys) d k =
    ground (arith, get-pop_selected keys (Dict.remove j d) k, get-remove j d k)

-- The image of the first offer of the key, if no offer of it is selected.
abbrev expected : Bool → Option Offer → Option SelectableImage
expected true o = none
expected false none = none
expected false (some o) = some (selectable_image o)

expected_lem :
    (k : Key) (l : List Offer) (f : Found)
    → Inv k l f
    → Dict.get (pop_selected f.selected f.selectable) k
      ≡ expected (any (is_selected k) l) (first (is_of k) l)
expected_lem k l f (h, g, s) =
    ground (arith, get-pop_selected f.selected f.selectable k, first_selected l, g, s)
  where
    first_selected :
        (l : List Offer)
        → any (is_selected k) l ≡ false
        → unselected (first (is_of k) l) ≡ expected false (first (is_of k) l)
    first_selected [] h = refl
    first_selected (o ∷ l) h = ground (arith, first_selected l)

abbrev IsTable : List (Key × SelectableImage) → Type 0
IsTable d = IsDict d × IsKeyed selectable_key d

look_at-IsTable : (o : Offer) (f : Found) → IsTable f.selectable → IsTable (look_at o f).selectable
look_at-IsTable o f t = elim (Bool-cases o.1.selected) [
  | inl chosen ↦ elim (Bool-cases (Dict.has f.selectable (selection_key o.1))) [
    | inl known ↦ rw (chosen, known) t
    | inr unknown ↦ rw (chosen, unknown) t
  ]
  | inr free ↦ elim (Bool-cases (mem_key f.images_found (selection_key o.1))) [
    | inl known ↦ rw (free, known) t
    | inr unknown ↦
        rw (free, unknown)
          (
            assign-IsDict (selection_key o.1) (selectable_image o) f.selectable t.0,
            assign-IsKeyed selectable_key (selectable_image o) f.selectable t.1,
          )
  ]
]

look_at_all-IsTable :
    (l : List Offer) (f : Found) → IsTable f.selectable → IsTable (look_at_all l f).selectable
look_at_all-IsTable [] f t = t
look_at_all-IsTable (o ∷ l) f t = look_at_all-IsTable l (look_at o f) (look_at-IsTable o f t)

pop_selected-IsTable :
    (keys : List Key) (d : List (Key × SelectableImage)) → IsTable d → IsTable (pop_selected keys d)
pop_selected-IsTable [] d t = t
pop_selected-IsTable (k ∷ keys) d t =
    pop_selected-IsTable keys (Dict.remove k d)
      (remove-IsDict k d t.0, remove-IsKeyed selectable_key k d t.1)

pub same_keys : (k j i : Key) → key_eq j k ≡ true → key_eq i k ≡ true → key_le j i ≡ true
same_keys k j i hj hi = key_le_same j i (rw (key_same j k hj, key_same i k hi) (key_self k))

-- The images of a key in the answer: none if some source has it selected, and otherwise the one that
-- the source of the highest priority offers, if any does.
pub get_selectable_images_lem :
    (d : ImageDb) (k : Key)
    → select (λ i. key_eq (selectable_key i) k) (get_selectable_images d)
      ≡ to_list (expected (any (is_selected k) (offers d)) (first (is_of k) (offers d)))
unfolding get_selectable_images
get_selectable_images_lem d k =
    let f = look_at_all (offers d) nothing_found in
    let t =
      pop_selected-IsTable f.selected f.selectable
        (look_at_all-IsTable (offers d) nothing_found (tt, tt)) in
    select-sort (λ a b. key_le (selectable_key a) (selectable_key b))
      (λ i. key_eq (selectable_key i) k) (map (λ e. e.1) (pop_selected f.selected f.selectable))
      (λ a b pa pb. same_keys k (selectable_key a) (selectable_key b) pa pb)
    ∙ select-values selectable_key (pop_selected f.selected f.selectable) k t.0 t.1
    ∙ ap to_list (
        expected_lem k (offers d) f
          (look_at_all-Inv k (offers d) [] nothing_found (refl, refl, refl)))
