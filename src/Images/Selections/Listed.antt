-- ===== src/Images/Selections/Listed.antt =====
-- What `get_selected_images` answers.
use maas_site_manager.Common.{
  String, Bool, true, eq_iff, map, str_eq, is_none, ◌&&◌, false, Option, none, some, List, [], ◌∷◌,
  ◌++◌, ◌==◌, ◌||◌, ◌≡◌, refl, ap, sym, ◌∙◌, select, any, first, arith, if◌then◌else◌, Bool-cases,
  inl, inr, ◌⊎◌, subst,
}
use mathlib.Core.List.{append-nil, append_assoc}
use maas_site_manager.Common.Dict.Values.{to_list}
use maas_site_manager.Common.Rows.{any-append, first-append, or_first, any-first, select-append}
use maas_site_manager.Common.Sorts.{sort, select-sort}
use maas_site_manager.Common.Result.{ok, ◌>>=◌}
use maas_site_manager.Images.Tables.{BootSource, BootAsset, ImageDb, in_source}
use maas_site_manager.Images.Keys.{Key, key_eq, key_le, key_same, key_self}
use maas_site_manager.Images.Selections.{selection_key, offers, mem_key, custom_image_source_id}
use maas_site_manager.Images.Selections.Selectable.{Offer, is_of, is_selected, same_keys}
use maas_site_manager.Images.Selections.Priority.{
  IsBest, Unselected, first-none_lem, first-some_lem,
}
use maas_site_manager.Images.Selections.Shown.{
  SelectedImage, selected_key, Listed, custom_image, with_release, custom_images, selected_image,
  list_selected, list_all, get_selected_images,
}

some_of : (o : Option String) → is_none o ≡ false → (r : String) × (o ≡ some r)
some_of none h = absurd cc
some_of (some r) h = (r, refl)

abbrev has_release : String → Option String → Bool
has_release r none = false
has_release r (some s) = str_eq s r

abbrev pub has_key : Key → SelectedImage → Bool
has_key k i = key_eq (selected_key i) k

module _ (icontains : String → String → Bool) (d : ImageDb) where
  abbrev pub shown : Option Offer → Option SelectedImage
  shown none = none
  shown (some o) = some (selected_image icontains d o)

  abbrev Inv : Key → List Offer → Listed → Type 0
  Inv k l acc =
      (mem_key acc.1 k ≡ any (is_selected k) l)
      × (select (has_key k) acc.0 ≡ to_list (shown (first (is_selected k) l)))

  module _ (k : Key) (o : Offer) (l : List Offer) (acc : Listed) where
    any_chosen : any (is_selected k) (l ++ o ∷ []) ≡ (any (is_selected k) l || is_selected k o)
    any_chosen = any-append (is_selected k) l (o ∷ []) ∙ ground arith

    found_more : (j : Key) → mem_key (acc.1 ++ j ∷ []) k ≡ (mem_key acc.1 k || key_eq j k)
    found_more j = any-append (λ i. key_eq i k) acc.1 (j ∷ []) ∙ ground arith

    first_chosen :
        first (is_selected k) (l ++ o ∷ [])
        ≡ or_first (first (is_selected k) l) (if is_selected k o then some o else none)
    first_chosen = first-append (is_selected k) l (o ∷ [])

    shown_more : select (has_key k) (acc.0 ++ selected_image icontains d o ∷ []) ≡ (
        if is_of k o
        then select (has_key k) acc.0 ++ selected_image icontains d o ∷ []
        else select (has_key k) acc.0)
    shown_more =
        select-append (has_key k) acc.0 (selected_image icontains d o ∷ [])
        ∙ ground (arith, append-nil (select (has_key k) acc.0))

  list_selected-Inv_other :
      (k : Key) (o : Offer) (l : List Offer) (acc : Listed)
      → is_of k o ≡ false
      → Inv k l acc
      → Inv k (l ++ o ∷ []) (list_selected icontains d o acc)
  list_selected-Inv_other k o l acc miss (h, s) = ground (
    arith,
    any_chosen k o l acc,
    found_more k o l acc (selection_key o.1),
    first_chosen k o l acc,
    shown_more k o l acc,
    miss,
  )

  list_selected-Inv_self :
      (o : Offer) (l : List Offer) (acc : Listed)
      → Inv (selection_key o.1) l acc
      → Inv (selection_key o.1) (l ++ o ∷ []) (list_selected icontains d o acc)
  list_selected-Inv_self o l acc (h, s) =
      let k = selection_key o.1 in
      ground (
        arith,
        any_chosen k o l acc,
        found_more k o l acc k,
        first_chosen k o l acc,
        shown_more k o l acc,
        key_self k,
        any-first (is_selected k) l,
      )

  list_selected-Inv :
      (k : Key) (o : Offer) (l : List Offer) (acc : Listed)
      → Inv k l acc
      → Inv k (l ++ o ∷ []) (list_selected icontains d o acc)
  list_selected-Inv k o l acc inv = elim (Bool-cases (is_of k o)) [
    | inl hit ↦
        let e = key_same (selection_key o.1) k hit in
        subst (λ j. Inv j (l ++ o ∷ []) (list_selected icontains d o acc)) e
          (list_selected-Inv_self o l acc (subst (λ j. Inv j l acc) (sym e) inv))
    | inr miss ↦ list_selected-Inv_other k o l acc miss inv
  ]

  list_all-Inv :
      (k : Key) (rest l : List Offer) (acc : Listed)
      → Inv k l acc
      → Inv k (l ++ rest) (list_all icontains d rest acc)
  list_all-Inv k [] l acc inv = rw (append-nil l) inv
  list_all-Inv k (o ∷ rest) l acc inv = rw (← append_assoc l (o ∷ []) rest) (
      list_all-Inv k rest (l ++ o ∷ []) (list_selected icontains d o acc)
        (list_selected-Inv k o l acc inv))

  -- The assets of the custom source with the key.
  abbrev pub is_custom : BootSource → Key → BootAsset → Bool
  is_custom custom k a =
      in_source custom.id a
      && (str_eq a.os k.0 && (has_release k.1.0 a.release && str_eq a.arch k.1.1))

  -- What the page shows of them, in the order of the table.
  abbrev pub customs : BootSource → Key → List BootAsset → List SelectedImage
  customs custom k assets =
      map (λ a. custom_image custom d a k.1.0) (select (is_custom custom k) assets)

  module _ (custom : BootSource) (k : Key) where
    is_custom-has_key :
        (a : BootAsset) (r : String)
        → in_source custom.id a ≡ true
        → a.release ≡ some r
        → is_custom custom k a ≡ has_key k (custom_image custom d a r)
    is_custom-has_key a r here e =
        let h : has_release k.1.0 a.release ≡ str_eq r k.1.0 = ap (has_release k.1.0) e in
        ground (arith, here, h)

    listed_asset :
        (a : BootAsset) (assets : List BootAsset) (r : String) (l : List SelectedImage)
        → in_source custom.id a ≡ true
        → a.release ≡ some r
        → select (has_key k) l ≡ customs custom k assets
        → select (has_key k) (custom_image custom d a r ∷ l) ≡ customs custom k (a ∷ assets)
    listed_asset a assets r l here e h =
        let c = is_custom-has_key a r here e in
        elim (Bool-cases (has_key k (custom_image custom d a r))) [
          | inl hit ↦
              let q : r ≡ k.1.0 = (eq_iff r k.1.0).0 (ground arith) in
              rw (hit, c ∙ hit)
                (ap (λ t. custom_image custom d a t ∷ select (has_key k) l) q
                  ∙ ap (λ t. custom_image custom d a k.1.0 ∷ t) h)
          | inr miss ↦ rw (miss, c ∙ miss) h
        ]

    -- Some asset of the custom source has no release.
    abbrev pub lacks_release : List BootAsset → Bool
    lacks_release assets = any (λ a. in_source custom.id a && is_none a.release) assets

    listed_release :
        (a : BootAsset) (assets : List BootAsset) (r : String) (l : List SelectedImage)
        → a.release ≡ some r
        → custom_images custom d (select (in_source custom.id) assets) ≡ some l
        → custom_images custom d (a ∷ select (in_source custom.id) assets)
          ≡ some (custom_image custom d a r ∷ l)
    listed_release a assets r l e h =
        ap
          (λ t.
            with_release t (custom_image custom d a)
              (custom_images custom d (select (in_source custom.id) assets)))
          e
        ∙ ap (with_release (some r) (custom_image custom d a)) h

    custom_images_lem :
        (assets : List BootAsset)
        → lacks_release assets ≡ false
        → (l : List SelectedImage) × (custom_images custom d (select (in_source custom.id) assets)
            ≡ some l)
          × (select (has_key k) l ≡ customs custom k assets)
    custom_images_lem [] h = ([], refl, refl)
    custom_images_lem (a ∷ assets) h =
        let rest = custom_images_lem assets (ground arith) in
        elim (Bool-cases (in_source custom.id a)) [
          | inl here ↦
              let (r, e) = some_of a.release (ground arith) in
              (
                custom_image custom d a r ∷ rest.0,
                rw here (listed_release a assets r rest.0 e rest.1),
                listed_asset a assets r rest.0 here e rest.2,
              )
          | inr there ↦ (rest.0, rw there rest.1, rw there rest.2)
        ]

  -- What the page shows under a key: the image of a source that has it selected, of the highest
  -- priority, if any has, and then the custom images of the key.
  abbrev pub Shows : BootSource → Key → List SelectedImage → Type 0
  Shows custom k l =
      ((o : Offer) × IsBest d k o × (l ≡ selected_image icontains d o ∷ customs custom k d.assets))
      ⊎ (Unselected d k × (l ≡ customs custom k d.assets))

  shown-Shows :
      (custom : BootSource) (k : Key) (r : Option Offer)
      → first (is_selected k) (offers d) ≡ r
      → Shows custom k (to_list (shown r) ++ customs custom k d.assets)
  shown-Shows custom k none e = inr (first-none_lem d k e, refl)
  shown-Shows custom k (some o) e = inl (o, first-some_lem d k o e, refl)

  -- With the custom source there, and a release for each of its assets, the request succeeds. Under each
  -- key it shows the image of a source that has it selected while no source of a higher priority has, or
  -- none if no source has, and then the image of each asset of the custom source with the key, in the
  -- order of the table.
  pub get_selected_images_lem :
      (k : Key) (custom : BootSource)
      → select (λ s. s.id == custom_image_source_id) d.sources ≡ custom ∷ []
      → lacks_release custom k d.assets ≡ false
      → (l : List SelectedImage) × (get_selected_images icontains d ≡ ok (l, d))
        × Shows custom k (select (has_key k) l)
  unfolding get_selected_images
  get_selected_images_lem k custom found valid =
      let images = custom_images_lem custom k d.assets valid in
      let listed = list_all icontains d (offers d) ([], []) in
      let le = λ (a b : SelectedImage). key_le (selected_key a) (selected_key b) in
      let shows : select (has_key k) (sort le (listed.0 ++ images.0))
          ≡ to_list (shown (first (is_selected k) (offers d))) ++ customs custom k d.assets =
        select-sort le (has_key k) (listed.0 ++ images.0)
          (λ a b pa pb. same_keys k (selected_key a) (selected_key b) pa pb)
        ∙ select-append (has_key k) listed.0 images.0
        ∙ ap (λ l. l ++ select (has_key k) images.0)
            (list_all-Inv k (offers d) [] ([], []) (refl, refl)).1
        ∙ ap (λ l. to_list (shown (first (is_selected k) (offers d))) ++ l) images.2 in
      (
        sort le (listed.0 ++ images.0),
        rw (found, images.1, ◌>>=◌) refl,
        rw shows (shown-Shows custom k (first (is_selected k) (offers d)) refl),
      )
