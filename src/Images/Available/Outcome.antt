-- ===== src/Images/Available/Outcome.antt =====
-- What the handler leaves of the selections of a source.
use maas_site_manager.Common.{
  ℕ, ◌<◌, ◌≡◌, refl, ap, sym, ◌∙◌, Bool, true, false, not, List, [], ◌∷◌, ◌++◌, ◌==◌, ◌&&◌, select,
  any, All, arith, fun_ext,
}
use maas_site_manager.Common.Result.{ok, ◌>>=◌}
use maas_site_manager.Common.Rows.{delete, any-and_swap, All-map}
use maas_site_manager.Common.Unique.{Unique}
use maas_site_manager.Images.Tables.{BootSource, BootSourceSelection, ImageDb, refresh_index}
use maas_site_manager.Images.Available.{
  AvailableBootSourceSelection, Key, key_eq, offer_key, selection_key, collect, mem, difference,
  put_boot_source_avail_selections,
}
use maas_site_manager.Images.Available.Dicts.{
  key_eq_refl, mem-difference, Keyed-collect, empty-NewKeys, collect-Unique,
}
use maas_site_manager.Images.Available.Created.{
  rows_from, advance, with_rows, create_each_lem, any-rows_from, IsNew, rows_from-IsNew,
}
use maas_site_manager.Images.Available.Retired.{
  matches, doomed, retire_each_lem, select-All, any-All, delete_matching,
}
use maas_site_manager.Images.Available.Stale.{
  offered, of_source, has_key, selections_of, delete-append, All-select, new_kept, incoming, held,
  stale-offered, new-offered, retires,
}

subset :
    (l m : List Key)
    → ((k : Key) → mem l k ≡ true → mem m k ≡ true)
    → any (λ k. not (mem m k)) l ≡ false
subset [] m h = refl
subset (k ∷ l) m h =
    let here : mem m k ≡ true = h k (ground (arith, key_eq_refl k)) in
    let rest = subset l m (λ j there. h j (ground arith)) in ground arith

-- The ids of the selections are distinct and were drawn from the sequence, and no two selections
-- of the source have the same key.
pub record IsSelectable (id : ℕ) (d : ImageDb) : Type 0 where
  pub ids : Unique ◌==◌ (λ (s : BootSourceSelection). s.id) d.selections
  pub ids_drawn : All (λ s. s.id < d.selection_sequence) d.selections
  pub keys_unique : Unique key_eq selection_key (selections_of id d)

and_assoc : (a b e : Bool) → (a && (b && e)) ≡ ((a && b) && e)
and_assoc a b e = ground arith

-- What the loop over the existing selections deletes, the new rows being there.
retired_rows :
    (id : ℕ) (available : List AvailableBootSourceSelection) (d : ImageDb)
    (new : List BootSourceSelection)
    → IsSelectable id d
    → All (IsNew id d.selection_sequence) new
    → delete
        (λ s.
          any
            (λ v.
              doomed
                (difference
                  (held available (selections_of id d))
                  (incoming available (selections_of id d)))
                v
              && matches v s)
            (selections_of id d))
        (d.selections ++ new)
      ≡ delete (retires id available) d.selections ++ new
retired_rows id available d new ok_d made =
    let l = selections_of id d in
    let stale = difference (held available l) (incoming available l) in
    let c =
      λ (v : BootSourceSelection). not (offered available (selection_key v)) && not v.selected in
    let same =
      All-map (λ v. mem stale (selection_key v) ≡ not (offered available (selection_key v)))
        (λ v. doomed stale v ≡ c v) l (λ v h. ap (λ b. b && not v.selected) h)
        (stale-offered available l) in
    delete-append (λ s. any (λ v. doomed stale v && matches v s) l) d.selections new
    ∙ rw
        (new_kept d.selection_sequence id (doomed stale) l new
          (All-select d.selection_sequence (of_source id) d.selections ok_d.ids_drawn) made)
        (rw
          (fun_ext (λ (s : BootSourceSelection).
            any-All (doomed stale) c (λ v. matches v s) l same
            ∙ sym (any-and_swap (λ v. c v && matches v s) (of_source id) d.selections)
            ∙ ap (λ p. any p d.selections)
                (fun_ext
                  (λ (v : BootSourceSelection). and_assoc (of_source id v) (c v) (matches v s)))))
          (ap (λ rows. rows ++ new) (delete_matching (retires id available) d.selections ok_d.ids)))

-- For a source that exists and selections that are well-formed, the request succeeds, whatever the
-- order in which the set of new keys is run through. It answers with the selections of the source
-- that are not offered. It deletes of those the ones that are not selected and no other row. It
-- creates selections of the source, not selected, under fresh ids, and a key is created exactly if
-- it is offered and the source had no selection with it.
pub put_avail_selections_lem :
    (iterate : List Key → List Key) (id : ℕ) (available : List AvailableBootSourceSelection)
    (s : BootSource) (d : ImageDb)
    → ((q : Key → Bool) (l : List Key) → any q (iterate l) ≡ any q l)
    → select (λ r. r.id == id) d.sources ≡ s ∷ []
    → IsSelectable id d
    → (created : List BootSourceSelection) × (next : ℕ) × (put_boot_source_avail_selections iterate
          id available d
        ≡ ok (
          select (λ v. not (offered available (selection_key v))) (selections_of id d),
          record d {
            selections = delete (retires id available) d.selections ++ created;
            selection_sequence = next;
            effects = d.effects ++ refresh_index ∷ [];
          },
        ))
      × All (IsNew id d.selection_sequence) created
      × ((k : Key)
          → has_key created k ≡ (offered available k && not (has_key (selections_of id d) k)))
unfolding put_boot_source_avail_selections
put_avail_selections_lem iterate id available s d once found ok_d =
    let l = selections_of id d in
    let map_in = collect offer_key [] available in
    let new_keys = difference (incoming available l) (held available l) in
    let stale = difference (held available l) (incoming available l) in
    let map_held =
      collect-Unique selection_key [] l ok_d.keys_unique (empty-NewKeys selection_key l) in
    let all_in =
      once (λ k. not (mem (incoming available l) k)) new_keys
      ∙ subset new_keys (incoming available l)
          (λ k h. ground (arith, mem-difference (incoming available l) (held available l) k)) in
    let (ps, made, keys_made) =
      create_each_lem id map_in (iterate new_keys) d (Keyed-collect offer_key [] available tt)
        all_in in
    let new = rows_from id d.selection_sequence ps in
    let is_new = rows_from-IsNew id d.selection_sequence d.selection_sequence ps (omega arith) in
    (
      new,
      advance d.selection_sequence ps,
      rw (found, ◌>>=◌)
          (rw map_held (
            rw (made, ◌>>=◌)
              (rw (retire_each_lem stale l (with_rows id ps d), ◌>>=◌)
                (rw
                  (
                    select-All (λ v. mem stale (selection_key v))
                        (λ v. not (offered available (selection_key v))) l
                        (stale-offered available l),
                    retired_rows id available d new ok_d is_new,
                  )
                  refl)))),
      is_new,
      λ k.
          any-rows_from (λ j. key_eq j k) id d.selection_sequence ps
          ∙ rw keys_made (once (λ j. key_eq j k) new_keys ∙ new-offered available l k),
    )
