-- ===== src/Images/Available/Retired.antt =====
-- The loop over the existing selections, in closed form.
use maas_site_manager.Common.{
  ◌≡◌, refl, ap, Bool, true, false, not, List, [], ◌∷◌, ◌++◌, map, ◌==◌, ◌&&◌, ◌||◌, select, any,
  All, arith, if◌then◌else◌, fun_ext,
}
use maas_site_manager.Common.Result.{ok, pure, ◌>>=◌}
use maas_site_manager.Common.Rows.{delete, delete-delete, All-map}
use maas_site_manager.Common.Unique.{Unique}
use maas_site_manager.Images.Tables.{BootSourceSelection, ImageDb}
use maas_site_manager.Images.Available.{
  Key, key_eq, selection_key, mem, delete_selection, retire, retire_each,
}
use maas_site_manager.Images.Available.Dicts.{key_eq_refl}

-- The statement `delete` of a selection matches the row.
abbrev pub matches : BootSourceSelection → BootSourceSelection → Bool
matches v s = s.id == v.id && s.boot_source_id == v.boot_source_id

abbrev pub doomed : List Key → BootSourceSelection → Bool
doomed stale v = mem stale (selection_key v) && not v.selected

delete_never : (rows : List BootSourceSelection) → delete (λ s. false) rows ≡ rows
delete_never [] = refl
delete_never (s ∷ rows) = ap (◌∷◌ s) (delete_never rows)

any-cons :
    (stale : List Key) (v : BootSourceSelection) (l : List BootSourceSelection)
    (s : BootSourceSelection)
    → ((doomed stale v && matches v s) || any (λ w. doomed stale w && matches w s) l)
      ≡ any (λ w. doomed stale w && matches w s) (v ∷ l)
any-cons stale v l s = ground arith

drop_lem :
    (kept : Bool) (v : BootSourceSelection) (d : ImageDb)
    → (if kept then pure tt else delete_selection v.boot_source_id v.id) d
      ≡ ok (tt, record d { selections = delete (λ s. not kept && matches v s) d.selections })
unfolding delete_selection
drop_lem true v d = rw (delete_never d.selections) refl
drop_lem false v d = refl

retire_lem :
    (old : Bool) (v : BootSourceSelection) (d : ImageDb)
    → retire old v d
      ≡ ok (
        if old then v ∷ [] else [],
        record d { selections = delete (λ s. (old && not v.selected) && matches v s) d.selections },
      )
retire_lem false v d = rw (delete_never d.selections) refl
retire_lem true v d = rw (drop_lem v.selected v d, ◌>>=◌) refl

cons-if :
    (old : Bool) (v : BootSourceSelection) (l : List BootSourceSelection)
    → (if old then v ∷ [] else []) ++ l ≡ (if old then v ∷ l else l)
cons-if true v l = refl
cons-if false v l = refl

abbrev pub retired : List Key → List BootSourceSelection → ImageDb → ImageDb
retired stale l d = record d {
  selections = delete (λ s. any (λ v. doomed stale v && matches v s) l) d.selections;
}

pub retire_each_lem :
    (stale : List Key) (l : List BootSourceSelection) (d : ImageDb)
    → retire_each stale (map (λ v. (selection_key v, v)) l) d
      ≡ ok (select (λ v. mem stale (selection_key v)) l, retired stale l d)
unfolding retire_each
retire_each_lem stale [] d = rw (delete_never d.selections) refl
retire_each_lem stale (v ∷ l) d =
    let old = mem stale (selection_key v) in
    let e = record d { selections = delete (λ s. doomed stale v && matches v s) d.selections } in
    rw (retire_lem old v d, ◌>>=◌)
      (rw (retire_each_lem stale l e, ◌>>=◌)
        (rw (cons-if old v (select (λ w. mem stale (selection_key w)) l)) (
          rw
            (delete-delete (λ s. any (λ w. doomed stale w && matches w s) l)
              (λ s. doomed stale v && matches v s) d.selections)
            (rw (fun_ext (any-cons stale v l)) refl))))

-- Every row of the list has the key of a row of the list.
pub listed :
    (l : List BootSourceSelection)
    → All (λ v. any (λ y. key_eq (selection_key y) (selection_key v)) l ≡ true) l
listed [] = tt
listed (v ∷ l) = (
  rw (key_eq_refl (selection_key v)) refl,
  All-map (λ w. any (λ y. key_eq (selection_key y) (selection_key w)) l ≡ true)
      (λ w. any (λ y. key_eq (selection_key y) (selection_key w)) (v ∷ l) ≡ true) l
      (λ w h. ground arith) (listed l),
)

pub select-All :
    (p q : BootSourceSelection → Bool) (l : List BootSourceSelection)
    → All (λ v. p v ≡ q v) l
    → select p l ≡ select q l
select-All p q [] h = refl
select-All p q (v ∷ l) h = ground (arith, h.0, select-All p q l h.1)

pub any-All :
    (p q r : BootSourceSelection → Bool) (l : List BootSourceSelection)
    → All (λ v. p v ≡ q v) l
    → any (λ v. p v && r v) l ≡ any (λ v. q v && r v) l
any-All p q r [] h = refl
any-All p q r (v ∷ l) h = ground (arith, h.0, any-All p q r l h.1)

-- With distinct ids, deleting what matches a row that passes is deleting the rows that pass.
absent_match :
    (c : BootSourceSelection → Bool) (s : BootSourceSelection) (rows : List BootSourceSelection)
    → any (λ y. y.id == s.id) rows ≡ false
    → any (λ v. c v && matches v s) rows ≡ false
absent_match c s [] h = refl
absent_match c s (v ∷ rows) h = ground (arith, absent_match c s rows)

delete_apart :
    (c : BootSourceSelection → Bool) (a : BootSourceSelection) (l rows : List BootSourceSelection)
    → any (λ y. y.id == a.id) rows ≡ false
    → delete (λ s. any (λ v. c v && matches v s) (a ∷ l)) rows
      ≡ delete (λ s. any (λ v. c v && matches v s) l) rows
delete_apart c a l [] h = refl
delete_apart c a l (s ∷ rows) h = ground (arith, delete_apart c a l rows)

pub delete_matching :
    (c : BootSourceSelection → Bool) (rows : List BootSourceSelection)
    → Unique ◌==◌ (λ (s : BootSourceSelection). s.id) rows
    → delete (λ s. any (λ v. c v && matches v s) rows) rows ≡ delete c rows
delete_matching c [] u = refl
delete_matching c (a ∷ rows) u =
    ground
      (arith, absent_match c a rows u.0, delete_apart c a rows rows u.0, delete_matching c rows u.1)
