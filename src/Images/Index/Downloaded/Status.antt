-- ===== src/Images/Index/Downloaded/Status.antt =====
-- The dictionary that the loop of `_filter_for_fully_downloaded` builds.
use maas_site_manager.Common.{
  ℕ, suc, ◌+◌, Bool, true, false, not, ◌&&◌, Option, none, some, List, [], ◌∷◌, ◌++◌, ◌≡◌, refl, ap,
  ◌∙◌, sym, any, length, length-append, ◌==◌, arith, if◌then◌else◌, Bool-cases, inl, inr,
}
use mathlib.Core.List.{append-nil, append_assoc}
use maas_site_manager.Common.Dict
use maas_site_manager.Common.Dict.{Eq-ℕ, IsDict, assign-IsDict, get-assign, get_absent}
use maas_site_manager.Common.Rows.{any-append}
use maas_site_manager.Images.Index.{IndexProduct, is_synced, DownloadStatus, add_index, status_of}

-- The positions of the products of an id, where the first is at position `n`.
abbrev pub positions : ℕ → List IndexProduct → ℕ → List ℕ
positions k [] n = []
positions k (p ∷ l) n = let rest = positions k l (suc n) in if p.id == k then n ∷ rest else rest

abbrev pub all_synced : ℕ → List IndexProduct → Bool
all_synced k l = not (any (λ p. (p.id == k) && not (is_synced p)) l)

abbrev pub summary : ℕ → List IndexProduct → Option DownloadStatus
summary k l =
    if any (λ p. p.id == k) l
    then some (record { indeces = positions k l 0; downloaded = all_synced k l })
    else none

pub positions-append :
    (k : ℕ) (pre l : List IndexProduct) (n m : ℕ)
    → n + length pre ≡ m
    → positions k (pre ++ l) n ≡ positions k pre n ++ positions k l m
positions-append k [] l n m e = let same : n ≡ m = omega arith in rw same refl
positions-append k (p ∷ pre) l n m e =
    ground (arith, positions-append k pre l (suc n) m (omega arith))

no_positions :
    (k : ℕ) (l : List IndexProduct) (n : ℕ) → any (λ p. p.id == k) l ≡ false → positions k l n ≡ []
no_positions k [] n h = refl
no_positions k (p ∷ l) n h = ground (arith, no_positions k l (suc n))

none_unsynced :
    (k : ℕ) (l : List IndexProduct)
    → any (λ p. p.id == k) l ≡ false
    → any (λ p. (p.id == k) && not (is_synced p)) l ≡ false
none_unsynced k [] h = refl
none_unsynced k (p ∷ l) h = ground (arith, none_unsynced k l)

-- One round of the loop, at the id of its product.
add_index-summary :
    (k i : ℕ) (p : IndexProduct) (pre : List IndexProduct)
    → length pre ≡ i
    → (p.id == k) ≡ true
    → some (add_index i (is_synced p) (summary k pre)) ≡ summary k (pre ++ p ∷ [])
add_index-summary k i p pre e hit = elim (Bool-cases (any (λ q. q.id == k) pre)) [
  | inl seen ↦ rw (seen, any_more, places, synced) refl
  | inr unseen ↦
      rw (unseen, any_more, places, no_positions k pre 0 unseen, synced, none_unsynced k pre unseen)
        refl
]
  where
    any_more : any (λ q. q.id == k) (pre ++ p ∷ []) ≡ true
    any_more = any-append (λ q. q.id == k) pre (p ∷ []) ∙ ground arith

    places : positions k (pre ++ p ∷ []) 0 ≡ positions k pre 0 ++ i ∷ []
    places = positions-append k pre (p ∷ []) 0 i (omega arith) ∙ rw hit refl

    synced : all_synced k (pre ++ p ∷ []) ≡ (all_synced k pre && is_synced p)
    synced = ap not (any-append (λ q. (q.id == k) && not (is_synced q)) pre (p ∷ [])) ∙ ground arith

-- Another id has what it had.
summary_other :
    (k : ℕ) (p : IndexProduct) (pre : List IndexProduct)
    → (p.id == k) ≡ false
    → summary k (pre ++ p ∷ []) ≡ summary k pre
summary_other k p pre miss = rw (same_any, places, synced) refl
  where
    same_any : any (λ q. q.id == k) (pre ++ p ∷ []) ≡ any (λ q. q.id == k) pre
    same_any = any-append (λ q. q.id == k) pre (p ∷ []) ∙ ground arith

    places : positions k (pre ++ p ∷ []) 0 ≡ positions k pre 0
    places =
        positions-append k pre (p ∷ []) 0 (length pre) (omega arith)
        ∙ rw miss (append-nil (positions k pre 0))

    synced : all_synced k (pre ++ p ∷ []) ≡ all_synced k pre
    synced = ap not (any-append (λ q. (q.id == k) && not (is_synced q)) pre (p ∷ []) ∙ ground arith)

abbrev Summarises : List IndexProduct → List (ℕ × DownloadStatus) → Type 0
Summarises pre d = (k : ℕ) → Dict.get d k ≡ summary k pre

abbrev after : IndexProduct → ℕ → List (ℕ × DownloadStatus) → List (ℕ × DownloadStatus)
after p i d = Dict.assign p.id (add_index i (is_synced p) (Dict.get d p.id)) d

after-Summarises :
    (p : IndexProduct) (i : ℕ) (pre : List IndexProduct) (d : List (ℕ × DownloadStatus))
    → length pre ≡ i
    → Summarises pre d
    → Summarises (pre ++ p ∷ []) (after p i d)
after-Summarises p i pre d e h k =
    get-assign p.id (add_index i (is_synced p) (Dict.get d p.id)) d k
    ∙ elim (Bool-cases (p.id == k)) [
      | inl hit ↦ rw hit (
          ap (λ s. some (add_index i (is_synced p) s)) (ap (Dict.get d) (same_id hit) ∙ h k)
          ∙ add_index-summary k i p pre e hit)
      | inr miss ↦ rw miss (h k ∙ sym (summary_other k p pre miss))
    ]
  where
    same_id : (p.id == k) ≡ true → p.id ≡ k
    same_id hit = ground (arith, hit)

status_of-Summarises :
    (l pre : List IndexProduct) (i : ℕ) (d : List (ℕ × DownloadStatus))
    → length pre ≡ i
    → IsDict d
    → Summarises pre d
    → IsDict (status_of l i d) × Summarises (pre ++ l) (status_of l i d)
status_of-Summarises [] pre i d e u h = rw (append-nil pre) (u, h)
status_of-Summarises (p ∷ l) pre i d e u h = rw (← append_assoc pre (p ∷ []) l) (
    status_of-Summarises l (pre ++ p ∷ []) (suc i) (after p i d)
      (omega (arith, e, length-append pre (p ∷ [])))
      (assign-IsDict p.id (add_index i (is_synced p) (Dict.get d p.id)) d u)
      (after-Summarises p i pre d e h))

-- The dictionary has of each id that occurs the positions of its products, and whether all are synced.
pub status_of_lem :
    (l : List IndexProduct)
    → IsDict (status_of l 0 []) × ((k : ℕ) → Dict.get (status_of l 0 []) k ≡ summary k l)
status_of_lem l = status_of-Summarises l [] 0 [] refl tt (λ k. refl)
