-- ===== src/Sites/Decisions.antt =====
-- Accepting and rejecting several pending sites at once.
use maas_site_manager.Common.{
  ℕ, ◌≡◌, refl, ◌∙◌, Bool, true, false, not, some, List, [], ◌∷◌, map, ◌==◌, ◌&&◌, select, any, All,
  length, arith, if◌then◌else◌, Bool-cases, inl, inr,
}
use maas_site_manager.Common.Result.{ok, raise, invalid_pending_sites, ◌>>=◌}
use maas_site_manager.Common.Rows.{update, delete, All-map}
use maas_site_manager.Sites.Tables.{SiteRow, Db}
use maas_site_manager.Sites.Tokens.{member}
use maas_site_manager.Sites.Service.{is_pending, missing, accept_reject_pending}

-- The id is that of a pending site.
abbrev pub is_pending_id : List SiteRow → ℕ → Bool
is_pending_id sites i = any (λ r. (r.id == i) && is_pending r) sites

abbrev pub found_ids : List ℕ → List SiteRow → List ℕ
found_ids ids sites = map (λ r. r.id) (select (λ r. member r.id ids && is_pending r) sites)

member-same : (ids : List ℕ) (i j : ℕ) → (i == j) ≡ true → member i ids ≡ member j ids
member-same [] i j h = refl
member-same (k ∷ ids) i j h = ground (arith, member-same ids i j h)

member-found_ids :
    (ids : List ℕ) (sites : List SiteRow) (i : ℕ)
    → member i (found_ids ids sites) ≡ (member i ids && is_pending_id sites i)
member-found_ids ids [] i = ground arith
member-found_ids ids (r ∷ sites) i = elim (Bool-cases (r.id == i)) [
  | inl hit ↦ ground (arith, member-found_ids ids sites i, member-same ids r.id i hit)
  | inr miss ↦ ground (arith, member-found_ids ids sites i)
]

member_self : (ids : List ℕ) → All (λ i. member i ids ≡ true) ids
member_self [] = tt
member_self (i ∷ ids) = (
  ground arith,
  All-map (λ j. member j ids ≡ true) (λ j. member j (i ∷ ids) ≡ true) ids (λ j h. ground arith)
      (member_self ids),
)

missing_lem :
    (p q : ℕ → Bool) (ids : List ℕ)
    → All (λ i. p i ≡ q i) ids
    → select (λ i. not (p i)) ids ≡ select (λ i. not (q i)) ids
missing_lem p q [] h = refl
missing_lem p q (i ∷ ids) h = ground (arith, h.0, missing_lem p q ids h.1)

unknown_ids :
    (ids : List ℕ) (sites : List SiteRow)
    → missing ids (found_ids ids sites) ≡ select (λ i. not (is_pending_id sites i)) ids
unknown_ids ids sites =
    missing_lem (λ i. member i (found_ids ids sites)) (is_pending_id sites) ids
      (All-map (λ i. member i ids ≡ true)
        (λ i. member i (found_ids ids sites) ≡ is_pending_id sites i) ids
        (λ i h. member-found_ids ids sites i ∙ rw h refl) (member_self ids))

abbrev pub decided : List ℕ → Bool → ℕ → Db → Db
decided ids accept now d = record d {
  sites =
      update (λ r. member r.id ids)
        (λ r. if accept then record r { accepted = true } else record r { deleted = some now })
        d.sites;
}

no_longer_pending :
    (ids : List ℕ) (accept : Bool) (now : ℕ) (sites : List SiteRow)
    → select is_pending (
        update
          (λ r. member r.id ids)
          (λ r. if accept then record r { accepted = true } else record r { deleted = some now })
          sites)
      ≡ delete (λ r. member r.id ids) (select is_pending sites)
no_longer_pending ids accept now [] = refl
no_longer_pending ids true now (r ∷ sites) = ground (arith, no_longer_pending ids true now sites)
no_longer_pending ids false now (r ∷ sites) = ground (arith, no_longer_pending ids false now sites)

empty_length : (p : ℕ → Bool) (l : List ℕ) → (length (select p l) == 0) ≡ not (any p l)
empty_length p [] = ground arith
empty_length p (i ∷ l) = ground (arith, empty_length p l)

-- A list of sites is accepted or rejected as a whole: if one of the ids is not that of a pending site,
-- the request fails with exactly those ids and decides nothing; otherwise the sites of the list are
-- no longer pending, and the other pending sites are pending still, in their order.
pub accept_reject_pending_lem :
    (ids : List ℕ) (accept : Bool) (now : ℕ) (d : Db)
    → (accept_reject_pending ids accept now d ≡ (
        if any (λ i. not (is_pending_id d.sites i)) ids
        then raise (invalid_pending_sites (select (λ i. not (is_pending_id d.sites i)) ids))
        else ok (tt, decided ids accept now d)))
      × (select is_pending (decided ids accept now d).sites
          ≡ delete (λ r. member r.id ids) (select is_pending d.sites))
unfolding accept_reject_pending
accept_reject_pending_lem ids accept now d =
    let unknown = λ (i : ℕ). not (is_pending_id d.sites i) in
    (
      elim (Bool-cases (any unknown ids)) [
        | inl some_unknown ↦
            rw (unknown_ids ids d.sites)
              (rw (empty_length unknown ids) (rw (some_unknown, ◌>>=◌) refl))
        | inr known ↦
            rw (unknown_ids ids d.sites) (rw (empty_length unknown ids) (rw (known, ◌>>=◌) refl))
      ],
      no_longer_pending ids accept now d.sites,
    )
