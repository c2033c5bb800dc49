-- ===== src/Images/Index/Agreement.antt =====
-- The index and the download documents of `IndexService` over one view.
mod Keys
mod Parts
mod Entries
use maas_site_manager.Common.{
  ℕ, String, Option, none, some, List, [], ◌∷◌, map, ◌≡◌, refl, ◌∙◌, ap, sym, subst, All, select,
  ◌++◌, any, str_eq, Bool-cases, inl, inr,
}
use maas_site_manager.Common.Dict
use maas_site_manager.Common.Dict.{Eq-String}
use maas_site_manager.Common.Dict.Members.{add_all}
use maas_site_manager.Common.Result.{ok}
use maas_site_manager.Common.Sorts.{sort, str_le}
use maas_site_manager.Images.Index.{
  IndexProduct, DownloadPartition, partition_eq, partition_of, content_id, fetch_products, retained,
}
use maas_site_manager.Images.Index.Naming.{product_key, reverse_fqdn}
use maas_site_manager.Images.Index.Documents.{
  IndexEntry, Product, Download, IndexType, index, download, index_json, download_json,
  of_partition, generate_index_json, generate_download_json, get_index, download_of, fill, finish,
}
use maas_site_manager.Images.Index.Agreement.Entries.{listed, get-index_entries}
use maas_site_manager.Images.Index.Agreement.Keys.{fill-keys}
use maas_site_manager.Images.Index.Agreement.Parts.{retained-partition, retained-All, Rows}
use Prim.Native.String.{◌++◌ as ◌+++◌}

-- The entry for a document of the given keys, if it has any.
abbrev pub entry_for : String → List String → Option IndexEntry
entry_for content [] = none
entry_for content (k ∷ ks) =
    some
      (record { path = "streams/v1/" +++ (content +++ ".json"); products = sort str_le (k ∷ ks) })

adds :
    (k : String) (s ks : List String)
    → (j : String) × (js : List String) × (add_all (k ∷ s) ks ≡ j ∷ js)
adds k s [] = (k, s, refl)
adds k s (j ∷ ks) = elim (Bool-cases (any (λ i. str_eq i j) (k ∷ s))) [
  | inl hit ↦ rw hit (adds k s ks)
  | inr miss ↦ rw miss (adds k (s ++ j ∷ []) ks)
]

listed-entry :
    (p : DownloadPartition) (rev : String) (products : List IndexProduct)
    → listed p rev products
      ≡ entry_for (content_id p rev) (add_all [] (map (product_key rev) products))
listed-entry p rev [] = refl
listed-entry p rev (x ∷ products) =
    let a = adds (product_key rev x) [] (map (product_key rev) products) in rw a.2 refl

generated :
    (p : DownloadPartition) (products : List IndexProduct) (fqdn : String)
    (made : List (String × Product))
    → fill (reverse_fqdn fqdn) products [] ≡ ok made
    → generate_download_json p products fqdn
      ≡ ok (record { content = content_id p (reverse_fqdn fqdn); products = made })
generated p products fqdn made h =
    subst (λ o. finish p fqdn o ≡ finish p fqdn (ok made)) (sym h) refl

-- A partition's document is made, and the index has of it the entry for its keys.
abbrev AgreesAt :
    (String → String)
    → List IndexProduct
    → String
    → List (String × IndexEntry)
    → DownloadPartition
    → Type 0
AgreesAt lower view fqdn entries p =
    (doc : Download) × (get_index lower view download fqdn (some p) ≡ ok (download_json doc))
    × (doc.content ≡ content_id p (reverse_fqdn fqdn))
    × (Dict.get entries doc.content ≡ entry_for doc.content (map (λ e. e.0) doc.products))

abbrev pub Agrees : (String → String) → List IndexProduct → String → Type 0
Agrees lower view fqdn =
    (entries : List (String × IndexEntry)) × (get_index lower view index fqdn none
      ≡ ok (index_json entries))
    × ((p : DownloadPartition) → AgreesAt lower view fqdn entries p)

-- Where the id of an asset tells the partition, and a product's key its version, every download document
-- is made, and the index has for its content id an entry with the sorted keys of its products, or none if
-- the document is empty.
pub get_index_lem :
    (lower : String → String) (view : List IndexProduct) (fqdn : String)
    (part_of : ℕ → DownloadPartition) (version_of : String → String)
    → All (λ p. partition_of lower p ≡ part_of p.id) view
    → All (λ p. p.version ≡ version_of (product_key (reverse_fqdn fqdn) p)) view
    → Agrees lower view fqdn
unfolding get_index
get_index_lem lower view fqdn part_of version_of grouped versioned = (_, refl, λ p. made p)
  where
    all : Rows
    all = retained (fetch_products lower none view)

    rev : String
    rev = reverse_fqdn fqdn

    made :
        (p : DownloadPartition)
        → AgreesAt lower view fqdn (generate_index_json (λ q. of_partition q all) fqdn) p
    made p =
        let products = map (λ r. r.0) (retained (fetch_products lower (some p) view)) in
        let filled =
          fill-keys rev version_of products []
            (retained-All (λ x. x.version ≡ version_of (product_key rev x)) lower (some p) view
              versioned)
            tt in
        let doc : Download = record { content = content_id p rev; products = filled.0 } in
        let json : get_index lower view download fqdn (some p) ≡ ok (download_json doc) =
          ap download_of (generated p products fqdn filled.0 filled.1) in
        let part : of_partition p all ≡ products =
          ap (map (λ r. r.0)) (sym (retained-partition lower view part_of p grouped)) in
        (
          doc,
          json,
          refl,
          get-index_entries (λ q. of_partition q all) rev p
              ∙ ap (listed p rev) part
              ∙ listed-entry p rev products
              ∙ ap (entry_for (content_id p rev)) (sym filled.2),
        )
