-- ===== src/Images/Index/Agreement/Entries.antt =====
-- The entries of the index.
use maas_site_manager.Common.{
  String, true, false, Option, none, some, List, [], ◌∷◌, ◌≡◌, refl, ◌∙◌, ap, sym, arith, str_eq,
  if◌then◌else◌, Bool-cases, inl, inr,
}
use maas_site_manager.Common.Dict
use maas_site_manager.Common.Dict.{Eq-String, get-assign, or_get, string_self, string_same}
use maas_site_manager.Images.Index.{
  IndexProduct, DownloadPartition, ubuntu, bootloaders, other, partition_eq, content_id,
}
use maas_site_manager.Images.Index.Documents.{IndexEntry, entry_of, add_entry, index_entries}
use Prim.Native.String.append.{nil, cons}
use Prim.Native.String.{[] as empty, ◌∷◌ as ◌∷ᵗ◌, ◌++◌ as ◌+++◌}

rest_of : String → String
rest_of empty = empty
rest_of (c ∷ᵗ s) = s

append-cancel : (s a b : String) → s +++ a ≡ s +++ b → a ≡ b
unfolding rest_of
append-cancel empty a b h = sym (λ i. nil a i) ∙ h ∙ (λ i. nil b i)
append-cancel (c ∷ᵗ s) a b h =
    append-cancel s a b
      (sym (λ i. rest_of (cons c s a i)) ∙ ap rest_of h ∙ (λ i. rest_of (cons c s b i)))

-- The content ids of two partitions differ.
apart : (s a b : String) → str_eq a b ≡ false → str_eq (s +++ a) (s +++ b) ≡ false
apart s a b h = elim (Bool-cases (str_eq (s +++ a) (s +++ b))) [
  | inl hit ↦
      let same : a ≡ b = append-cancel s a b (string_same (s +++ a) (s +++ b) hit) in
      let yes_too : str_eq a b ≡ true = rw same (string_self b) in cc
  | inr miss ↦ miss
]

content_id-eq :
    (rev : String) (q p : DownloadPartition)
    → str_eq (content_id q rev) (content_id p rev) ≡ partition_eq q p
content_id-eq rev ubuntu ubuntu = string_self (content_id ubuntu rev)
content_id-eq rev bootloaders bootloaders = string_self (content_id bootloaders rev)
content_id-eq rev other other = string_self (content_id other rev)
content_id-eq rev ubuntu bootloaders = apart rev _ _ refl
content_id-eq rev ubuntu other = apart rev _ _ refl
content_id-eq rev bootloaders ubuntu = apart rev _ _ refl
content_id-eq rev bootloaders other = apart rev _ _ refl
content_id-eq rev other ubuntu = apart rev _ _ refl
content_id-eq rev other bootloaders = apart rev _ _ refl

abbrev pub listed : DownloadPartition → String → List IndexProduct → Option IndexEntry
listed p rev [] = none
listed p rev (x ∷ products) = some (entry_of p rev (x ∷ products))

get-add_entry :
    (rev : String) (q p : DownloadPartition) (products : List IndexProduct)
    (idx : List (String × IndexEntry))
    → Dict.get (add_entry q rev products idx) (content_id p rev) ≡ (
        if partition_eq q p
        then or_get (listed q rev products) (Dict.get idx (content_id p rev))
        else Dict.get idx (content_id p rev))
get-add_entry rev q p [] idx = ground arith
get-add_entry rev q p (x ∷ products) idx =
    get-assign (content_id q rev) (entry_of q rev (x ∷ products)) idx (content_id p rev)
    ∙ rw (content_id-eq rev q p) refl

or_none : (o : Option IndexEntry) → or_get o none ≡ o
or_none none = refl
or_none (some e) = refl

pub get-index_entries :
    (part : DownloadPartition → List IndexProduct) (rev : String) (p : DownloadPartition)
    → Dict.get (index_entries part rev) (content_id p rev) ≡ listed p rev (part p)
get-index_entries part rev ubuntu =
    let first = add_entry bootloaders rev (part bootloaders) [] in
    get-add_entry rev other ubuntu (part other) (add_entry ubuntu rev (part ubuntu) first)
    ∙ get-add_entry rev ubuntu ubuntu (part ubuntu) first
    ∙ ap (or_get (listed ubuntu rev (part ubuntu)))
        (get-add_entry rev bootloaders ubuntu (part bootloaders) [])
    ∙ or_none (listed ubuntu rev (part ubuntu))
get-index_entries part rev bootloaders =
    let first = add_entry bootloaders rev (part bootloaders) [] in
    get-add_entry rev other bootloaders (part other) (add_entry ubuntu rev (part ubuntu) first)
    ∙ get-add_entry rev ubuntu bootloaders (part ubuntu) first
    ∙ get-add_entry rev bootloaders bootloaders (part bootloaders) []
    ∙ or_none (listed bootloaders rev (part bootloaders))
get-index_entries part rev other =
    let first = add_entry bootloaders rev (part bootloaders) [] in
    get-add_entry rev other other (part other) (add_entry ubuntu rev (part ubuntu) first)
    ∙ ap (or_get (listed other rev (part other))) (
        get-add_entry rev ubuntu other (part ubuntu) first
        ∙ get-add_entry rev bootloaders other (part bootloaders) [])
    ∙ or_none (listed other rev (part other))
