-- ===== src/Images/Index.antt =====
-- `IndexService` of service/images.py, over the rows of the view `images_index`, with the partitions of
-- common/enums.py. Of a JSON document it is kept what it says of the images: the headers, that is the
-- format, the type of the data and the time, are left out.
pub mod Downloaded
pub mod Naming
pub mod Documents
pub mod Agreement
mod Tests
use maas_site_manager.Common.{
  ℕ, zero, suc, String, Bool, true, false, Option, none, some, List, [], ◌∷◌, ◌++◌, map, ◌==◌, ◌&&◌,
  not, select, any, leb, str_eq, if◌then◌else◌,
}
use maas_site_manager.Common.Dict
use maas_site_manager.Common.Dict.{Eq-ℕ, Eq-String}
use maas_site_manager.Common.Sorts.{sort, str_le}
use maas_site_manager.Images.Tables.{BootAssetKind, os_image, bootloader}
use Prim.Native.String.{◌++◌ as ◌+++◌}

-- The columns that are read. The dates `eol` and `esm_eol` are kept the way the documents write them.
pub record IndexProduct : Type 0 where
  pub id : ℕ
  pub boot_source_id : ℕ
  pub kind : BootAssetKind
  pub label : String
  pub os : String
  pub arch : String
  pub ftype : String
  pub sha256 : String
  pub path : String
  pub file_size : ℕ
  pub bytes_synced : ℕ
  pub version : String
  pub asset_version : Option String
  pub release : Option String
  pub krel : Option String
  pub codename : Option String
  pub title : Option String
  pub subarch : Option String
  pub compatibility : Option (List String)
  pub flavor : Option String
  pub bootloader_type : Option String
  pub eol : Option String
  pub esm_eol : Option String
  pub source_package : Option String
  pub source_version : Option String
  pub source_release : Option String

-- `p.bytes_synced == p.file_size`
abbrev pub is_synced : IndexProduct → Bool
is_synced p = p.bytes_synced == p.file_size

pub record DownloadStatus : Type 0 where
  pub indeces : List ℕ
  pub downloaded : Bool

abbrev pub add_index : ℕ → Bool → Option DownloadStatus → DownloadStatus
add_index i synced none = record { indeces = i ∷ []; downloaded = synced }
add_index i synced (some s) = record {
  indeces = s.indeces ++ i ∷ [];
  downloaded = s.downloaded && synced;
}

-- The loop over `enumerate(products)`.
abbrev pub status_of : List IndexProduct → ℕ → List (ℕ × DownloadStatus) → List (ℕ × DownloadStatus)
status_of [] i d = d
status_of (p ∷ products) i d =
    status_of products (suc i) (Dict.assign p.id (add_index i (is_synced p) (Dict.get d p.id)) d)

abbrev pub indeces_to_remove : List (ℕ × DownloadStatus) → List ℕ
indeces_to_remove [] = []
indeces_to_remove (e ∷ d) =
    let rest = indeces_to_remove d in if not e.1.downloaded then e.1.indeces ++ rest else rest

-- `products.pop(i)`, for an index that is there
abbrev pub pop : {A : Type 0} → List A → ℕ → List A
pop [] i = []
pop (x ∷ l) zero = l
pop (x ∷ l) (suc i) = x ∷ pop l i

abbrev pub pop_indeces : {A : Type 0} → List ℕ → List A → List A
pop_indeces [] l = l
pop_indeces (i ∷ is) l = pop_indeces is (pop l i)

-- `_filter_for_fully_downloaded`
unfoldable pub filter_for_fully_downloaded : List IndexProduct → List IndexProduct
filter_for_fully_downloaded products =
    pop_indeces (sort (λ i j. leb j i) (indeces_to_remove (status_of products 0 []))) products

pub data DownloadPartition : Type 0 where
  ubuntu bootloaders other : DownloadPartition

abbrev pub partition_eq : DownloadPartition → DownloadPartition → Bool
partition_eq ubuntu ubuntu = true
partition_eq bootloaders bootloaders = true
partition_eq other other = true
partition_eq p q = false

abbrev pub partition_value : DownloadPartition → String
partition_value ubuntu = "download-ubuntu"
partition_value bootloaders = "download-bootloaders"
partition_value other = "download-other"

abbrev pub content_id : DownloadPartition → String → String
content_id ubuntu reversed_fqdn = reversed_fqdn +++ (":stream:v3:" +++ partition_value ubuntu)
content_id p reversed_fqdn = reversed_fqdn +++ (":stream:v1:" +++ partition_value p)

abbrev by_kind : BootAssetKind → Bool → DownloadPartition
by_kind bootloader is_ubuntu = bootloaders
by_kind os_image true = ubuntu
by_kind os_image false = other

-- The cases of the statement of `_fetch_products`; `lower` is the database's.
abbrev pub partition_of : (String → String) → IndexProduct → DownloadPartition
partition_of lower p = by_kind p.kind (str_eq (lower p.os) "ubuntu")

abbrev pub wanted : Option DownloadPartition → DownloadPartition → Bool
wanted none p = true
wanted (some q) p = partition_eq p q

abbrev pub fetch_products :
    (String → String)
    → Option DownloadPartition
    → List IndexProduct
    → List (IndexProduct × DownloadPartition)
fetch_products lower target [] = []
fetch_products lower target (p ∷ view) =
    let rest = fetch_products lower target view in
    if wanted target (partition_of lower p) then (p, partition_of lower p) ∷ rest else rest

-- `(product.id, product.path, product.ftype)`
abbrev pub same_file : IndexProduct → IndexProduct → Bool
same_file p q = (p.id == q.id) && (str_eq p.path q.path && str_eq p.ftype q.ftype)

-- The products of `get`, with their partitions.
unfoldable pub retained :
    List (IndexProduct × DownloadPartition) → List (IndexProduct × DownloadPartition)
retained l =
    let kept = filter_for_fully_downloaded (map (λ r. r.0) l) in
    select (λ r. any (λ q. same_file q r.0) kept) l
