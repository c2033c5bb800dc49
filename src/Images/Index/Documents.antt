-- ===== src/Images/Index/Documents.antt =====
-- The documents of `IndexService`: the index, and one download document for each partition.
use maas_site_manager.Common.{ℕ, String, Option, none, some, List, [], ◌∷◌, ◌++◌, map, select}
use maas_site_manager.Common.Dict
use maas_site_manager.Common.Dict.{Eq, Eq-String, Eq-OptionString}
use maas_site_manager.Common.Dict.Members.{add_all}
use maas_site_manager.Common.Result.{Result, ok, raise, key_error, value_error}
use maas_site_manager.Common.Sorts.{sort, str_le}
use maas_site_manager.Images.Tables.{BootAssetKind, os_image, bootloader}
use maas_site_manager.Images.Index.{
  IndexProduct, DownloadPartition, ubuntu, bootloaders, other, partition_eq, content_id,
  fetch_products, retained,
}
use maas_site_manager.Images.Index.Naming.{join, reverse_fqdn, truthy, product_key}
use Prim.Native.String.{◌++◌ as ◌+++◌}

pub record IndexEntry : Type 0 where
  pub path : String
  pub products : List String

-- The loop of `get` over the retained products.
abbrev pub of_partition :
    DownloadPartition → List (IndexProduct × DownloadPartition) → List IndexProduct
of_partition p l = map (λ r. r.0) (select (λ r. partition_eq r.1 p) l)

abbrev pub entry_of : DownloadPartition → String → List IndexProduct → IndexEntry
entry_of p rev products = record {
  path = "streams/v1/" +++ (content_id p rev +++ ".json");
  products = sort str_le (add_all [] (map (product_key rev) products));
}

abbrev pub add_entry :
    DownloadPartition
    → String
    → List IndexProduct
    → List (String × IndexEntry)
    → List (String × IndexEntry)
add_entry p rev [] index = index
add_entry p rev (q ∷ products) index =
    Dict.assign (content_id p rev) (entry_of p rev (q ∷ products)) index

abbrev pub index_entries :
    (DownloadPartition → List IndexProduct) → String → List (String × IndexEntry)
index_entries partitioned rev = add_entry other rev (partitioned other) (
    add_entry ubuntu rev (partitioned ubuntu)
      (add_entry bootloaders rev (partitioned bootloaders) []))

abbrev pub generate_index_json :
    (DownloadPartition → List IndexProduct) → String → List (String × IndexEntry)
generate_index_json partitioned fqdn = index_entries partitioned (reverse_fqdn fqdn)

-- The path is written `{boot_source_id}/{path}`, the source only for a bootloader.
pub record Item : Type 0 where
  pub ftype : String
  pub path : ℕ × String
  pub sha256 : String
  pub size : ℕ
  pub source : Option (Option String × Option String × Option String)

abbrev item_source :
    BootAssetKind → IndexProduct → Option (Option String × Option String × Option String)
item_source bootloader p = some (p.source_package, p.source_release, p.source_version)
item_source os_image p = none

abbrev pub item_json : IndexProduct → Item
item_json p = record {
  ftype = p.ftype;
  path = (p.boot_source_id, p.path);
  sha256 = p.sha256;
  size = p.file_size;
  source = item_source p.kind p;
}

abbrev pub item_key_of : BootAssetKind → IndexProduct → Option String
item_key_of bootloader p = p.source_package
item_key_of os_image p = some p.ftype

abbrev pub Items : Type 0
Items = List (Option String × Item)

pub record Product : Type 0 where
  pub columns : List (String × Option String)
  pub versions : List (String × Items)

abbrev compatible : Option (List String) → Option String
compatible none = some ""
compatible (some l) = some (join "," l)

abbrev dated : String → Option String → List (String × Option String)
dated name none = []
dated name (some day) = (name, some day) ∷ []

abbrev kind_columns : BootAssetKind → IndexProduct → List (String × Option String)
kind_columns bootloader p =
    ("bootloader-type", p.bootloader_type) ∷ ("arches", compatible p.compatibility) ∷ []
kind_columns os_image p = ("subarches", compatible p.compatibility) ∷ []

abbrev all_columns : IndexProduct → List (String × Option String)
all_columns p =
    (("arch", some p.arch)
      ∷ ("kflavor", p.flavor)
      ∷ ("label", some p.label)
      ∷ ("os", some p.os)
      ∷ ("release", p.release)
      ∷ ("krel", p.krel)
      ∷ ("release_codename", p.codename)
      ∷ ("release_title", p.title)
      ∷ ("subarch", p.subarch)
      ∷ ("version", p.asset_version)
      ∷ [])
    ++ (dated "support_eol" p.eol ++ (dated "support_esm_eol" p.esm_eol ++ kind_columns p.kind p))

-- A product's first file, with the columns that are not empty.
abbrev pub new_product : IndexProduct → Product
new_product p = record {
  columns = select (λ c. truthy c.1) (all_columns p);
  versions = (p.version, (item_key_of p.kind p, item_json p) ∷ []) ∷ [];
}

-- `["versions"][product.version]["items"][item_key] = item_json`
abbrev into_version : IndexProduct → Product → Option Items → Result Product
into_version p dl none = raise key_error
into_version p dl (some items) = ok (record {
  columns = dl.columns;
  versions =
      Dict.assign p.version (Dict.assign (item_key_of p.kind p) (item_json p) items) dl.versions;
})

abbrev pub with_item : IndexProduct → Option Product → Result Product
with_item p none = ok (new_product p)
with_item p (some dl) = into_version p dl (Dict.get dl.versions p.version)

abbrev pub fill :
    String → List IndexProduct → List (String × Product) → Result (List (String × Product))
fill rev [] doc = ok doc
fill rev (p ∷ products) doc = elim (with_item p (Dict.get doc (product_key rev p))) [
  | ok dl ↦ fill rev products (Dict.assign (product_key rev p) dl doc)
  | raise e ↦ raise e
]

pub record Download : Type 0 where
  pub content : String
  pub products : List (String × Product)

abbrev pub finish : DownloadPartition → String → Result (List (String × Product)) → Result Download
finish p fqdn (ok doc) = ok (record { content = content_id p (reverse_fqdn fqdn); products = doc })
finish p fqdn (raise e) = raise e

abbrev pub generate_download_json : DownloadPartition → List IndexProduct → String → Result Download
generate_download_json p products fqdn = finish p fqdn (fill (reverse_fqdn fqdn) products [])

pub data IndexType : Type 0 where
  index download : IndexType

pub data Json : Type 0 where
  index_json : List (String × IndexEntry) → Json
  download_json : Download → Json

abbrev pub download_of : Result Download → Result Json
download_of (ok doc) = ok (download_json doc)
download_of (raise e) = raise e

-- `get`, over the rows of a view that is there
unfoldable pub get_index :
    (String → String)
    → List IndexProduct
    → IndexType
    → String
    → Option DownloadPartition
    → Result Json
get_index lower view index fqdn partition =
    let products = retained (fetch_products lower none view) in
    ok (index_json (generate_index_json (λ p. of_partition p products) fqdn))
get_index lower view download fqdn none = raise value_error
get_index lower view download fqdn (some p) =
    download_of (
      generate_download_json p (map (λ r. r.0) (retained (fetch_products lower (some p) view)))
        fqdn)
