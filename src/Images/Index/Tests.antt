-- ===== src/Images/Index/Tests.antt =====
-- A view with an asset that is not fully downloaded.
use maas_site_manager.Common.{
  ℕ, zero, suc, String, none, some, List, [], ◌∷◌, ◌≡◌, refl, map, select,
}
use maas_site_manager.Images.Tables.{BootAssetKind, os_image, bootloader}
use maas_site_manager.Images.Index.{
  IndexProduct, DownloadPartition, ubuntu, bootloaders, other, filter_for_fully_downloaded,
}
use maas_site_manager.Images.Index.Downloaded.{all_synced, filter_for_fully_downloaded_lem}
use maas_site_manager.Images.Index.Naming.{product_key, reverse_fqdn}
use maas_site_manager.Images.Index.Agreement.{Agrees, get_index_lem}

abbrev row : ℕ → BootAssetKind → String → String → ℕ → IndexProduct
row id kind os file synced = record {
  id = id;
  boot_source_id = 2;
  kind = kind;
  label = "stable";
  os = os;
  arch = "amd64";
  ftype = file;
  sha256 = "00";
  path = file;
  file_size = 5;
  bytes_synced = synced;
  version = "20240101";
  asset_version = none;
  release = some "noble";
  krel = none;
  codename = none;
  title = some "24.04 LTS";
  subarch = some "generic";
  compatibility = some ("generic" ∷ "hwe" ∷ []);
  flavor = none;
  bootloader_type = some "pxe";
  eol = some "2029-05-31";
  esm_eol = none;
  source_package = some "shim";
  source_version = none;
  source_release = none;
}

abbrev kernel : IndexProduct
kernel = row 1 os_image "ubuntu" "boot-kernel" 5

abbrev initrd : IndexProduct
initrd = row 1 os_image "ubuntu" "boot-initrd" 5

abbrev shim : IndexProduct
shim = row 2 bootloader "grub" "grub.efi" 5

abbrev root : IndexProduct
root = row 3 os_image "centos" "root.tgz" 5

abbrev manifest : IndexProduct
manifest = row 3 os_image "centos" "manifest" 4

abbrev view : List IndexProduct
view = kernel ∷ root ∷ shim ∷ manifest ∷ initrd ∷ []

abbrev lower : String → String
lower s = s

reversed_name : reverse_fqdn "images.example.org" ≡ "org.example.images"
reversed_name = refl

-- Of the third asset a file is missing, so both of its files are left out.
left_out : filter_for_fully_downloaded view ≡ kernel ∷ shim ∷ initrd ∷ []
unfolding filter_for_fully_downloaded
left_out = refl

names :
    map (product_key "org") (kernel ∷ shim ∷ [])
    ≡ "org.stream:v3:ubuntu:noble:amd64:generic" ∷ "org.stream:1:grub:pxe:amd64" ∷ []
names = refl

abbrev part_of : ℕ → DownloadPartition
part_of zero = other
part_of (suc zero) = ubuntu
part_of (suc (suc zero)) = bootloaders
part_of (suc (suc (suc n))) = other

get_index_example : Agrees lower view "example.org"
get_index_example =
    get_index_lem lower view "example.org" part_of (λ k. "20240101")
      (refl, (refl, (refl, (refl, (refl, tt))))) (refl, (refl, (refl, (refl, (refl, tt)))))

filter_for_fully_downloaded_lem_example :
    filter_for_fully_downloaded view ≡ select (λ p. all_synced p.id view) view
filter_for_fully_downloaded_lem_example = filter_for_fully_downloaded_lem view
