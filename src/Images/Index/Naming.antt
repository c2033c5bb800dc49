-- ===== src/Images/Index/Naming.antt =====
-- The keys of the products in the documents of `IndexService`.
use maas_site_manager.Common.{
  String, Bool, false, Option, none, some, List, [], ◌∷◌, ◌++◌, not, str_eq, ◌==◌, if◌then◌else◌,
}
use maas_site_manager.Images.Tables.{BootAssetKind, os_image, bootloader}
use maas_site_manager.Images.Index.{IndexProduct}
use Prim.Native.Char.{Char, code}
use Prim.Native.String.{[] as empty, ◌∷◌ as ◌∷ᵗ◌, ◌++◌ as ◌+++◌}

-- `".".join(parts)` and `",".join(parts)`
abbrev pub join : String → List String → String
join sep [] = ""
join sep (p ∷ []) = p
join sep (p ∷ q ∷ parts) = p +++ (sep +++ join sep (q ∷ parts))

abbrev onto_first : Char → List String → List String
onto_first c [] = (c ∷ᵗ empty) ∷ []
onto_first c (p ∷ parts) = (c ∷ᵗ p) ∷ parts

-- `fqdn.split(".")`
abbrev split_dots : String → List String
split_dots empty = "" ∷ []
split_dots (c ∷ᵗ s) =
    let rest = split_dots s in if code c == 46 then "" ∷ rest else onto_first c rest

abbrev reversed : List String → List String
reversed [] = []
reversed (p ∷ parts) = reversed parts ++ p ∷ []

abbrev pub reverse_fqdn : String → String
reverse_fqdn fqdn = join "." (reversed (split_dots fqdn))

-- An optional text within an f-string.
abbrev text : Option String → String
text none = "None"
text (some s) = s

-- `if s`
abbrev pub truthy : Option String → Bool
truthy none = false
truthy (some s) = not (str_eq s "")

abbrev os_key : IndexProduct → String
os_key p =
    let product_key =
      p.os +++ (":" +++ (text p.release +++ (":" +++ (p.arch +++ (":" +++ text p.subarch))))) in
    if truthy p.flavor then product_key +++ ("-" +++ text p.flavor) else product_key

abbrev key_of : BootAssetKind → IndexProduct → String → String
key_of bootloader p rev =
    rev +++ (".stream:1:" +++ (p.os +++ (":" +++ (text p.bootloader_type +++ (":" +++ p.arch)))))
key_of os_image p rev = rev +++ (".stream:v3:" +++ os_key p)

-- `_product_key`
abbrev pub product_key : String → IndexProduct → String
product_key rev p = key_of p.kind p rev
