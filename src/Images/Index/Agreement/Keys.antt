-- ===== src/Images/Index/Agreement/Keys.antt =====
-- The keys of a download document.
use maas_site_manager.Common.{
  String, true, Option, none, some, List, [], ◌∷◌, map, ◌≡◌, refl, ◌∙◌, ap, All, arith,
}
use maas_site_manager.Common.Dict
use maas_site_manager.Common.Dict.{Eq-String, string_self, Eq-OptionString}
use maas_site_manager.Common.Dict.Members.{
  add_all, get_there, All-get, All-assign, has-assign, keys-assign,
}
use maas_site_manager.Common.Result.{ok}
use maas_site_manager.Images.Index.{IndexProduct}
use maas_site_manager.Images.Index.Naming.{product_key}
use maas_site_manager.Images.Index.Documents.{
  Product, new_product, item_json, item_key_of, with_item, fill,
}

module _ (rev : String) (version_of : String → String) where
  -- Every product of a document has the version of its key.
  abbrev pub IsVersioned : String → Product → Type 0
  IsVersioned k dl = Dict.has dl.versions (version_of k) ≡ true

  with_item-IsVersioned :
      (p : IndexProduct) (found : Option Product)
      → p.version ≡ version_of (product_key rev p)
      → ((dl : Product) → found ≡ some dl → IsVersioned (product_key rev p) dl)
      → (dl : Product) × (with_item p found ≡ ok dl) × IsVersioned (product_key rev p) dl
  with_item-IsVersioned p none v h =
      (new_product p, refl, rw (← v) (ground (arith, string_self p.version)))
  with_item-IsVersioned p (some dl) v h =
      let known : Dict.has dl.versions p.version ≡ true = rw v (h dl refl) in
      let items = get_there dl.versions p.version known in
      let now = Dict.assign (item_key_of p.kind p) (item_json p) items.0 in
      let made : Product = record {
        columns = dl.columns;
        versions = Dict.assign p.version now dl.versions;
      } in
      let put : with_item p (some dl) ≡ ok made = rw items.1 refl in
      (made, put, rw (← v) (has-assign p.version now dl.versions))

  pub fill-keys :
      (products : List IndexProduct) (doc : List (String × Product))
      → All (λ p. p.version ≡ version_of (product_key rev p)) products
      → All (λ e. IsVersioned e.0 e.1) doc
      → (made : List (String × Product)) × (fill rev products doc ≡ ok made)
        × (map (λ e. e.0) made ≡ add_all (map (λ e. e.0) doc) (map (product_key rev) products))
  fill-keys [] doc v a = (doc, refl, refl)
  fill-keys (p ∷ products) doc v a =
      let k = product_key rev p in
      let dl =
        with_item-IsVersioned p (Dict.get doc k) v.0
          (λ dl found. All-get IsVersioned doc k dl a found) in
      let rest =
        fill-keys products (Dict.assign k dl.0 doc) v.1
          (All-assign IsVersioned k dl.0 doc dl.2 a) in
      (
        rest.0,
        rw (fill, dl.1) rest.1,
        rest.2 ∙ ap (λ s. add_all s (map (product_key rev) products)) (keys-assign k dl.0 doc),
      )
