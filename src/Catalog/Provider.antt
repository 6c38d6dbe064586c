-- ===== src/Catalog/Provider.antt =====
-- src/catalog/provider.py, product_metadata.py and ecops_mapping.py: the static catalogs. They are
-- read from JSON files; the model starts from the entries of the file.
use ihms_oms.Prelude.{
  false, String, Option, none, some, List, [], ◌∷◌, Dict, lookup, insert, values, string_eq,
}
use ihms_oms.Session.Models.{Price}

pub record CatalogProduct : Type 0 where
  pub sku : String
  pub name : String
  pub ihms_product_id : String
  pub ecops_item_code : String
  pub unit_price : Price

abbrev pub Products : Type 0
Products = Dict String CatalogProduct

-- The loop of `_load`: a later entry of the same SKU replaces an earlier one.
unfoldable pub load : List CatalogProduct → Products → Products
load [] d = d
load (p ∷ ps) d = load ps (insert p.sku p d)

pub record JsonCatalogProvider : Type 0 where
  pub products : Products

unfoldable pub get_product : String → JsonCatalogProvider → Option CatalogProduct
get_product sku c = lookup sku c.products

unfoldable pub list_products : JsonCatalogProvider → List CatalogProduct
list_products c = values c.products

pub record ProductMetadata : Type 0 where
  pub sku : String
  pub unit_price : Price
  pub description : String
  pub category : String

abbrev pub ProductMetadataCatalog : Type 0
ProductMetadataCatalog = Dict String ProductMetadata

unfoldable pub metadata_or_default : String → String → ProductMetadataCatalog → ProductMetadata
metadata_or_default product_id name c = elim (lookup product_id c) [
  | some meta ↦ meta
  | none ↦ record {
    sku = product_id;
    unit_price = record { negative = false; digits = 0; scale = 0 };
    description = name;
    category = "";
  }
]

-- The overrides of `EcopsMapping`.
abbrev pub EcopsMapping : Type 0
EcopsMapping = Dict String String

unfoldable pub ecops_item_code : String → EcopsMapping → String
ecops_item_code sku overrides = elim (lookup sku overrides) [ none ↦ sku | some code ↦ code ]
