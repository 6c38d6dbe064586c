-- ===== src/Catalog/Caches.antt =====
-- src/catalog/ihms_cache.py and ihms_inventory.py: the caches that are refreshed from IHMS.
use ihms_oms.Prelude.{
  String, true, Option, none, some, List, [], ◌∷◌, Dict, insert, string_eq, truthy, or_else,
  if◌then◌else◌,
}
use ihms_oms.Gateway.Models.{
  pos, ObservabilityHeaders, InventoryItemResponse, ProductCatalogItemResponse, History,
}
use ihms_oms.Gateway.Ihms.{IhmsClient, get_products, get_inventory}
use ihms_oms.Effect.{Action, pure, ◌>>=◌}
use ihms_oms.Catalog.Provider.{
  CatalogProduct, JsonCatalogProvider, list_products, ProductMetadata, ProductMetadataCatalog,
  metadata_or_default, EcopsMapping, ecops_item_code,
}
use ihms_oms.Catalog.Inventory.{CatalogProductWithAvailability}

-- The `_products` of a cache.
abbrev pub Cache : Type 0
Cache = Dict String CatalogProductWithAvailability

abbrev text_or_none : String → Option String
text_or_none t = if truthy t then some t else none

unfoldable pub to_enriched :
    ProductCatalogItemResponse → EcopsMapping → CatalogProductWithAvailability
to_enriched p mapping = record {
  sku = p.sku;
  name = p.name;
  ihms_product_id = p.product_id;
  ecops_item_code = ecops_item_code p.sku mapping;
  unit_price = p.unit_price;
  available_quantity = some p.available_quantity;
  description = text_or_none p.description;
  image_url = text_or_none p.image_url;
  category = text_or_none p.category;
}

unfoldable pub to_catalog_product : CatalogProductWithAvailability → CatalogProduct
to_catalog_product p = record {
  sku = p.sku;
  name = p.name;
  ihms_product_id = p.ihms_product_id;
  ecops_item_code = p.ecops_item_code;
  unit_price = p.unit_price;
}

-- The dict comprehension of `IhmsCatalogCache.refresh`.
unfoldable pub enrich_sellable : EcopsMapping → List ProductCatalogItemResponse → Cache → Cache
enrich_sellable mapping [] d = d
enrich_sellable mapping (p ∷ ps) d =
    enrich_sellable mapping ps (if p.sellable then insert p.sku (to_enriched p mapping) d else d)

unfoldable pub refresh_products :
    IhmsClient → EcopsMapping → ObservabilityHeaders → Action History Cache
unfolding enrich_sellable
refresh_products ihms mapping headers = do
  items ← get_products ihms headers
  pure (enrich_sellable mapping items [])

-- The row of a JSON product, as a response of IHMS without stock.
abbrev json_response : CatalogProduct → ProductCatalogItemResponse
json_response p = record {
  product_id = p.ihms_product_id;
  sku = p.sku;
  name = p.name;
  description = "";
  category = "";
  unit_price = p.unit_price;
  currency = "USD";
  available_quantity = pos 0;
  image_url = "";
  sellable = true;
}

enrich_json : EcopsMapping → List CatalogProduct → Cache → Cache
enrich_json mapping [] d = d
enrich_json mapping (p ∷ ps) d =
    enrich_json mapping ps (insert p.sku (to_enriched (json_response p) mapping) d)

unfoldable pub load_from_json_catalog : JsonCatalogProvider → EcopsMapping → Cache
unfolding enrich_json
load_from_json_catalog json_catalog mapping = enrich_json mapping (list_products json_catalog) []

-- One turn of the loop of `IhmsInventoryCatalogCache.refresh`.
unfoldable pub inventory_row :
    ProductMetadata → EcopsMapping → InventoryItemResponse → CatalogProductWithAvailability
inventory_row meta mapping item = record {
  sku = meta.sku;
  name = or_else item.name (or_else meta.description meta.sku);
  ihms_product_id = item.product_id;
  ecops_item_code = ecops_item_code meta.sku mapping;
  unit_price = meta.unit_price;
  available_quantity = some item.available_quantity;
  description = text_or_none meta.description;
  image_url = none;
  category = text_or_none meta.category;
}

unfoldable pub enrich_inventory :
    ProductMetadataCatalog → EcopsMapping → List InventoryItemResponse → Cache → Cache
enrich_inventory metadata mapping [] d = d
enrich_inventory metadata mapping (x ∷ xs) d =
    let meta = metadata_or_default x.product_id x.name metadata in
    enrich_inventory metadata mapping xs (insert meta.sku (inventory_row meta mapping x) d)

unfoldable pub refresh_inventory :
    IhmsClient → ProductMetadataCatalog → EcopsMapping → ObservabilityHeaders → Action History Cache
unfolding enrich_inventory
refresh_inventory ihms metadata mapping headers = do
  items ← get_inventory ihms headers
  pure (enrich_inventory metadata mapping items [])
