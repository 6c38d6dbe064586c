-- ===== src/Catalog/Live.antt =====
-- src/catalog/ihms_live.py: one surface over the two caches, and the provider that the saga reads.
use ihms_oms.Prelude.{
  String, Bool, true, false, Option, List, [], ◌∷◌, map, lookup, values, string_eq, ◌&&◌,
  if◌then◌else◌,
}
use mathlib.Core.Option
use ihms_oms.Gateway.Models.{ObservabilityHeaders, History}
use ihms_oms.Gateway.Errors.{gateway_error, Error, gateway}
use ihms_oms.Gateway.Ihms.{IhmsClient}
use ihms_oms.Effect.{Action, pure, raise, modify, raise_if, ◌>>=◌, ◌>>◌, catch}
use ihms_oms.Catalog.Provider.{
  CatalogProduct, JsonCatalogProvider, get_product as json_get_product,
  list_products as json_list_products, ProductMetadataCatalog, EcopsMapping,
}
use ihms_oms.Catalog.Inventory.{CatalogProductWithAvailability}
use ihms_oms.Catalog.Caches.{
  Cache, refresh_products, refresh_inventory, to_catalog_product, load_from_json_catalog,
}

-- `_active`: which cache answers. `_source` is its name for people.
pub data Active : Type 0 where
  inactive products_active inventory_active : Active

pub data Source : Type 0 where
  no_source products_source inventory_source json_fallback : Source

pub data CatalogMode : Type 0 where
  auto_mode inventory_mode products_mode : CatalogMode

pub record IhmsLiveCatalog : Type 0 where
  pub products_cache : Cache
  pub inventory_cache : Cache
  pub active : Active
  pub source : Source

abbrev pub new_live_catalog : IhmsLiveCatalog
new_live_catalog = record {
  products_cache = [];
  inventory_cache = [];
  active = inactive;
  source = no_source;
}

active_cache : Active → IhmsLiveCatalog → Cache
active_cache inactive c = []
active_cache products_active c = c.products_cache
active_cache inventory_active c = c.inventory_cache

unfoldable pub get : String → IhmsLiveCatalog → Option CatalogProductWithAvailability
unfolding active_cache
get sku c = lookup sku (active_cache c.active c)

unfoldable pub list : IhmsLiveCatalog → List CatalogProductWithAvailability
unfolding active_cache
list c = values (active_cache c.active c)

abbrev is_empty {ℓ} : {A : Type ℓ} → List A → Bool
is_empty [] = true
is_empty (_ ∷ _) = false

abbrev pub tries_products : CatalogMode → Bool
tries_products inventory_mode = false
tries_products _ = true

abbrev pub is_auto : CatalogMode → Bool
is_auto auto_mode = true
is_auto _ = false

abbrev empty_catalog : String
empty_catalog = "IHMS catalog empty from both /api/products and /api/inventory"

abbrev is_products : CatalogMode → Bool
is_products products_mode = true
is_products _ = false

-- `except GatewayError`: only the mode `products` raises.
abbrev fall_through : {S : Type 0} → CatalogMode → Error → Action S Bool
fall_through mode (gateway x) = if is_products mode then raise (gateway x) else pure false
fall_through mode x = raise x

-- The live catalog beside what was called so far.
pub record LiveWorld : Type 0 where
  pub live : IhmsLiveCatalog
  pub history : History

-- A call of a gateway, which leaves the catalog alone.
abbrev calling : {A : Type 0} → Action History A → Action LiveWorld A
calling m e w = let (r, h) = m e w.history in (r, record w { history = h })

abbrev activate : Active → Source → IhmsLiveCatalog → IhmsLiveCatalog
activate a s c = record c { active = a; source = s }

abbrev set_live : (IhmsLiveCatalog → IhmsLiveCatalog) → Action LiveWorld (Unit {0})
set_live f = modify (λ w. record w { live = f w.live })

-- The `try` of `refresh`: whether it returned from there.
unfoldable pub try_products :
    IhmsClient → EcopsMapping → ObservabilityHeaders → CatalogMode → Action LiveWorld Bool
try_products ihms mapping headers mode =
    catch
      (do
        cache ← calling (refresh_products ihms mapping headers)
        set_live (λ c. record c { products_cache = cache })
        if is_empty (values cache)
            then pure false
            else do set_live (activate products_active products_source); pure true)
      (λ x. fall_through mode x)

unfoldable pub use_inventory :
    IhmsClient
    → ProductMetadataCatalog
    → EcopsMapping
    → ObservabilityHeaders
    → CatalogMode
    → Action LiveWorld (Unit {0})
use_inventory ihms metadata mapping headers mode = do
  cache ← calling (refresh_inventory ihms metadata mapping headers)
  set_live (λ c. record c { inventory_cache = cache })
  raise_if (is_empty (values cache) && is_auto mode) (gateway (gateway_error empty_catalog))
  set_live (activate inventory_active inventory_source)

unfoldable pub refresh :
    IhmsClient
    → ProductMetadataCatalog
    → EcopsMapping
    → ObservabilityHeaders
    → CatalogMode
    → Action LiveWorld (Unit {0})
unfolding try_products use_inventory
refresh ihms metadata mapping headers mode = do
  returned ← if tries_products mode then try_products ihms mapping headers mode else pure false
  if returned then pure tt else use_inventory ihms metadata mapping headers mode

unfoldable pub load_from_json :
    JsonCatalogProvider → EcopsMapping → IhmsLiveCatalog → IhmsLiveCatalog
load_from_json json_catalog mapping c = record c {
  products_cache = load_from_json_catalog json_catalog mapping;
  active = products_active;
  source = json_fallback;
}

-- The object behind the `CatalogProvider` protocol: the JSON catalog, or the adapter of the live one.
pub data CatalogProvider : Type 0 where
  json_provider : JsonCatalogProvider → CatalogProvider
  live_provider : IhmsLiveCatalog → CatalogProvider

unfoldable pub get_product : String → CatalogProvider → Option CatalogProduct
get_product sku (json_provider c) = json_get_product sku c
get_product sku (live_provider c) = Option.map to_catalog_product (get sku c)

unfoldable pub list_products : CatalogProvider → List CatalogProduct
list_products (json_provider c) = json_list_products c
list_products (live_provider c) = map to_catalog_product (list c)
