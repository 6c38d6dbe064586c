-- ===== src/Checkout/Startup.antt =====
-- The service that the application starts with: `lifespan` of src/api/app.py and `gateway_clients` of
-- src/gateway/factory.py. The JSON files enter as what is read from them; the pools of httpx are left out.
use ihms_oms.Prelude.{Option, none, some, [], lookup, nat_eq, pair_eq, arith}
use ihms_oms.Gateway.Ihms.{IhmsClient}
use ihms_oms.Gateway.Ecops.{EcOpsClient}
use ihms_oms.Observability.Metrics.{new_registry}
use ihms_oms.Catalog.Provider.{JsonCatalogProvider, ProductMetadataCatalog, EcopsMapping}
use ihms_oms.Catalog.Live.{
  IhmsLiveCatalog, new_live_catalog, CatalogProvider, json_provider, live_provider,
}
use ihms_oms.Session.Store
use ihms_oms.Saga.Idempotency
use ihms_oms.Saga.Machine.Consistent.{IsConsistent}
use ihms_oms.Checkout.Settings.{Settings, CatalogSource, from_json, from_ihms}
use ihms_oms.Checkout.State.{CheckoutService}

-- `gateway_clients`
pub ihms_client : Settings → IhmsClient
ihms_client settings = record { fulfill_optional = settings.ihms_fulfill_optional }

pub ecops_client : Settings → EcOpsClient
ecops_client settings = record { bearer_token = settings.ecops_bearer_token }

pub live_catalog_for : CatalogSource → Option IhmsLiveCatalog
live_catalog_for from_ihms = some new_live_catalog
live_catalog_for from_json = none

pub catalog_for : CatalogSource → JsonCatalogProvider → CatalogProvider
catalog_for from_ihms json_catalog = live_provider new_live_catalog
catalog_for from_json json_catalog = json_provider json_catalog

pub fallback_for : CatalogSource → JsonCatalogProvider → Option JsonCatalogProvider
fallback_for from_ihms json_catalog = some json_catalog
fallback_for from_json json_catalog = none

-- `lifespan`, with a registry in which nothing was counted and before any call.
unfoldable pub started :
    Settings → EcopsMapping → ProductMetadataCatalog → JsonCatalogProvider → CheckoutService
unfolding ihms_client ecops_client live_catalog_for catalog_for fallback_for
started settings mapping metadata json_catalog = record {
  world = record {
    store = record { sessions = []; idempotency = [] };
    catalog = catalog_for settings.catalog_source json_catalog;
    metrics = new_registry;
    history = [];
    ihms = ihms_client settings;
    ecops = ecops_client settings;
  };
  ihms_live_catalog = live_catalog_for settings.catalog_source;
  product_metadata = some metadata;
  ecops_mapping = some mapping;
  json_catalog_fallback = fallback_for settings.catalog_source json_catalog;
  settings = some settings;
}

pub started-IsConsistent :
    (settings : Settings) (mapping : EcopsMapping) (metadata : ProductMetadataCatalog)
    (json_catalog : JsonCatalogProvider)
    → IsConsistent (started settings mapping metadata json_catalog).world.store
unfolding started Store.get Idempotency.get lookup
started-IsConsistent settings mapping metadata json_catalog = record {
  keyed = λ i s h. ground arith;
  fitting = λ i s h. ground arith;
  order_cached = λ i s h. ground arith;
  cache_backed = λ i k r h. ground arith;
}
