-- ===== src/Checkout/Tests.antt =====
-- A service that starts while IHMS does not answer.
use ihms_oms.Prelude.{false, ◌≡◌, refl, true, [], ◌∷◌, inr}
use ihms_oms.Gateway.Models.{Env, ObservabilityHeaders, timeout_exception}
use ihms_oms.Catalog.Provider.{JsonCatalogProvider}
use ihms_oms.Checkout.Settings.{Settings, default_settings}
use ihms_oms.Checkout.State.{CheckoutService, fallback_enabled}
use ihms_oms.Checkout.Service.{list_catalog_with_inventory}
use ihms_oms.Checkout.Startup.{started}
use ihms_oms.Checkout.Degrades.{NotGateway, list_catalog_with_inventory-NotGateway}

abbrev unreachable : Env
unreachable = record {
  reply = λ h c. timeout_exception "timed out";
  now = λ h. 10;
  uuid4 = λ h. 99;
}

abbrev tracing : ObservabilityHeaders
tracing = record { request_id = "r1"; correlation_id = "c1"; trace_id = "t1" }

abbrev lenient : Settings
lenient = record default_settings { catalog_fallback_to_json = true }

abbrev keyboards : JsonCatalogProvider
keyboards = record {
  products =
      (
        "SKU-1",
        record {
          sku = "SKU-1";
          name = "Keyboard";
          ihms_product_id = "P-1";
          ecops_item_code = "KB";
          unit_price = record { negative = false; digits = 4999; scale = 2 };
        },
      )
      ∷ [];
}

abbrev service : CheckoutService
unfolding started
service = started lenient [] [] keyboards

lenient-enabled : fallback_enabled service ≡ true
unfolding service fallback_enabled
lenient-enabled = refl

list_catalog_with_inventory-NotGateway_example :
    NotGateway (list_catalog_with_inventory tracing unreachable service).0
list_catalog_with_inventory-NotGateway_example =
    list_catalog_with_inventory-NotGateway tracing unreachable service (inr lenient-enabled)
