-- ===== src/Checkout/Service.antt =====
-- The methods of `CheckoutService`, src/checkout/service.py.
use ihms_oms.Prelude.{
  ℕ, String, Bool, true, false, Option, none, some, List, [], ◌∷◌, map, ◌&&◌, ◌||◌, not,
  if◌then◌else◌,
}
use ihms_oms.Session.Models.{Uuid, CheckoutSession, new_session, is_held, is_fulfill_pending}
use ihms_oms.Gateway.Models.{ObservabilityHeaders}
use ihms_oms.Gateway.Errors.{gateway_error, Error, gateway}
use ihms_oms.Effect.{pure, raise, gets, modify, raise_if, ◌>>=◌, ◌>>◌, catch, uuid4, now}
use ihms_oms.Catalog.Provider as Provider
use ihms_oms.Catalog.Provider.{
  CatalogProduct, JsonCatalogProvider, ProductMetadataCatalog, EcopsMapping, ecops_item_code,
}
use ihms_oms.Catalog.Inventory as Joined
use ihms_oms.Catalog.Inventory.{CatalogProductWithAvailability}
use ihms_oms.Catalog.Live as Live
use ihms_oms.Catalog.Live.{IhmsLiveCatalog, refresh, load_from_json}
use ihms_oms.Saga.World.{external, session_get, session_save}
use ihms_oms.Saga.Coordinator.Outcomes.{ConfirmResult}
use ihms_oms.Saga.Coordinator.Hold as Hold
use ihms_oms.Saga.Coordinator.Confirm as Confirm
use ihms_oms.Saga.Coordinator.Confirm.{validate_hold_active}
use ihms_oms.Saga.Coordinator.PlaceOrder as PlaceOrder
use ihms_oms.Saga.Coordinator.PlaceOrder.{PlaceOrderResult}
use ihms_oms.Checkout.State.{
  CheckoutService, S, on_world, on_live, on_gateway, write_live, given, fallback_enabled,
  catalog_mode, ihms_unreachable_message,
}

abbrev pub is_empty {ℓ} : {A : Type ℓ} → List A → Bool
is_empty [] = true
is_empty (_ ∷ _) = false

-- `self.ihms_live_catalog.load_from_json_catalog(self.json_catalog_fallback, self.ecops_mapping)`
abbrev pub load_fallback :
    EcopsMapping
    → Option IhmsLiveCatalog
    → Option JsonCatalogProvider
    → CheckoutService
    → CheckoutService
load_fallback mapping (some live) (some json) s = write_live (load_from_json json mapping live) s
load_fallback mapping live json s = s

-- `except GatewayError` of `_refresh_ihms_catalog`.
unfoldable pub refresh_failed : EcopsMapping → Error → S (Unit {0})
unfolding write_live
refresh_failed mapping (gateway x) = do
  enabled ← gets fallback_enabled
  settings ← gets (λ s. s.settings)
  if enabled
      then modify (λ s. load_fallback mapping s.ihms_live_catalog s.json_catalog_fallback s)
      else raise (gateway (ihms_unreachable_message settings x))
refresh_failed mapping x = raise x

abbrev pub refresh_parts :
    Option IhmsLiveCatalog
    → Option EcopsMapping
    → Option ProductMetadataCatalog
    → ObservabilityHeaders
    → S (Unit {0})
refresh_parts (some live) (some mapping) (some metadata) headers =
    catch
      (λ e s.
        on_live live (refresh s.world.ihms metadata mapping headers (catalog_mode s.settings)) e s)
      (refresh_failed mapping)
refresh_parts live mapping metadata headers = pure tt

unfoldable pub refresh_ihms_catalog : ObservabilityHeaders → S (Unit {0})
unfolding refresh_failed
refresh_ihms_catalog headers e s =
    refresh_parts s.ihms_live_catalog s.ecops_mapping s.product_metadata headers e s

abbrev json_row : EcopsMapping → CatalogProduct → CatalogProductWithAvailability
json_row mapping p = record {
  sku = p.sku;
  name = p.name;
  ihms_product_id = p.ihms_product_id;
  ecops_item_code = ecops_item_code p.sku mapping;
  unit_price = p.unit_price;
  available_quantity = none;
  description = none;
  image_url = none;
  category = none;
}

abbrev rows_of :
    Option JsonCatalogProvider → Option EcopsMapping → List CatalogProductWithAvailability
rows_of (some json) (some mapping) = map (json_row mapping) (Provider.list_products json)
rows_of json mapping = []

unfoldable pub json_catalog_without_stock : CheckoutService → List CatalogProductWithAvailability
json_catalog_without_stock s = rows_of s.json_catalog_fallback s.ecops_mapping

-- The service lists from the live catalog where it has that and a mapping.
abbrev pub is_live : CheckoutService → Bool
is_live s = given s.ihms_live_catalog && given s.ecops_mapping

abbrev pub live_list : Option IhmsLiveCatalog → List CatalogProductWithAvailability
live_list none = []
live_list (some live) = Live.list live

abbrev pub live_get : String → Option IhmsLiveCatalog → Option CatalogProductWithAvailability
live_get sku none = none
live_get sku (some live) = Live.get sku live

abbrev pub json_products : Option JsonCatalogProvider → List CatalogProduct
json_products none = []
json_products (some json) = Provider.list_products json

abbrev pub json_product : String → Option JsonCatalogProvider → Option CatalogProduct
json_product sku none = none
json_product sku (some json) = Provider.get_product sku json

unfoldable pub create_session : String → S CheckoutSession
unfolding on_world
create_session correlation_id = do
  session_id ← on_world (external (λ w. uuid4))
  time ← on_world (external (λ w. now))
  on_world (session_save (new_session session_id correlation_id time))

unfoldable pub get_session : Uuid → S (Option CheckoutSession)
get_session session_id = on_world (session_get session_id)

unfoldable pub list_catalog : CheckoutService → List CatalogProduct
list_catalog s = Live.list_products s.world.catalog

unfoldable pub get_product : String → CheckoutService → Option CatalogProduct
get_product sku s = Live.get_product sku s.world.catalog

-- `except GatewayError: return self._json_catalog_without_stock()`
abbrev pub without_stock : Error → S (List CatalogProductWithAvailability)
without_stock (gateway x) = gets json_catalog_without_stock
without_stock x = raise x

-- What `list_catalog_with_inventory` makes of an empty live catalog.
unfoldable pub list_fallback : ObservabilityHeaders → S (List CatalogProductWithAvailability)
list_fallback headers =
    catch
      (λ e s.
        on_gateway
          (Joined.list_catalog_with_inventory (json_products s.json_catalog_fallback) s.world.ihms
            headers true)
          e s)
      without_stock

unfoldable pub list_catalog_with_inventory :
    ObservabilityHeaders → S (List CatalogProductWithAvailability)
unfolding list_fallback refresh_ihms_catalog
list_catalog_with_inventory headers = do
  live ← gets is_live
  if live
      then (do
        refresh_ihms_catalog headers
        products ← gets (λ s. live_list s.ihms_live_catalog)
        enabled ← gets fallback_enabled
        if is_empty products && enabled then list_fallback headers else pure products)
      else λ e s.
          on_gateway
            (Joined.list_catalog_with_inventory (Live.list_products s.world.catalog) s.world.ihms
              headers true)
            e s

-- What `get_product_with_inventory` makes of a SKU that the live catalog lacks.
unfoldable pub get_fallback :
    String → ObservabilityHeaders → S (Option CatalogProductWithAvailability)
get_fallback sku headers e s =
    on_gateway
      (Joined.get_product_with_inventory (json_product sku s.json_catalog_fallback) s.world.ihms
        headers true)
      e s

-- `if product is not None: return product`
abbrev pub or_fallback :
    Option CatalogProductWithAvailability
    → Bool
    → S (Option CatalogProductWithAvailability)
    → S (Option CatalogProductWithAvailability)
or_fallback (some p) enabled fallback = pure (some p)
or_fallback none enabled fallback = if enabled then fallback else pure none

unfoldable pub get_product_with_inventory :
    String → ObservabilityHeaders → S (Option CatalogProductWithAvailability)
unfolding get_fallback refresh_ihms_catalog
get_product_with_inventory sku headers = do
  live ← gets is_live
  if live
      then (do
        refresh_ihms_catalog headers
        product ← gets (λ s. live_get sku s.ihms_live_catalog)
        enabled ← gets fallback_enabled
        or_fallback product enabled (get_fallback sku headers))
      else λ e s.
          on_gateway
            (Joined.get_product_with_inventory (Live.get_product sku s.world.catalog) s.world.ihms
              headers true)
            e s

abbrev pub empty_message : String
empty_message = "IHMS catalog is empty and JSON fallback is disabled"

-- The guard of `place_hold` and `place_order`: the catalog is refreshed, and there must be one.
unfoldable pub require_catalog : ObservabilityHeaders → S (Unit {0})
unfolding refresh_ihms_catalog
require_catalog headers = do
  live ← gets is_live
  if live
      then (do
        refresh_ihms_catalog headers
        products ← gets (λ s. live_list s.ihms_live_catalog)
        enabled ← gets fallback_enabled
        settings ← gets (λ s. s.settings)
        raise_if (is_empty products && not enabled)
            (gateway (ihms_unreachable_message settings (gateway_error empty_message))))
      else pure tt

unfoldable pub place_hold :
    Uuid → List (String × ℕ) → String → ObservabilityHeaders → S CheckoutSession
unfolding require_catalog
place_hold session_id items customer_name headers = do
  require_catalog headers
  on_world (Hold.place_hold session_id items customer_name headers)

unfoldable pub place_order :
    Uuid → List (String × ℕ) → String → String → ObservabilityHeaders → S PlaceOrderResult
unfolding require_catalog
place_order session_id items customer_name key headers = do
  require_catalog headers
  on_world (PlaceOrder.place_order session_id items customer_name key headers)

-- A session whose hold `confirm` looks up first.
abbrev pub validates : CheckoutSession → Bool
validates s = (is_held s.state || is_fulfill_pending s.state) && not (given s.idempotency_key)

abbrev pub validate_found : Option CheckoutSession → ObservabilityHeaders → S (Unit {0})
validate_found none headers = pure tt
validate_found (some s) headers =
    if validates s then on_world (validate_hold_active s headers) else pure tt

unfoldable pub confirm : Uuid → Option String → String → ObservabilityHeaders → S ConfirmResult
confirm session_id customer_name key headers = do
  found ← on_world (session_get session_id)
  validate_found found headers
  on_world (Confirm.confirm session_id customer_name key headers)

unfoldable pub abandon : Uuid → ObservabilityHeaders → S CheckoutSession
abandon session_id headers = on_world (Confirm.abandon session_id headers)

abbrev pub observability_from_request : String → String → String → ObservabilityHeaders
observability_from_request request_id correlation_id trace_id = record {
  request_id = request_id;
  correlation_id = correlation_id;
  trace_id = trace_id;
}

abbrev pub observability_for_session : CheckoutSession → String → String → ObservabilityHeaders
observability_for_session session request_id trace_id = record {
  request_id = request_id;
  correlation_id = session.correlation_id;
  trace_id = trace_id;
}
