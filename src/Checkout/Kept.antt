-- ===== src/Checkout/Kept.antt =====
-- The methods of src/checkout/service.py and the store of sessions.
use ihms_oms.Prelude.{ℕ, String, ◌≡◌, refl, Bool, Option, none, some, List, arith}
use ihms_oms.Session.Models.{Uuid, CheckoutSession}
use ihms_oms.Session.Store
use ihms_oms.Gateway.Models.{ObservabilityHeaders, Env}
use ihms_oms.Gateway.Errors.{Error, gateway, saga, validation_failure}
use ihms_oms.Effect.{gets, ◌>>=◌, catch, uuid4, now}
use ihms_oms.Catalog.Provider.{EcopsMapping, ProductMetadataCatalog, JsonCatalogProvider}
use ihms_oms.Catalog.Inventory.{CatalogProductWithAvailability}
use ihms_oms.Catalog.Live.{IhmsLiveCatalog, refresh}
use ihms_oms.Saga.World.{World, external, session_get, session_save}
use ihms_oms.Saga.Coordinator.Confirm.{validate_hold_active, hold_gone}
use ihms_oms.Saga.Machine.Consistent.{IsConsistent}
use ihms_oms.Saga.Machine.Grows.{Grows, SagaSteps-Grows, created-Grows}
use ihms_oms.Saga.Refines.Requests.{
  hold_request, confirm_request, order_request, abandon_request, perform, perform-SagaSteps,
}
use ihms_oms.Checkout.State.{
  CheckoutService, S, on_world, on_live, on_gateway, write_live, catalog_mode,
}
use ihms_oms.Checkout.Service.{
  refresh_failed, refresh_parts, refresh_ihms_catalog, load_fallback, require_catalog, place_hold,
  place_order, confirm, abandon, validate_found, list_fallback, without_stock,
  list_catalog_with_inventory, get_fallback, or_fallback, get_product_with_inventory,
  create_session, get_session,
}
use ihms_oms.Checkout.Growing.{
  Growing, Growing-same, Growing-pure, Growing-raise, Growing-gets, Growing-if, Growing-on_live,
  Growing-on_world, Growing-reading, Growing-raise_if, Growing-modify, Growing-bind, Growing-catch,
}

load_fallback-store :
    (mapping : EcopsMapping) (live : Option IhmsLiveCatalog) (json : Option JsonCatalogProvider)
    (s : CheckoutService)
    → (load_fallback mapping live json s).world.store ≡ s.world.store
unfolding write_live
load_fallback-store mapping none json s = refl
load_fallback-store mapping (some live) none s = refl
load_fallback-store mapping (some live) (some json) s = refl

refresh_failed-Growing : (mapping : EcopsMapping) (x : Error) → Growing (refresh_failed mapping x)
unfolding refresh_failed
refresh_failed-Growing mapping (gateway x) = Growing-bind _ _ (Growing-gets _) (λ enabled.
    Growing-bind _ _ (Growing-gets _) (λ settings.
      Growing-if enabled _ _
        (Growing-modify _
          (λ s. load_fallback-store mapping s.ihms_live_catalog s.json_catalog_fallback s))
        (Growing-raise _)))
refresh_failed-Growing mapping (saga x) = Growing-raise _
refresh_failed-Growing mapping validation_failure = Growing-raise _

module _ (headers : ObservabilityHeaders) where
  refresh_parts-Growing :
      (live : Option IhmsLiveCatalog) (mapping : Option EcopsMapping)
      (metadata : Option ProductMetadataCatalog)
      → Growing (refresh_parts live mapping metadata headers)
  refresh_parts-Growing (some live) (some mapping) (some metadata) =
      Growing-catch _ _
        (Growing-reading
          (λ s.
            on_live live (refresh s.world.ihms metadata mapping headers (catalog_mode s.settings)))
          (λ s. Growing-on_live live _))
        (refresh_failed-Growing mapping)
  refresh_parts-Growing (some live) (some mapping) none = Growing-pure _
  refresh_parts-Growing (some live) none metadata = Growing-pure _
  refresh_parts-Growing none mapping metadata = Growing-pure _

  refresh_ihms_catalog-Growing : Growing (refresh_ihms_catalog headers)
  unfolding refresh_ihms_catalog
  refresh_ihms_catalog-Growing =
      Growing-reading
        (λ s. refresh_parts s.ihms_live_catalog s.ecops_mapping s.product_metadata headers)
        (λ s. refresh_parts-Growing s.ihms_live_catalog s.ecops_mapping s.product_metadata)

  pub require_catalog-Growing : Growing (require_catalog headers)
  unfolding require_catalog
  require_catalog-Growing = Growing-bind _ _ (Growing-gets _) (λ live.
      Growing-if live _ _
        (Growing-bind _ _ refresh_ihms_catalog-Growing (λ _.
          Growing-bind _ _ (Growing-gets _) (λ products.
            Growing-bind _ _ (Growing-gets _)
              (λ enabled. Growing-bind _ _ (Growing-gets _) (λ settings. Growing-raise_if _ _)))))
        (Growing-pure _))

  pub place_hold-Growing :
      (i : Uuid) (items : List (String × ℕ)) (customer : String)
      → Growing (place_hold i items customer headers)
  unfolding place_hold perform
  place_hold-Growing i items customer = Growing-bind _ _ require_catalog-Growing (λ _.
      Growing-on_world _ (λ e w good.
        SagaSteps-Grows good (perform-SagaSteps (hold_request i items customer headers) e w good)))

  pub place_order-Growing :
      (i : Uuid) (items : List (String × ℕ)) (customer key : String)
      → Growing (place_order i items customer key headers)
  unfolding place_order perform
  place_order-Growing i items customer key = Growing-bind _ _ require_catalog-Growing (λ _.
      Growing-on_world _ (λ e w good.
        SagaSteps-Grows good
          (perform-SagaSteps (order_request i items customer key headers) e w good)))

  pub abandon-Growing : (i : Uuid) → Growing (abandon i headers)
  unfolding abandon perform
  abandon-Growing i =
      Growing-on_world _
        (λ e w good. SagaSteps-Grows good (perform-SagaSteps (abandon_request i headers) e w good))

  validate_hold_active-store :
      (s : CheckoutSession) (e : Env) (w : World)
      → (validate_hold_active s headers e w).1.store ≡ w.store
  unfolding validate_hold_active hold_gone catch external ◌>>=◌
  validate_hold_active-store s e w = ground arith

  pub validate_found-Growing : (o : Option CheckoutSession) → Growing (validate_found o headers)
  unfolding on_world
  validate_found-Growing none = Growing-pure _
  validate_found-Growing (some s) =
      Growing-if _ _ _
        (Growing-same (on_world (validate_hold_active s headers))
          (λ e v. validate_hold_active-store s e v.world))
        (Growing-pure _)

  pub confirm-Growing :
      (i : Uuid) (customer : Option String) (key : String)
      → Growing (confirm i customer key headers)
  unfolding confirm perform session_get on_world gets
  confirm-Growing i customer key =
      Growing-bind _ _ (Growing-same (on_world (session_get i)) (λ e s. refl)) (λ found.
        Growing-bind _ _ (validate_found-Growing found) (λ _. Growing-on_world _ (λ e w good.
          SagaSteps-Grows good
            (perform-SagaSteps (confirm_request i customer key headers) e w good))))

  without_stock-Growing : (x : Error) → Growing (without_stock x)
  without_stock-Growing (gateway x) = Growing-gets _
  without_stock-Growing (saga x) = Growing-raise _
  without_stock-Growing validation_failure = Growing-raise _

  pub list_catalog_with_inventory-Growing : Growing (list_catalog_with_inventory headers)
  unfolding list_catalog_with_inventory list_fallback on_gateway
  list_catalog_with_inventory-Growing = Growing-bind _ _ (Growing-gets _) (λ live.
      Growing-if live _ _
        (Growing-bind _ _ refresh_ihms_catalog-Growing (λ _.
          Growing-bind _ _ (Growing-gets _) (λ products.
            Growing-bind _ _ (Growing-gets _) (λ enabled.
              Growing-if _ _ _
                (Growing-catch _ _ (Growing-same _ (λ e s. refl)) without_stock-Growing)
                (Growing-pure _)))))
        (Growing-same _ (λ e s. refl)))

  or_fallback-Growing :
      (o : Option CatalogProductWithAvailability) (enabled : Bool)
      (m : S (Option CatalogProductWithAvailability))
      → Growing m
      → Growing (or_fallback o enabled m)
  or_fallback-Growing none enabled m g = Growing-if enabled _ _ g (Growing-pure _)
  or_fallback-Growing (some p) enabled m g = Growing-pure _

  pub get_product_with_inventory-Growing :
      (sku : String) → Growing (get_product_with_inventory sku headers)
  unfolding get_product_with_inventory get_fallback on_gateway
  get_product_with_inventory-Growing sku = Growing-bind _ _ (Growing-gets _) (λ live.
      Growing-if live _ _
        (Growing-bind _ _ refresh_ihms_catalog-Growing (λ _.
          Growing-bind _ _ (Growing-gets _) (λ product.
            Growing-bind _ _ (Growing-gets _)
              (λ enabled. or_fallback-Growing product enabled _ (Growing-same _ (λ e s. refl))))))
        (Growing-same _ (λ e s. refl)))

pub get_session-Growing : (i : Uuid) → Growing (get_session i)
unfolding get_session session_get on_world gets
get_session-Growing i = Growing-same (get_session i) (λ e s. refl)

-- A session that is created under an id that no session has.
pub create_session-Grows :
    (c : String) (e : Env) (s : CheckoutService)
    → IsConsistent s.world.store
    → Store.get (e.uuid4 s.world.history) s.world.store.sessions ≡ none
    → Grows s.world.store (create_session c e s).1.world.store
unfolding create_session on_world external session_save uuid4 now ◌>>=◌
create_session-Grows c e s good fresh = created-Grows good (e.uuid4 s.world.history) c _ fresh
