-- ===== src/Checkout/Degrades.antt =====
-- The catalog of the service while IHMS fails, where the JSON catalog may stand in for it.
use ihms_oms.Prelude.{
  ◌≡◌, refl, true, false, Option, none, some, List, ◌&&◌, Bool-cases, inl, inr, ◌⊎◌, ◌∙◌,
  if◌then◌else◌,
}
use ihms_oms.Gateway.Models.{ObservabilityHeaders, Env, History}
use ihms_oms.Gateway.Ihms.{IhmsClient}
use ihms_oms.Gateway.Errors.{Error, gateway, saga, validation_failure, Result, ok, err}
use ihms_oms.Effect.{Action, pure, raise, gets, recover, continue, catch, ◌>>=◌}
use ihms_oms.Catalog.Provider.{
  CatalogProduct, JsonCatalogProvider, ProductMetadataCatalog, EcopsMapping,
}
use ihms_oms.Catalog.Inventory as Joined
use ihms_oms.Catalog.Inventory.{CatalogProductWithAvailability, degraded}
use ihms_oms.Catalog.Live as Live
use ihms_oms.Catalog.Live.{IhmsLiveCatalog, LiveWorld, refresh}
use ihms_oms.Checkout.State.{
  CheckoutService, S, on_live, on_gateway, write_live, fallback_enabled, catalog_mode,
}
use ihms_oms.Checkout.Service.{
  load_fallback, refresh_failed, refresh_parts, refresh_ihms_catalog, is_live, is_empty, live_list,
  without_stock, list_fallback, list_catalog_with_inventory,
}

-- The action did not raise an exception of the gateways.
abbrev pub NotGateway : {A : Type 0} → Result A → Type 0
NotGateway (ok a) = Unit
NotGateway (err (gateway x)) = ⊥
NotGateway (err x) = Unit

-- ... and the JSON catalog may still stand in.
abbrev Spared : {A : Type 0} → Result A × CheckoutService → Type 0
Spared (r, s) = NotGateway r × (fallback_enabled s ≡ true)

load_fallback-enabled :
    (mapping : EcopsMapping) (live : Option IhmsLiveCatalog) (json : Option JsonCatalogProvider)
    (s : CheckoutService)
    → fallback_enabled (load_fallback mapping live json s) ≡ fallback_enabled s
unfolding fallback_enabled write_live
load_fallback-enabled mapping (some live) (some json) s = refl
load_fallback-enabled mapping (some live) none s = refl
load_fallback-enabled mapping none json s = refl

refresh_failed-Spared :
    (mapping : EcopsMapping) (x : Error) (e : Env) (s : CheckoutService)
    → fallback_enabled s ≡ true
    → Spared (refresh_failed mapping x e s)
unfolding refresh_failed ◌>>=◌
refresh_failed-Spared mapping (gateway x) e s able =
    rw (able, refresh_failed)
      (tt, load_fallback-enabled mapping s.ihms_live_catalog s.json_catalog_fallback s ∙ able)
refresh_failed-Spared mapping (saga x) e s able = (tt, able)
refresh_failed-Spared mapping validation_failure e s able = (tt, able)

refreshed-Spared :
    (mapping : EcopsMapping) (r : Result (Unit {0})) (e : Env) (s : CheckoutService)
    → fallback_enabled s ≡ true
    → Spared (recover r (refresh_failed mapping) e s)
refreshed-Spared mapping (ok a) e s able = (tt, able)
refreshed-Spared mapping (err x) e s able = refresh_failed-Spared mapping x e s able

on_live-enabled :
    {A : Type 0} (live : IhmsLiveCatalog) (m : Action LiveWorld A) (e : Env) (s : CheckoutService)
    → fallback_enabled (on_live live m e s).1 ≡ fallback_enabled s
unfolding on_live fallback_enabled
on_live-enabled live m e s = refl

refresh_parts-Spared :
    (live : Option IhmsLiveCatalog) (mapping : Option EcopsMapping)
    (metadata : Option ProductMetadataCatalog) (headers : ObservabilityHeaders) (e : Env)
    (s : CheckoutService)
    → fallback_enabled s ≡ true
    → Spared (refresh_parts live mapping metadata headers e s)
unfolding catch pure
refresh_parts-Spared (some live) (some mapping) (some metadata) headers e s able =
    let m = λ (e' : Env) (s' : CheckoutService).
      on_live live (refresh s'.world.ihms metadata mapping headers (catalog_mode s'.settings)) e'
        s' in
    refreshed-Spared mapping (m e s).0 e (m e s).1 (
      on_live-enabled live (refresh s.world.ihms metadata mapping headers (catalog_mode s.settings))
        e s
      ∙ able)
refresh_parts-Spared (some live) (some mapping) none headers e s able = (tt, able)
refresh_parts-Spared (some live) none metadata headers e s able = (tt, able)
refresh_parts-Spared none mapping metadata headers e s able = (tt, able)

recover-NotGateway :
    {T A : Type 0} (r : Result A) (h : Error → Action T A) (e : Env) (s : T)
    → ((x : Error) → NotGateway (h x e s).0)
    → NotGateway (recover r h e s).0
recover-NotGateway (ok a) h e s handled = tt
recover-NotGateway (err x) h e s handled = handled x

without_stock-NotGateway :
    (x : Error) (e : Env) (s : CheckoutService) → NotGateway (without_stock x e s).0
unfolding gets raise
without_stock-NotGateway (gateway x) e s = tt
without_stock-NotGateway (saga x) e s = tt
without_stock-NotGateway validation_failure e s = tt

list_fallback-NotGateway :
    (headers : ObservabilityHeaders) (e : Env) (s : CheckoutService)
    → NotGateway (list_fallback headers e s).0
unfolding list_fallback catch
list_fallback-NotGateway headers e s =
    recover-NotGateway _ without_stock e _ (λ x. without_stock-NotGateway x e _)

degraded-NotGateway :
    {T A : Type 0} (a : A) (x : Error) (e : Env) (s : T) → NotGateway (degraded true a x e s).0
unfolding pure raise
degraded-NotGateway a (gateway x) e s = tt
degraded-NotGateway a (saga x) e s = tt
degraded-NotGateway a validation_failure e s = tt

joined-NotGateway :
    (products : List CatalogProduct) (ihms : IhmsClient) (headers : ObservabilityHeaders) (e : Env)
    (h : History)
    → NotGateway (Joined.list_catalog_with_inventory products ihms headers true e h).0
unfolding Joined.list_catalog_with_inventory catch
joined-NotGateway products ihms headers e h =
    recover-NotGateway _ (degraded true _) e _ (λ x. degraded-NotGateway _ x e _)

-- What is listed after a refresh.
live_rows : ObservabilityHeaders → S (List CatalogProductWithAvailability)
live_rows headers = do
  products ← gets (λ s. live_list s.ihms_live_catalog)
  enabled ← gets fallback_enabled
  if is_empty products && enabled then list_fallback headers else pure products

live_rows-NotGateway :
    (headers : ObservabilityHeaders) (e : Env) (s : CheckoutService)
    → NotGateway (live_rows headers e s).0
unfolding live_rows ◌>>=◌
live_rows-NotGateway headers e s =
    elim (Bool-cases (is_empty (live_list s.ihms_live_catalog) && fallback_enabled s)) [
      | inl b ↦ rw (b, live_rows) (list_fallback-NotGateway headers e s)
      | inr b ↦ rw (b, live_rows) tt
    ]

refreshed_rows-NotGateway :
    (headers : ObservabilityHeaders) (e : Env) (r : Result (Unit {0})) (s : CheckoutService)
    → NotGateway r
    → NotGateway (continue r (λ _. live_rows headers) e s).0
refreshed_rows-NotGateway headers e (ok u) s calm = live_rows-NotGateway headers e s
refreshed_rows-NotGateway headers e (err (gateway x)) s calm = calm
refreshed_rows-NotGateway headers e (err (saga x)) s calm = tt
refreshed_rows-NotGateway headers e (err validation_failure) s calm = tt

-- Where the service has no live catalog, or the JSON catalog may stand in for it, the listing of the
-- catalog raises no exception of the gateways, whatever IHMS answers and whether it answers at all.
pub list_catalog_with_inventory-NotGateway :
    (headers : ObservabilityHeaders) (e : Env) (s : CheckoutService)
    → (is_live s ≡ false) ⊎ (fallback_enabled s ≡ true)
    → NotGateway (list_catalog_with_inventory headers e s).0
unfolding list_catalog_with_inventory live_rows refresh_ihms_catalog on_gateway ◌>>=◌
list_catalog_with_inventory-NotGateway headers e s (inl static) =
    rw static (
      joined-NotGateway (Live.list_products s.world.catalog) s.world.ihms headers e s.world.history)
list_catalog_with_inventory-NotGateway headers e s (inr able) = elim (Bool-cases (is_live s)) [
  | inl b ↦
      let (calm, kept) =
        refresh_parts-Spared s.ihms_live_catalog s.ecops_mapping s.product_metadata headers e s
          able in
      rw b (refreshed_rows-NotGateway headers e _ _ calm)
  | inr b ↦ rw b (
      joined-NotGateway (Live.list_products s.world.catalog) s.world.ihms headers e s.world.history)
]
