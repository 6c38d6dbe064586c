-- ===== src/Checkout/State.antt =====
-- The objects that a `CheckoutService` of src/checkout/service.py holds, and how its methods act on
-- them: by the coordinator's actions, and by those of the live catalog.
use Prim.Native.String.{◌++◌}
use ihms_oms.Prelude.{String, Bool, true, false, Option, none, some, ◌&&◌, decimal, or_else?}
use ihms_oms.Gateway.Models.{History}
use ihms_oms.Gateway.Errors.{GatewayError, gateway_error, gateway_timeout, upstream_error}
use ihms_oms.Catalog.Provider.{JsonCatalogProvider, ProductMetadataCatalog, EcopsMapping}
use ihms_oms.Catalog.Live.{
  IhmsLiveCatalog, LiveWorld, CatalogMode, auto_mode, CatalogProvider, json_provider, live_provider,
}
use ihms_oms.Effect.{Action}
use ihms_oms.Saga.World.{World, M}
use ihms_oms.Checkout.Settings.{Settings}

-- `world` has the objects that the service shares with its coordinator: sessions, idempotency,
-- catalog and the two clients.
pub record CheckoutService : Type 0 where
  pub world : World
  pub ihms_live_catalog : Option IhmsLiveCatalog
  pub product_metadata : Option ProductMetadataCatalog
  pub ecops_mapping : Option EcopsMapping
  pub json_catalog_fallback : Option JsonCatalogProvider
  pub settings : Option Settings

abbrev pub S : Type 0 → Type 0
S A = Action CheckoutService A

-- A method of the coordinator.
unfoldable pub on_world : {A : Type 0} → M A → S A
on_world m e s = let (r, w) = m e s.world in (r, record s { world = w })

-- The adapter that the coordinator's catalog may be is one of the service's live catalog
-- (src/api/app.py): it shows what is written to that.
abbrev pub seen_by : IhmsLiveCatalog → CatalogProvider → CatalogProvider
seen_by live (live_provider _) = live_provider live
seen_by live (json_provider c) = json_provider c

unfoldable pub write_live : IhmsLiveCatalog → CheckoutService → CheckoutService
write_live live s = record s {
  ihms_live_catalog = some live;
  world = record s.world { catalog = seen_by live s.world.catalog };
}

-- A method of the live catalog, which may raise after it was changed.
unfoldable pub on_live : {A : Type 0} → IhmsLiveCatalog → Action LiveWorld A → S A
unfolding write_live
on_live live m e s =
    let (r, lw) = m e (record { live = live; history = s.world.history }) in
    (r, write_live lw.live (record s { world = record s.world { history = lw.history } }))

-- A call of a gateway.
unfoldable pub on_gateway : {A : Type 0} → Action History A → S A
on_gateway m e s =
    let (r, h) = m e s.world.history in (r, record s { world = record s.world { history = h } })

-- `str(exc)`
abbrev text_or_None : Option String → String
text_or_None none = "None"
text_or_None (some t) = t

unfoldable pub gateway_text : GatewayError → String
gateway_text (gateway_error t) = t
gateway_text (gateway_timeout t) = t
gateway_text (upstream_error k p) =
    "Upstream " ++ decimal p.status_code ++ ": " ++ text_or_None (or_else? p.detail p.title)

abbrev base_url : Option Settings → String
base_url none = "IHMS"
base_url (some settings) = settings.ihms_base_url

-- `_ihms_unreachable_message`
unfoldable pub ihms_unreachable_message : Option Settings → GatewayError → GatewayError
unfolding gateway_text
ihms_unreachable_message settings x = gateway_error (
    "Cannot reach KB-IHMS at "
    ++ base_url settings
    ++ ". For mock stack run: bash scripts/mock-stack.sh. "
    ++ "For real KB-IHMS run: bash scripts/real-upstream.sh (detail: "
    ++ gateway_text x
    ++ ")")

abbrev allows_json : Option Settings → Bool
allows_json none = true
allows_json (some settings) = settings.catalog_fallback_to_json

abbrev pub given {ℓ} : {A : Type ℓ} → Option A → Bool
given none = false
given (some _) = true

-- `_fallback_enabled`
unfoldable pub fallback_enabled : CheckoutService → Bool
fallback_enabled s = given s.json_catalog_fallback && allows_json s.settings

abbrev pub catalog_mode : Option Settings → CatalogMode
catalog_mode none = auto_mode
catalog_mode (some settings) = settings.ihms_catalog_mode
