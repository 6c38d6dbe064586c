-- ===== src/Api/Models.antt =====
-- The bodies that the routes of src/api/routes.py take and answer. The constraints of the request
-- bodies (`gt=0`, `min_length=1`) are checked by FastAPI before a route is called.
use ihms_oms.Prelude.{ℕ, String, Option, none, List, map}
use ihms_oms.Session.Models.{Uuid, Timestamp, Price, SessionState, SessionLineItem, CheckoutSession}
use ihms_oms.Gateway.Models.{ℤ}
use ihms_oms.Catalog.Provider.{CatalogProduct}
use ihms_oms.Catalog.Inventory.{CatalogProductWithAvailability}

pub record CatalogProductOut : Type 0 where
  pub sku : String
  pub name : String
  pub ihms_product_id : String
  pub ecops_item_code : String
  pub unit_price : Price
  pub available_quantity : Option ℤ
  pub description : Option String
  pub image_url : Option String
  pub category : Option String

unfoldable pub from_catalog : CatalogProduct → CatalogProductOut
from_catalog p = record {
  sku = p.sku;
  name = p.name;
  ihms_product_id = p.ihms_product_id;
  ecops_item_code = p.ecops_item_code;
  unit_price = p.unit_price;
  available_quantity = none;
  description = none;
  image_url = none;
  category = none;
}

unfoldable pub from_enriched : CatalogProductWithAvailability → CatalogProductOut
from_enriched p = record {
  sku = p.sku;
  name = p.name;
  ihms_product_id = p.ihms_product_id;
  ecops_item_code = p.ecops_item_code;
  unit_price = p.unit_price;
  available_quantity = p.available_quantity;
  description = p.description;
  image_url = p.image_url;
  category = p.category;
}

pub record SessionCreateResponse : Type 0 where
  pub session_id : Uuid
  pub correlation_id : String
  pub state : SessionState

pub record SessionLineItemOut : Type 0 where
  pub sku : String
  pub name : String
  pub quantity : ℕ
  pub unit_price : Price

pub record SessionResponse : Type 0 where
  pub session_id : Uuid
  pub correlation_id : String
  pub state : SessionState
  pub hold_id : Option String
  pub order_id : Option Uuid
  pub expires_at : Option Timestamp
  pub customer_name : Option String
  pub line_items : List SessionLineItemOut

abbrev line_item_out : SessionLineItem → SessionLineItemOut
line_item_out i = record {
  sku = i.sku;
  name = i.name;
  quantity = i.quantity;
  unit_price = i.unit_price;
}

unfoldable pub from_session : CheckoutSession → SessionResponse
from_session s = record {
  session_id = s.session_id;
  correlation_id = s.correlation_id;
  state = s.state;
  hold_id = s.hold_id;
  order_id = s.order_id;
  expires_at = s.expires_at;
  customer_name = s.customer_name;
  line_items = map line_item_out s.line_items;
}

pub record HoldLineItemBody : Type 0 where
  pub sku : String
  pub quantity : ℕ

-- The body of a hold.
pub record PlaceHoldBody : Type 0 where
  pub items : List HoldLineItemBody
  pub customer_name : String

-- The body of a confirm, which may be missing.
pub record ConfirmBody : Type 0 where
  pub customer_name : Option String

-- The bodies of `place_order` and of `checkout`.
pub record PlaceOrderBody : Type 0 where
  pub items : List HoldLineItemBody
  pub customer_name : Option String

abbrev pub pairs : List HoldLineItemBody → List (String × ℕ)
pairs items = map (λ i. (i.sku, i.quantity)) items
