-- ===== src/Gateway/Models.antt =====
-- src/gateway/headers.py, ihms_models.py and ecops_models.py, and the calls that the clients make.
-- The transport (httpx), the JSON decoding (pydantic), the clock and uuid4 are not part of the
-- repository: they answer through `Env`, as functions of everything that was called before.
use ihms_oms.Prelude.{ℕ, String, Bool, Option, List, [], ◌∷◌, Dict}
pub use ihms_oms.Prelude.Int.{ℤ, pos, negsuc}
use ihms_oms.Session.Models.{Uuid, Timestamp, Price}

pub record ObservabilityHeaders : Type 0 where
  pub request_id : String
  pub correlation_id : String
  pub trace_id : String

pub data HoldStatus : Type 0 where
  active released expired fulfilled : HoldStatus

pub record ProductCatalogItemResponse : Type 0 where
  pub product_id : String
  pub sku : String
  pub name : String
  pub description : String
  pub category : String
  pub unit_price : Price
  pub currency : String
  pub available_quantity : ℤ
  pub image_url : String
  pub sellable : Bool

pub record InventoryItemResponse : Type 0 where
  pub product_id : String
  pub name : String
  pub available_quantity : ℤ

pub record CreateHoldItemRequest : Type 0 where
  pub product_id : String
  pub quantity : ℕ

pub record HoldItemResponse : Type 0 where
  pub product_id : String
  pub name : String
  pub quantity : ℤ

pub record HoldResponse : Type 0 where
  pub hold_id : String
  pub status : HoldStatus
  pub items : List HoldItemResponse
  pub created_at : Timestamp
  pub expires_at : Timestamp

pub data OrderStatus : Type 0 where
  pending processing shipped delivered cancelled : OrderStatus

pub record OrderItemCreate : Type 0 where
  pub product_name : String
  pub quantity : ℕ
  pub price : Price

pub record OrderCreate : Type 0 where
  pub customer_name : String
  pub client_reference : String
  pub items : List OrderItemCreate

pub record OrderItemResponse : Type 0 where
  pub id : Uuid
  pub order_id : Uuid
  pub product_name : String
  pub quantity : ℤ
  pub price : Price

pub record OrderResponse : Type 0 where
  pub id : Uuid
  pub customer_name : String
  pub status : OrderStatus
  pub created_at : Timestamp
  pub updated_at : Option Timestamp
  pub items : List OrderItemResponse
  pub client_reference : Option String

-- The names of src/observability/constants.py.
abbrev pub request_id_header : String
request_id_header = "X-Request-ID"

abbrev pub correlation_id_header : String
correlation_id_header = "X-Correlation-ID"

abbrev pub trace_id_header : String
trace_id_header = "X-Trace-ID"

abbrev pub Headers : Type 0
Headers = Dict String String

abbrev pub as_dict : ObservabilityHeaders → Headers
as_dict h =
    (request_id_header, h.request_id)
    ∷ (correlation_id_header, h.correlation_id)
    ∷ (trace_id_header, h.trace_id)
    ∷ []

-- What leaves the process: the requests of the two clients, with what they send, the pauses
-- between retries, and the readings of the clock and of the random source.
pub data Call : Type 0 where
  post_hold : List CreateHoldItemRequest → Headers → Call
  get_hold : String → Headers → Call
  delete_hold : String → Headers → Call
  post_fulfill : String → Headers → Call
  get_products : Headers → Call
  get_inventory : Headers → Call
  post_order : OrderCreate → Headers → Call
  get_order : Uuid → Headers → Call
  get_orders : Option OrderStatus → (client_reference : Option String) → Headers → Call
  sleep : (milliseconds : ℕ) → Call
  read_clock draw_uuid : Call

-- The JSON body of a response, as the decoders of this module read it. `array` is a list with an
-- entry that fails validation, `scalar` any other value that is neither object nor list.
pub data Body : Type 0 where
  hold : HoldResponse → Body
  order : OrderResponse → Body
  products : List ProductCatalogItemResponse → Body
  inventory : List InventoryItemResponse → Body
  orders : List OrderResponse → Body
  problem : (detail title : Option String) → Body
  object array scalar : Body

-- `body` is `none` where `response.json()` raises ValueError.
pub record Response : Type 0 where
  pub status_code : ℕ
  pub is_json : Bool
  pub body : Option Body
  pub text : String

pub data Reply : Type 0 where
  response : Response → Reply
  timeout_exception : String → Reply
  transport_exception : String → Reply

-- What was called so far, the last call first.
abbrev pub History : Type 0
History = List Call

pub record Env : Type 0 where
  pub reply : History → Call → Reply
  pub now : History → Timestamp
  pub uuid4 : History → Uuid
