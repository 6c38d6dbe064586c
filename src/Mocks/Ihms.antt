-- ===== src/Mocks/Ihms.antt =====
-- docker/mock-upstreams/ihms/app.py: the mock of IHMS. A handler gives its reply beside the new state.
mod Products
mod Stock
mod Reserve
mod Account
mod Kept
mod Requests
mod Runs
mod Tests
use Prim.Native.Nat.{◌/◌, ◌^◌}
use Prim.Native.String.{◌++◌ as ◌++ₛ◌}
use ihms_oms.Prelude.{
  ℕ, String, Bool, true, false, Option, none, some, List, [], ◌∷◌, ◌++◌, Dict, lookup, insert,
  remove, string_eq, nat_beq, if◌then◌else◌, ◌+◌, ◌*◌,
}
use ihms_oms.Prelude.Numerals.{hex_onto}
use ihms_oms.Prelude.Int.{ℤ, pos, negsuc, less, ◌+ℤ◌, ◌-ℤ◌}
use ihms_oms.Mocks.Ihms.Products.{Product, product_catalog, or_default, name_of}
use ihms_oms.Session.Models.{Price, Timestamp, Uuid}
use ihms_oms.Gateway.Models.{
  HoldStatus, active, released, expired, fulfilled, HoldItemResponse, HoldResponse,
  InventoryItemResponse, Body, hold, problem, object, Response,
}

-- How many of each product there are, or are reserved.
abbrev pub Amounts : Type 0
Amounts = Dict String ℤ

abbrev pub default_inventory : Amounts
default_inventory =
    ("prod-001", pos 120)
    ∷ ("prod-002", pos 80)
    ∷ ("prod-003", pos 65)
    ∷ ("prod-widget-001", pos 100)
    ∷ ("prod-gadget-002", pos 50)
    ∷ []

pub record HoldItemIn : Type 0 where
  pub product_id : String
  pub quantity : ℤ

pub record CreateHoldBody : Type 0 where
  pub items : List HoldItemIn

pub record HoldRecord : Type 0 where
  pub hold_id : String
  pub status : HoldStatus
  pub items : List HoldItemResponse
  pub created_at : Timestamp
  pub expires_at : Timestamp
  pub reserved : Amounts

pub record MockState : Type 0 where
  pub inventory : Amounts
  pub holds : Dict String HoldRecord
  pub force_hold_status : Option ℤ

abbrev pub new_state : MockState
new_state = record { inventory = default_inventory; holds = []; force_hold_status = none }

-- A handler returns a response, or raises KeyError.
pub data Reply : Type 0 where
  returned : Response → Reply
  key_error : Reply

-- A JSONResponse, and a Response without a body.
abbrev json_response : ℕ → Body → Reply
json_response code content =
    returned (record { status_code = code; is_json = true; body = some content; text = "" })

abbrev plain_response : ℕ → Reply
plain_response code =
    returned (record { status_code = code; is_json = false; body = none; text = "" })

abbrev insufficient_stock : Reply
insufficient_stock = json_response 409 (problem (some "Insufficient stock") (some "Conflict"))

abbrev hold_missing : Reply
hold_missing = json_response 404 (problem (some "Hold missing") (some "Not Found"))

-- `_hold_payload`
pub hold_payload : HoldRecord → HoldResponse
hold_payload r = record {
  hold_id = r.hold_id;
  status = r.status;
  items = r.items;
  created_at = r.created_at;
  expires_at = r.expires_at;
}

-- `state.inventory.get(product_id, 0)`
abbrev pub available : Amounts → String → ℤ
available inventory product_id = or_default (pos 0) (lookup product_id inventory)

pub list_inventory : Amounts → List InventoryItemResponse
list_inventory [] = []
list_inventory ((product_id, qty) ∷ rest) =
    record { product_id = product_id; name = name_of product_id; available_quantity = qty }
    ∷ list_inventory rest

-- A product of the catalog beside its stock.
pub list_products : Amounts → List Product → List (Product × ℤ)
list_products inventory [] = []
list_products inventory (p ∷ ps) =
    let rest = list_products inventory ps in
    if p.sellable then (p, available inventory p.product_id) ∷ rest else rest

-- The loop over the lines: what is reserved and what is answered; `none` where stock is short.
pub reserve_items :
    Amounts
    → List HoldItemIn
    → Amounts
    → List HoldItemResponse
    → Option (Amounts × List HoldItemResponse)
reserve_items inventory [] reserved out = some (reserved, out)
reserve_items inventory (item ∷ items) reserved out =
    let rest = reserve_items inventory items (insert item.product_id item.quantity reserved) (
      out
      ++ record {
        product_id = item.product_id;
        name = name_of item.product_id;
        quantity = item.quantity;
      }
        ∷ []) in
    if less (available inventory item.product_id) item.quantity then none else rest

-- The loop that takes what is reserved off the stock; `false` is its KeyError.
pub deduct : Amounts → Amounts → Bool × Amounts
deduct [] inventory = (true, inventory)
deduct ((product_id, qty) ∷ reserved) inventory = elim (lookup product_id inventory) [
  | none ↦ (false, inventory)
  | some n ↦ deduct reserved (insert product_id (n -ℤ qty) inventory)
]

-- The loop that puts it back.
pub restore : Amounts → Amounts → Amounts
restore [] inventory = inventory
restore ((product_id, qty) ∷ reserved) inventory =
    restore reserved (insert product_id (available inventory product_id +ℤ qty) inventory)

-- `f"hold-{uuid.uuid4().hex[:12]}"`
pub hold_id_of : Uuid → String
hold_id_of drawn = "hold-" ++ₛ hex_onto 12 (drawn / 16 ^ 20) ""

abbrev minutes_15 : ℕ
minutes_15 = 15 * 60 * 1000000

pub new_hold : String → Timestamp → Amounts → List HoldItemResponse → HoldRecord
new_hold hold_id now reserved items = record {
  hold_id = hold_id;
  status = active;
  items = items;
  created_at = now;
  expires_at = now + minutes_15;
  reserved = reserved;
}

abbrev store_hold : HoldRecord → MockState → MockState
store_hold r state = record state { holds = insert r.hold_id r state.holds }

-- From the deduction on.
pub take_stock : HoldRecord → MockState → Reply × MockState
unfolding hold_payload
take_stock r state =
    let (done, inventory) = deduct r.reserved state.inventory in
    let state' = record state { inventory = inventory } in
    if done
    then (json_response 201 (hold (hold_payload r)), store_hold r state')
    else (key_error, state')

pub is_409 : Option ℤ → Bool
is_409 (some (pos n)) = nat_beq n 409
is_409 _ = false

pub create_unforced : CreateHoldBody → Uuid → Timestamp → MockState → Reply × MockState
unfolding take_stock new_hold hold_id_of
create_unforced body drawn now state = elim (reserve_items state.inventory body.items [] []) [
  | none ↦ (insufficient_stock, state)
  | some (reserved, items) ↦ take_stock (new_hold (hold_id_of drawn) now reserved items) state
]

-- With the readings of uuid4 and of the clock.
pub create_hold : CreateHoldBody → Uuid → Timestamp → MockState → Reply × MockState
unfolding is_409 create_unforced
create_hold body drawn now state =
    if is_409 state.force_hold_status
    then (insufficient_stock, state)
    else create_unforced body drawn now state

pub shown_found : HoldStatus → HoldRecord → Reply
unfolding hold_payload
shown_found released r = json_response 409 (problem (some "Hold expired") (some "Conflict"))
shown_found _ r = json_response 200 (hold (hold_payload r))

pub shown_hold : Option HoldRecord → Reply
unfolding shown_found
shown_hold none = hold_missing
shown_hold (some r) = shown_found r.status r

pub get_hold : String → MockState → Reply × MockState
unfolding shown_hold
get_hold hold_id state = (shown_hold (lookup hold_id state.holds), state)

pub is_fulfilled : HoldStatus → Bool
is_fulfilled fulfilled = true
is_fulfilled _ = false

pub release_found : String → HoldRecord → MockState → Reply × MockState
unfolding is_fulfilled restore
release_found hold_id r state = if is_fulfilled r.status then (plain_response 409, state) else (
  plain_response 204,
  record state {
    holds = remove hold_id state.holds;
    inventory = restore r.reserved state.inventory;
  },
)

pub release_hold : String → MockState → Reply × MockState
unfolding release_found
release_hold hold_id state = elim (lookup hold_id state.holds) [
  | none ↦ (plain_response 404, state)
  | some r ↦ release_found hold_id r state
]

-- The record is shared with the dictionary: what is assigned to it shows there.
pub fulfill_found : String → HoldRecord → MockState → Reply × MockState
unfolding is_fulfilled hold_payload
fulfill_found hold_id r state =
    let r' = record r { status = fulfilled } in
    if is_fulfilled r.status then (json_response 200 (hold (hold_payload r)), state) else (
      json_response 200 (hold (hold_payload r')),
      record state { holds = insert hold_id r' state.holds },
    )

pub fulfill_hold : String → MockState → Reply × MockState
unfolding fulfill_found
fulfill_hold hold_id state = elim (lookup hold_id state.holds) [
  | none ↦ (hold_missing, state)
  | some r ↦ fulfill_found hold_id r state
]

pub reset_state : MockState → Reply × MockState
reset_state state = (
  json_response 200 object,
  record state { inventory = default_inventory; holds = []; force_hold_status = none },
)

pub set_scenario : Option ℤ → MockState → Reply × MockState
set_scenario force state = (json_response 200 object, record state { force_hold_status = force })
