-- ===== src/Gateway/Ihms.antt =====
-- src/gateway/ihms_client.py. The lines that `log_gateway_call` writes are not modelled.
use ihms_oms.Prelude.{String, Bool, Option, none, some, List, [], nat_beq, ◌&&◌, if◌then◌else◌}
use ihms_oms.Gateway.Models.{
  ObservabilityHeaders, as_dict, CreateHoldItemRequest, HoldResponse, InventoryItemResponse,
  ProductCatalogItemResponse, post_hold, get_hold as get_hold_call, delete_hold, post_fulfill,
  get_products as get_products_call, get_inventory as get_inventory_call, Body, hold, order,
  products, inventory, problem, object, scalar, History,
}
use ihms_oms.Gateway.Errors.{validation_failure, Result, ok, err}
use ihms_oms.Gateway.Http.{raise_for_ihms_response, request}
use ihms_oms.Effect.{Action, pure, lift_result, ◌>>=◌, ◌>>◌}

pub record IhmsClient : Type 0 where
  pub fulfill_optional : Bool

-- `HoldResponse.model_validate(response.json())`
abbrev pub decode_hold : Option Body → Result HoldResponse
decode_hold (some (hold h)) = ok h
decode_hold _ = err validation_failure

-- `[]` unless the body is a list, whose entries are validated one by one.
abbrev pub decode_products : Option Body → Result (List ProductCatalogItemResponse)
decode_products (some (products ps)) = ok ps
decode_products (some (hold _)) = ok []
decode_products (some (order _)) = ok []
decode_products (some (problem _ _)) = ok []
decode_products (some object) = ok []
decode_products (some scalar) = ok []
decode_products _ = err validation_failure

abbrev pub decode_inventory : Option Body → Result (List InventoryItemResponse)
decode_inventory (some (inventory xs)) = ok xs
decode_inventory (some (hold _)) = ok []
decode_inventory (some (order _)) = ok []
decode_inventory (some (problem _ _)) = ok []
decode_inventory (some object) = ok []
decode_inventory (some scalar) = ok []
decode_inventory _ = err validation_failure

unfoldable pub create_hold :
    IhmsClient → List CreateHoldItemRequest → ObservabilityHeaders → Action History HoldResponse
unfolding request
create_hold ihms items headers = do
  r ← request (post_hold items (as_dict headers))
  lift_result (raise_for_ihms_response r)
  lift_result (decode_hold r.body)

unfoldable pub get_hold : IhmsClient → String → ObservabilityHeaders → Action History HoldResponse
unfolding request
get_hold ihms hold_id headers = do
  r ← request (get_hold_call hold_id (as_dict headers))
  lift_result (raise_for_ihms_response r)
  lift_result (decode_hold r.body)

unfoldable pub release_hold : IhmsClient → String → ObservabilityHeaders → Action History (Unit {0})
unfolding request
release_hold ihms hold_id headers = do
  r ← request (delete_hold hold_id (as_dict headers))
  lift_result (raise_for_ihms_response r)

unfoldable pub get_products :
    IhmsClient → ObservabilityHeaders → Action History (List ProductCatalogItemResponse)
unfolding request
get_products ihms headers = do
  r ← request (get_products_call (as_dict headers))
  lift_result (raise_for_ihms_response r)
  lift_result (decode_products r.body)

unfoldable pub get_inventory :
    IhmsClient → ObservabilityHeaders → Action History (List InventoryItemResponse)
unfolding request
get_inventory ihms headers = do
  r ← request (get_inventory_call (as_dict headers))
  lift_result (raise_for_ihms_response r)
  lift_result (decode_inventory r.body)

abbrev fulfilled_hold : Result HoldResponse → Result (Option HoldResponse)
fulfilled_hold (ok h) = ok (some h)
fulfilled_hold (err x) = err x

-- On 404 without `fulfill_optional` the first of the source's two checks raises.
unfoldable pub fulfill_hold :
    IhmsClient → String → ObservabilityHeaders → Action History (Option HoldResponse)
unfolding request
fulfill_hold ihms hold_id headers = do
  r ← request (post_fulfill hold_id (as_dict headers))
  if nat_beq r.status_code 404 && ihms.fulfill_optional then pure none else do
    lift_result (raise_for_ihms_response r)
    if nat_beq r.status_code 204
        then pure none
        else lift_result (fulfilled_hold (decode_hold r.body))
