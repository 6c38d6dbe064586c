-- ===== src/Gateway/Ecops.antt =====
-- src/gateway/ecops_client.py. The lines that `log_gateway_call` writes are not modelled.
use Prim.Native.String.{◌++◌}
use ihms_oms.Prelude.{
  String, Option, none, some, List, [], ◌∷◌, insert, string_eq, truthy, if◌then◌else◌,
}
use ihms_oms.Session.Models.{Uuid}
use ihms_oms.Gateway.Models.{
  ObservabilityHeaders, Headers, as_dict, OrderCreate, OrderResponse, OrderStatus, post_order,
  get_order as get_order_call, get_orders, Body, order, orders, History,
}
use ihms_oms.Gateway.Errors.{validation_failure, Result, ok, err}
use ihms_oms.Gateway.Http.{raise_for_ecops_response, request}
use ihms_oms.Effect.{Action, pure, lift_result, ◌>>=◌, ◌>>◌}

pub record EcOpsClient : Type 0 where
  pub bearer_token : String

unfoldable pub auth_headers : EcOpsClient → ObservabilityHeaders → Headers
auth_headers ecops headers =
    if truthy ecops.bearer_token
    then insert "Authorization" ("Bearer " ++ ecops.bearer_token) (as_dict headers)
    else as_dict headers

-- `{**self._auth_headers(headers), **extra}`
abbrev pub with_key : Option String → Headers → Headers
with_key none h = h
with_key (some k) h = if truthy k then insert "Idempotency-Key" k h else h

-- `OrderResponse.model_validate(response.json())`, and the same for each entry of a list. An empty
-- object, over which the source iterates too, reads as `orders []`.
abbrev pub decode_order : Option Body → Result OrderResponse
decode_order (some (order o)) = ok o
decode_order _ = err validation_failure

abbrev pub decode_orders : Option Body → Result (List OrderResponse)
decode_orders (some (orders os)) = ok os
decode_orders _ = err validation_failure

unfoldable pub create_order :
    EcOpsClient → OrderCreate → ObservabilityHeaders → Option String → Action History OrderResponse
unfolding request
create_order ecops payload headers idempotency_key = do
  r ← request (post_order payload (with_key idempotency_key (auth_headers ecops headers)))
  lift_result (raise_for_ecops_response r)
  lift_result (decode_order r.body)

unfoldable pub get_order : EcOpsClient → Uuid → ObservabilityHeaders → Action History OrderResponse
unfolding request
get_order ecops order_id headers = do
  r ← request (get_order_call order_id (auth_headers ecops headers))
  lift_result (raise_for_ecops_response r)
  lift_result (decode_order r.body)

unfoldable pub list_orders :
    EcOpsClient
    → ObservabilityHeaders
    → Option OrderStatus
    → Option String
    → Action History (List OrderResponse)
unfolding request
list_orders ecops headers status client_reference = do
  r ← request (get_orders status client_reference (auth_headers ecops headers))
  lift_result (raise_for_ecops_response r)
  lift_result (decode_orders r.body)

-- `orders[0] if orders else None`
abbrev pub first_order : List OrderResponse → Option OrderResponse
first_order [] = none
first_order (o ∷ _) = some o

unfoldable pub find_order_by_client_reference :
    EcOpsClient → String → ObservabilityHeaders → Action History (Option OrderResponse)
unfolding list_orders
find_order_by_client_reference ecops client_reference headers = do
  found ← list_orders ecops headers none (some client_reference)
  pure (first_order found)
