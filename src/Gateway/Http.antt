-- ===== src/Gateway/Http.antt =====
-- src/gateway/http_utils.py: from a response to its value or to a typed exception.
use ihms_oms.Prelude.{
  ℕ, String, Bool, Option, none, some, nat_beq, leb, ◌&&◌, truthy, or_else?, if◌then◌else◌,
}
use ihms_oms.Gateway.Models.{
  Call, Body, hold, order, products, inventory, orders, problem, object, array, scalar, Response,
  Reply, response, timeout_exception, transport_exception, History,
}
use ihms_oms.Gateway.Errors.{
  UpstreamProblem, UpstreamKind, hold_not_found, hold_conflict, hold_validation, order_not_found,
  order_validation, other, gateway_error, gateway_timeout, upstream_error, gateway,
  validation_failure, Result, ok, err,
}
use ihms_oms.Effect.{Action, lift_result, ◌>>=◌, send}

-- httpx: `response.is_success`.
abbrev pub is_success : Response → Bool
is_success r = leb 200 r.status_code && leb r.status_code 299

abbrev text_or_none : String → Option String
text_or_none t = if truthy t then some t else none

-- `body.get` on a value that is no object raises AttributeError.
problem_of_body : ℕ → Body → Result UpstreamProblem
problem_of_body c (problem d t) = ok (record { status_code = c; detail = or_else? d t; title = t })
problem_of_body c (hold _) = ok (record { status_code = c; detail = none; title = none })
problem_of_body c (order _) = ok (record { status_code = c; detail = none; title = none })
problem_of_body c object = ok (record { status_code = c; detail = none; title = none })
problem_of_body c (products _) = err validation_failure
problem_of_body c (inventory _) = err validation_failure
problem_of_body c (orders _) = err validation_failure
problem_of_body c array = err validation_failure
problem_of_body c scalar = err validation_failure

abbrev problem_of_text : Response → Result UpstreamProblem
problem_of_text r =
    ok (record { status_code = r.status_code; detail = text_or_none r.text; title = none })

pub parse_problem : Response → Result UpstreamProblem
unfolding problem_of_body
parse_problem r =
    if r.is_json
    then elim r.body [ none ↦ problem_of_text r | some b ↦ problem_of_body r.status_code b ]
    else problem_of_text r

abbrev pub ihms_kind : ℕ → UpstreamKind
ihms_kind c =
    if nat_beq c 404
    then hold_not_found
    else if nat_beq c 409
    then hold_conflict
    else if nat_beq c 422
    then hold_validation
    else other

abbrev pub ecops_kind : ℕ → UpstreamKind
ecops_kind c =
    if nat_beq c 404 then order_not_found else if nat_beq c 422 then order_validation else other

abbrev raise_problem : UpstreamKind → Result UpstreamProblem → Result (Unit {0})
raise_problem k (ok p) = err (gateway (upstream_error k p))
raise_problem k (err x) = err x

unfoldable pub raise_for_ihms_response : Response → Result (Unit {0})
unfolding parse_problem
raise_for_ihms_response r =
    if is_success r then ok tt else raise_problem (ihms_kind r.status_code) (parse_problem r)

unfoldable pub raise_for_ecops_response : Response → Result (Unit {0})
unfolding parse_problem
raise_for_ecops_response r =
    if is_success r then ok tt else raise_problem (ecops_kind r.status_code) (parse_problem r)

-- `except httpx.HTTPError as exc: raise map_transport_error(exc)`
abbrev pub map_transport_error : Reply → Result Response
map_transport_error (response r) = ok r
map_transport_error (timeout_exception s) = err (gateway (gateway_timeout s))
map_transport_error (transport_exception s) = err (gateway (gateway_error s))

-- One request, up to its response.
unfoldable pub request : Call → Action History Response
unfolding send
request c = do reply ← send c; lift_result (map_transport_error reply)
