-- ===== src/Api/Middleware.antt =====
-- src/api/middleware.py. Header names are compared by Starlette; here a request's headers carry them in
-- the spelling of src/observability/constants.py. Log lines and the time they measure are left out.
use ihms_oms.Prelude.{
  String, Option, none, some, [], ◌∷◌, lookup, string_eq, truthy, uuid_text, if◌then◌else◌,
}
use ihms_oms.Gateway.Models.{
  Headers, History, request_id_header, correlation_id_header, trace_id_header,
}
use ihms_oms.Gateway.Errors.{Result, ok, err}
use ihms_oms.Effect.{Action, pure, ◌>>=◌, uuid4}
use ihms_oms.Observability.Context.{
  LogContext, new_context, bind_log_context, reset_log_context, clear_log_context,
}
use ihms_oms.Checkout.State.{CheckoutService}

-- `request.state`
pub record RequestState : Type 0 where
  pub request_id : String
  pub trace_id : String
  pub correlation_id : String

-- `value or str(uuid.uuid4())`
abbrev pub or_drawn : Option String → Action History String
or_drawn none = do i ← uuid4; pure (uuid_text i)
or_drawn (some v) = if truthy v then pure v else do i ← uuid4; pure (uuid_text i)

abbrev pub or_text : Option String → String → String
or_text none t = t
or_text (some v) t = if truthy v then v else t

unfoldable pub request_state : Headers → Action History RequestState
request_state headers = do
  request_id ← or_drawn (lookup request_id_header headers)
  trace_id ← or_drawn (lookup trace_id_header headers)
  pure (record {
    request_id = request_id;
    trace_id = trace_id;
    correlation_id = or_text (lookup correlation_id_header headers) request_id;
  })

-- The headers that are set on a response.
abbrev pub response_headers : RequestState → Headers
response_headers r =
    (request_id_header, r.request_id)
    ∷ (trace_id_header, r.trace_id)
    ∷ (correlation_id_header, r.correlation_id)
    ∷ []

-- The service beside the context variable of the log.
pub record Application : Type 0 where
  pub service : CheckoutService
  pub log_context : Option LogContext

abbrev pub drawing : {A : Type 0} → Action History A → Action Application A
drawing m e a =
    let s = a.service in
    let (r, h) = m e s.world.history in
    (r, record a { service = record s { world = record s.world { history = h } } })

abbrev pub bound : RequestState → LogContext
bound r = record new_context {
  request_id = some r.request_id;
  correlation_id = some r.correlation_id;
  trace_id = some r.trace_id;
}

-- `finally: reset_log_context(token); clear_log_context()`
abbrev pub unbind : Option LogContext → Application → Application
unbind token a = record a {
  log_context = clear_log_context (reset_log_context token a.log_context);
}

-- The headers are set where the request was answered.
abbrev pub with_headers : {A : Type 0} → RequestState → Result A → Result (A × Headers)
with_headers ids (ok response) = ok (response, response_headers ids)
with_headers ids (err x) = err x

-- The `try` with its `finally`, for a request that the rest of the application handles.
unfoldable pub handle :
    {A : Type 0}
    → RequestState
    → (RequestState → Action Application A)
    → Action Application (A × Headers)
unfolding bind_log_context reset_log_context clear_log_context
handle ids call_next e a =
    let bind = record a { log_context = bind_log_context (bound ids) a.log_context } in
    let (r, a') = call_next ids e bind in (with_headers ids r, unbind a.log_context a')

unfoldable pub dispatch :
    {A : Type 0}
    → Headers
    → (RequestState → Action Application A)
    → Action Application (A × Headers)
unfolding request_state handle
dispatch headers call_next = do ids ← drawing (request_state headers); handle ids call_next
