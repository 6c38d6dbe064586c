-- ===== src/Api/Traced.antt =====
-- What the middleware of src/api/middleware.py leaves on a response, in the context of the log and for
-- the rest of the application.
use ihms_oms.Prelude.{
  String, ◌≡◌, refl, Bool, true, false, Option, none, some, ◌∷◌, lookup, string_eq, truthy,
  uuid_text,
}
use ihms_oms.Gateway.Models.{
  Env, Headers, History, draw_uuid, request_id_header, correlation_id_header, trace_id_header,
}
use ihms_oms.Gateway.Errors.{Result, ok, err}
use ihms_oms.Effect.{Action, pure, uuid4, ◌>>=◌}
use ihms_oms.Observability.Context.{
  LogContext, bind_log_context, reset_log_context, clear_log_context,
}
use ihms_oms.Api.Middleware.{
  RequestState, or_drawn, or_text, with_headers, request_state, Application, handle, dispatch,
}

-- An id is the value of a header that has one; else it is drawn, and the draw is recorded.
abbrev pub ChosenIf : Bool → String → Env → History → String → History → Type 0
ChosenIf true v e h id h' = (id ≡ v) × (h' ≡ h)
ChosenIf false v e h id h' = (id ≡ uuid_text (e.uuid4 h)) × (h' ≡ draw_uuid ∷ h)

abbrev pub Chosen : Option String → Env → History → String → History → Type 0
Chosen none e h id h' = (id ≡ uuid_text (e.uuid4 h)) × (h' ≡ draw_uuid ∷ h)
Chosen (some v) e h id h' = ChosenIf (truthy v) v e h id h'

-- The correlation id is the value of a header that has one, else the request id.
abbrev pub CorrelatedIf : Bool → String → String → String → Type 0
CorrelatedIf true v request_id id = id ≡ v
CorrelatedIf false v request_id id = id ≡ request_id

abbrev pub Correlated : Option String → String → String → Type 0
Correlated none request_id id = id ≡ request_id
Correlated (some v) request_id id = CorrelatedIf (truthy v) v request_id id

-- The ids of a request, drawn one after the other where they are drawn.
pub record Identifies (headers : Headers) (e : Env) (before after : History) (ids : RequestState)
    : Type 0 where
  pub between : History
  pub request : Chosen (lookup "X-Request-ID" headers) e before ids.request_id between
  pub trace : Chosen (lookup "X-Trace-ID" headers) e between ids.trace_id after
  pub correlation : Correlated (lookup "X-Correlation-ID" headers) ids.request_id ids.correlation_id

or_drawn-given :
    (v : String) (b : Bool)
    → truthy v ≡ b
    → (e : Env) (h : History)
    → (id : String) × (h' : History) × (or_drawn (some v) e h ≡ (ok id, h'))
      × Chosen (some v) e h id h'
unfolding pure uuid4 ◌>>=◌
or_drawn-given v true given e h = rw given (v, h, refl, (refl, refl))
or_drawn-given v false absent e h = rw absent (_, _, refl, (refl, refl))

or_drawn-Chosen :
    (o : Option String) (e : Env) (h : History)
    → (id : String) × (h' : History) × (or_drawn o e h ≡ (ok id, h')) × Chosen o e h id h'
unfolding pure uuid4 ◌>>=◌
or_drawn-Chosen none e h = (_, _, refl, (refl, refl))
or_drawn-Chosen (some v) e h = or_drawn-given v (truthy v) refl e h

or_text-given :
    (v t : String) (b : Bool) → truthy v ≡ b → Correlated (some v) t (or_text (some v) t)
or_text-given v t true given = rw given refl
or_text-given v t false absent = rw absent refl

or_text-Correlated : (o : Option String) (t : String) → Correlated o t (or_text o t)
or_text-Correlated none t = refl
or_text-Correlated (some v) t = or_text-given v t (truthy v) refl

request_state-Identifies :
    (headers : Headers) (e : Env) (h : History)
    → (ids : RequestState) × (h' : History) × (request_state headers e h ≡ (ok ids, h'))
      × Identifies headers e h h' ids
unfolding request_state pure ◌>>=◌
request_state-Identifies headers e h =
    let (r, h1, drawn_r, chosen_r) = or_drawn-Chosen (lookup request_id_header headers) e h in
    let (t, h2, drawn_t, chosen_t) = or_drawn-Chosen (lookup trace_id_header headers) e h1 in
    (
      record {
        request_id = r;
        trace_id = t;
        correlation_id = or_text (lookup correlation_id_header headers) r;
      },
      h2,
      rw drawn_r (rw drawn_t refl),
      record {
        between = h1;
        request = chosen_r;
        trace = chosen_t;
        correlation = or_text-Correlated (lookup correlation_id_header headers) r;
      },
    )

-- A field of the log context that a request finds.
abbrev pub field_of : (LogContext → Option String) → Option LogContext → Option String
field_of field none = none
field_of field (some c) = field c

-- The application as the rest of it sees the request: the ids are in the log context, whose other fields
-- are as they were.
abbrev pub handed : RequestState → History → Application → Application
handed ids h a = record {
  service = record a.service { world = record a.service.world { history = h } };
  log_context = some (record {
    request_id = some ids.request_id;
    correlation_id = some ids.correlation_id;
    trace_id = some ids.trace_id;
    session_id = field_of (λ c. c.session_id) a.log_context;
    hold_id = field_of (λ c. c.hold_id) a.log_context;
    order_id = field_of (λ c. c.order_id) a.log_context;
  });
}

-- The response is the one of the rest of the application, with the three ids on it; what that raises is
-- raised again.
abbrev pub WithIds : {A : Type 0} → RequestState → Result A → Result (A × Headers) → Type 0
WithIds ids (ok response) (ok (answered, out)) =
    (answered ≡ response)
    × (lookup "X-Request-ID" out ≡ some ids.request_id)
    × (lookup "X-Trace-ID" out ≡ some ids.trace_id)
    × (lookup "X-Correlation-ID" out ≡ some ids.correlation_id)
WithIds ids (ok response) (err x) = ⊥
WithIds ids (err x) (ok answer) = ⊥
WithIds ids (err x) (err raised) = raised ≡ x

with_headers-WithIds :
    {A : Type 0} (ids : RequestState) (r : Result A) → WithIds ids r (with_headers ids r)
unfolding lookup
with_headers-WithIds ids (ok response) = (refl, refl, refl, refl)
with_headers-WithIds ids (err x) = refl

module _ {A : Type 0} (headers : Headers) (call_next : RequestState → Action Application A)
    (e : Env) where
  -- How a request ends that a state of the application meets.
  pub record Traced (a : Application) (p : Result (A × Headers) × Application) : Type 0 where
    pub ids : RequestState
    pub after : History
    pub identified : Identifies headers e a.service.world.history after ids
    pub answered : WithIds ids (call_next ids e (handed ids after a)).0 p.0
    pub served : p.1.service ≡ (call_next ids e (handed ids after a)).1.service
    pub cleared : p.1.log_context ≡ none

  bind_log_context-handed :
      (ids : RequestState) (h : History) (a : Application) (o : Option LogContext)
      → a.log_context ≡ o
      → bind_log_context
          (record {
            request_id = some ids.request_id;
            correlation_id = some ids.correlation_id;
            trace_id = some ids.trace_id;
            session_id = none;
            hold_id = none;
            order_id = none;
          })
          a.log_context
        ≡ (handed ids h a).log_context
  unfolding bind_log_context
  bind_log_context-handed ids h a none q = rw q refl
  bind_log_context-handed ids h a (some c) q = rw q refl

  -- However a request ends, the rest of the application handled it under three ids, with these in the
  -- log context beside the fields that it had: the ids of the X-Request-ID and X-Trace-ID headers where
  -- these are given and not empty and else ids drawn one after the other, and the one of the
  -- X-Correlation-ID header or else the request id. A response is the one of that handling, with the
  -- three ids under these headers; an exception is raised again. The service is left as the handling
  -- left it, and the log context is cleared.
  pub dispatch-Traced : (a : Application) → Traced a (dispatch headers call_next e a)
  unfolding dispatch handle reset_log_context clear_log_context ◌>>=◌
  dispatch-Traced a =
      let (ids, h, drawn, identified) =
        request_state-Identifies headers e a.service.world.history in
      rw (drawn, dispatch)
        (rw (bind_log_context-handed ids h a a.log_context refl) (record {
          ids = ids;
          after = h;
          identified = identified;
          answered = with_headers-WithIds ids (call_next ids e (handed ids h a)).0;
          served = refl;
          cleared = refl;
        }))
