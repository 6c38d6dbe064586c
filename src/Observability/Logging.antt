-- ===== src/Observability/Logging.antt =====
-- src/observability/logging.py: the fields that the log context adds to a line.
use ihms_oms.Prelude.{String, Option, none, some, [], ◌∷◌, Dict, truthy, if◌then◌else◌, ◌≡◌, refl}
use ihms_oms.Observability.Context.{LogContext, new_context}

-- `if value`
pub present : Dict String (Option String) → Dict String String
present [] = []
present ((key, none) ∷ d) = present d
present ((key, some value) ∷ d) =
    let rest = present d in if truthy value then (key, value) ∷ rest else rest

pub context_fields : LogContext → Dict String String
unfolding present
context_fields context = present (
    ("request_id", context.request_id)
    ∷ ("correlation_id", context.correlation_id)
    ∷ ("trace_id", context.trace_id)
    ∷ ("session_id", context.session_id)
    ∷ ("hold_id", context.hold_id)
    ∷ ("order_id", context.order_id)
    ∷ [])

context_fields_runs :
    context_fields (record new_context { request_id = some "r1"; trace_id = some "" })
    ≡ ("request_id", "r1") ∷ []
unfolding context_fields
context_fields_runs = refl
