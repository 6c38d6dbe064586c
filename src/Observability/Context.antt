-- ===== src/Observability/Context.antt =====
-- src/observability/context.py: the fields that every log line of a request carries. A token is the
-- value that the context variable had.
use ihms_oms.Prelude.{String, Option, none, some}

pub record LogContext : Type 0 where
  pub request_id : Option String
  pub correlation_id : Option String
  pub trace_id : Option String
  pub session_id : Option String
  pub hold_id : Option String
  pub order_id : Option String

abbrev pub new_context : LogContext
new_context = record {
  request_id = none;
  correlation_id = none;
  trace_id = none;
  session_id = none;
  hold_id = none;
  order_id = none;
}

-- `_log_context.get() or LogContext()`
abbrev current_or_new : Option LogContext → LogContext
current_or_new none = new_context
current_or_new (some c) = c

-- `if value is not None: updates[key] = value`
abbrev pub set_or_keep : Option String → Option String → Option String
set_or_keep none old = old
set_or_keep (some v) old = some v

-- `bind_log_context`, where the keyword arguments are a context with `None` for what is not given.
unfoldable pub bind_log_context : LogContext → Option LogContext → Option LogContext
bind_log_context new context =
    let old = current_or_new context in
    some (record {
      request_id = set_or_keep new.request_id old.request_id;
      correlation_id = set_or_keep new.correlation_id old.correlation_id;
      trace_id = set_or_keep new.trace_id old.trace_id;
      session_id = set_or_keep new.session_id old.session_id;
      hold_id = set_or_keep new.hold_id old.hold_id;
      order_id = set_or_keep new.order_id old.order_id;
    })

unfoldable pub reset_log_context : Option LogContext → Option LogContext → Option LogContext
reset_log_context token context = token

unfoldable pub clear_log_context : Option LogContext → Option LogContext
clear_log_context context = none
