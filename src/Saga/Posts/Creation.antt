-- ===== src/Saga/Posts/Creation.antt =====
-- The order attempt of src/saga/coordinator.py posts at most one order.
use ihms_oms.Prelude.{String, Option, none, some, ℕ, true}
use ihms_oms.Gateway.Models.{ObservabilityHeaders, OrderCreate, OrderResponse, post_order}
use ihms_oms.Gateway.Errors.{
  gateway_error, gateway_timeout, upstream_error, Error, gateway, saga, validation_failure,
}
use ihms_oms.Gateway.Http.{request}
use ihms_oms.Gateway.Ecops.{EcOpsClient, create_order, auth_headers, with_key}
use ihms_oms.Effect.{pure}
use ihms_oms.Effect.Counting.{
  Quiet, Once, Quiet-Once, Quiet-if, Quiet-bind, Quiet-catch, Quiet-pure, Quiet-raise,
  Quiet-lift_result, Once-bind_first, Once-bind_last, Once-catch, Once-send,
}
use ihms_oms.Saga.Steps.Posts.{find_order_by_reference-Quiet}
use ihms_oms.Saga.Posts.{is_post_order, posts}
use ihms_oms.Saga.Coordinator.Outcomes.{default_retries}
use ihms_oms.Saga.Coordinator.Creation.{
  found_or, lookup_unknown, creation_failed, create_order_with_retry, find_or_create,
}

found_or-Quiet : (x : Error) (o : Option OrderResponse) → Quiet posts (found_or x o)
found_or-Quiet x none = Quiet-raise _
found_or-Quiet x (some o) = Quiet-pure _

pub lookup_unknown-Quiet :
    {S A : Type 0} {f : S → ℕ} (x : Error) → Quiet f (lookup_unknown {S = S} {A = A} x)
lookup_unknown-Quiet (gateway _) = Quiet-raise _
lookup_unknown-Quiet (saga _) = Quiet-raise _
lookup_unknown-Quiet validation_failure = Quiet-raise _

module _ (ecops : EcOpsClient) (ref : String) (headers : ObservabilityHeaders) where
  creation_failed-Quiet : (x : Error) → Quiet posts (creation_failed ecops ref headers x)
  unfolding creation_failed
  creation_failed-Quiet (gateway (upstream_error k p)) =
      Quiet-if _ _ _
        (Quiet-bind _ _ (find_order_by_reference-Quiet ecops ref headers default_retries)
          (found_or-Quiet _))
        (Quiet-raise _)
  creation_failed-Quiet (gateway (gateway_timeout t)) =
      Quiet-bind _ _
        (Quiet-catch _ _ (find_order_by_reference-Quiet ecops ref headers default_retries)
          lookup_unknown-Quiet)
        (found_or-Quiet _)
  creation_failed-Quiet (gateway (gateway_error t)) = Quiet-raise _
  creation_failed-Quiet (saga x) = Quiet-raise _
  creation_failed-Quiet validation_failure = Quiet-raise _

  create_order-Once :
      (payload : OrderCreate) (key : Option String)
      → Once posts (create_order ecops payload headers key)
  unfolding create_order request
  create_order-Once payload key =
      Once-bind_first _ _
        (Once-bind_first _ _
          (Once-send is_post_order (post_order payload (with_key key (auth_headers ecops headers))))
          (λ reply. Quiet-lift_result _))
        (λ r. Quiet-bind _ _ (Quiet-lift_result _) (λ _. Quiet-lift_result _))

  create_order_with_retry-Once :
      (payload : OrderCreate) (key : String)
      → Once posts (create_order_with_retry ecops ref headers payload key)
  unfolding create_order_with_retry
  create_order_with_retry-Once payload key =
      Once-catch _ _
        (Once-bind_first _ _ (create_order-Once payload (some key)) (λ o. Quiet-pure _))
        creation_failed-Quiet

  existing-Once :
      (payload : OrderCreate) (key : String) (existing : Option OrderResponse)
      → Once posts (elim existing [
        | some o ↦ pure (o, true)
        | none ↦ create_order_with_retry ecops ref headers payload key
      ])
  existing-Once payload key none = create_order_with_retry-Once payload key
  existing-Once payload key (some o) = Quiet-Once _ (Quiet-pure _)

  pub find_or_create-Once :
      (payload : OrderCreate) (key : String)
      → Once posts (find_or_create ecops ref headers payload key)
  unfolding find_or_create
  find_or_create-Once payload key =
      Once-bind_last _ _ (find_order_by_reference-Quiet ecops ref headers 0)
        (λ existing. existing-Once payload key existing)
