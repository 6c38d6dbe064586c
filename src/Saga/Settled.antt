-- ===== src/Saga/Settled.antt =====
-- What `_complete_order_after_create_locked` of src/saga/coordinator.py makes of a session whose order
-- was placed.
use ihms_oms.Prelude.{String, ◌≡◌, Bool, true, arith, truthy?, ◌⊎◌}
use ihms_oms.Session.Models.{Uuid, fulfill_pending, CheckoutSession}
use ihms_oms.Gateway.Models.{ObservabilityHeaders, Env}
use ihms_oms.Gateway.Errors.{ok}
use ihms_oms.Effect.{◌>>=◌}
use ihms_oms.Saga.World.{World, external, session_save, idempotency_put, count_metric}
use ihms_oms.Saga.Steps.Settle.{Settled, fulfill_hold_safe-Settled}
use ihms_oms.Saga.Coordinator.Outcomes.{
  ConfirmResult, fulfill_held, hold_text, default_retries, with_order, terminal_of,
  finalize_success, order_pending, order_complete, complete_order_after_create,
  cache_confirm_response,
}

module _ (headers : ObservabilityHeaders) (e : Env) (w : World) (s : CheckoutSession) where
  fulfill_held-Settled :
      (fulfill_held s headers e w).0 ≡ ok true
      → Settled w.ihms (hold_text s.hold_id) headers e (fulfill_held s headers e w).1.history
  unfolding fulfill_held external
  fulfill_held-Settled q =
      fulfill_hold_safe-Settled w.ihms (hold_text s.hold_id) headers e default_retries w.history q

  -- Where the completion of a placed order returns for a session with a hold, the session has that order
  -- and key. If its state is not FULFILL_PENDING, the state is RECONCILED or CONFIRMED, as the order was
  -- found or created, and the last call was the request to fulfil the hold, answered by IHMS with a
  -- success, 404 or 409.
  pub complete_order_after_create-Settled :
      (o : Uuid) (key : String) (reconciled_flag : Bool) (r : ConfirmResult)
      → truthy? s.hold_id ≡ true
      → (complete_order_after_create s o key headers reconciled_flag e w).0 ≡ ok r
      → (r.session ≡ with_order fulfill_pending o key s)
        ⊎ ((r.session ≡ with_order (terminal_of reconciled_flag) o key s)
            × Settled w.ihms
                (hold_text s.hold_id)
                headers
                e
                (complete_order_after_create s o key headers reconciled_flag e w).1.history)
  unfolding complete_order_after_create order_complete order_pending finalize_success ◌>>=◌
      session_save count_metric cache_confirm_response idempotency_put
  complete_order_after_create-Settled o key reconciled_flag r has_hold q =
      ground (arith, fulfill_held-Settled)
