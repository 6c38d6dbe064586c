-- ===== src/Saga/Refines/Outcomes.antt =====
-- How each request of src/saga/coordinator.py ends, as the state machine of the saga sees it.
use ihms_oms.Prelude.{ℕ, String, Option, List}
use ihms_oms.Session.Models.{Uuid, held, abandoned}
use ihms_oms.Gateway.Models.{ObservabilityHeaders, Env}
use ihms_oms.Saga.World.{World}
use ihms_oms.Saga.Coordinator.Hold.{place_hold}
use ihms_oms.Saga.Coordinator.Confirm.{confirm, abandon}
use ihms_oms.Saga.Coordinator.PlaceOrder.{place_order}
use ihms_oms.Saga.Machine.Consistent.{IsConsistent}
use ihms_oms.Saga.Refines.Orders.{Ends}
use ihms_oms.Saga.Refines.Confirm.{confirm-Leads}
use ihms_oms.Saga.Refines.Methods.{Returns, place_hold-Leads, abandon-Leads, place_order-Leads}

module _ (e : Env) (w : World) (good : IsConsistent w.store) (i : Uuid)
    (headers : ObservabilityHeaders) where
  -- From a consistent store, whatever the upstream services answer, `confirm` changes the store by
  -- steps of the saga's state machine only, also where it raises; where it returns, what it returns
  -- is the session as it is stored then, and that session has an order.
  pub confirm-Ends :
      (customer_name : Option String) (key : String)
      → let (a, w') = confirm i customer_name key headers e w in Ends w.store i a w'.store
  confirm-Ends customer_name key = (confirm-Leads w.store good i customer_name key headers).at e w

  -- From a consistent store, whatever the upstream services answer, `place_order` changes the store by
  -- steps of the saga's state machine only, also where it raises; where it returns, what it returns
  -- is the session as it is stored then, and that session has an order.
  pub place_order-Ends :
      (items : List (String × ℕ)) (customer_name key : String)
      → let (a, w') = place_order i items customer_name key headers e w in Ends w.store i a w'.store
  place_order-Ends items customer_name key =
      (place_order-Leads w.store good i items customer_name key headers).at e w

  -- From a consistent store, whatever the upstream services answer, `place_hold` changes the store by
  -- steps of the saga's state machine only, also where it raises; where it returns, what it returns
  -- is the session as it is stored then, and that session is held.
  pub place_hold-Returns :
      (items : List (String × ℕ)) (customer_name : String)
      → let (a, w') = place_hold i items customer_name headers e w in
        Returns w.store i held a w'.store
  place_hold-Returns items customer_name =
      (place_hold-Leads w.store good i items customer_name headers).at e w

  -- From a consistent store, whatever the upstream services answer, `abandon` changes the store by
  -- steps of the saga's state machine only, also where it raises; where it returns, what it returns
  -- is the session as it is stored then, and that session is abandoned.
  pub abandon-Returns :
      let (a, w') = abandon i headers e w in Returns w.store i abandoned a w'.store
  abandon-Returns = (abandon-Leads w.store good i headers).at e w
