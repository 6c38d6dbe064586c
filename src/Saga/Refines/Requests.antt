-- ===== src/Saga/Refines/Requests.antt =====
-- Sequences of requests: each method of the coordinator is one action, as its lock makes it for the
-- requests of one session.
use ihms_oms.Prelude.{ℕ, String, Option, List, [], ◌∷◌}
use ihms_oms.Session.Models.{Uuid, CheckoutSession}
use ihms_oms.Gateway.Models.{ObservabilityHeaders, Env}
use ihms_oms.Gateway.Errors.{Result, ok, err}
use ihms_oms.Saga.World.{SagaStore, World}
use ihms_oms.Saga.Coordinator.Outcomes.{ConfirmResult}
use ihms_oms.Saga.Coordinator.Hold.{place_hold}
use ihms_oms.Saga.Coordinator.Confirm.{confirm, abandon}
use ihms_oms.Saga.Coordinator.PlaceOrder.{place_order}
use ihms_oms.Saga.Machine.{Stored, SagaSteps, SagaSteps-trans, here}
use ihms_oms.Saga.Machine.Consistent.{IsConsistent}
use ihms_oms.Saga.Machine.Preserved.{SagaSteps-IsConsistent}
use ihms_oms.Saga.Machine.Permanent.{Endures, SagaSteps-Endures}
use ihms_oms.Saga.Refines.Orders.{Ends}
use ihms_oms.Saga.Refines.Confirm.{confirm-Leads}
use ihms_oms.Saga.Refines.Methods.{
  Returns-SagaSteps, place_hold-Leads, abandon-Leads, place_order-Leads,
}

pub data Request : Type 0 where
  hold_request : Uuid → List (String × ℕ) → String → ObservabilityHeaders → Request
  confirm_request : Uuid → Option String → String → ObservabilityHeaders → Request
  order_request : Uuid → List (String × ℕ) → String → String → ObservabilityHeaders → Request
  abandon_request : Uuid → ObservabilityHeaders → Request

-- The world after a request, whether it was answered or raised.
unfoldable pub perform : Request → Env → World → World
perform (hold_request i items customer headers) e w = (place_hold i items customer headers e w).1
perform (confirm_request i customer key headers) e w = (confirm i customer key headers e w).1
perform (order_request i items customer key headers) e w =
    (place_order i items customer key headers e w).1
perform (abandon_request i headers) e w = (abandon i headers e w).1

unfoldable pub serve : List Request → Env → World → World
serve [] e w = w
serve (r ∷ rs) e w = serve rs e (perform r e w)

pub Ends-SagaSteps :
    (st : SagaStore) (i : Uuid) (r : Result ConfirmResult) (st' : SagaStore)
    → Ends st i r st'
    → SagaSteps st st'
Ends-SagaSteps st i (ok a) st' h = h.0
Ends-SagaSteps st i (err x) st' h = h

pub perform-SagaSteps :
    (r : Request) (e : Env) (w : World)
    → IsConsistent w.store
    → SagaSteps w.store (perform r e w).store
unfolding perform
perform-SagaSteps (hold_request i items customer headers) e w good =
    Returns-SagaSteps w.store i _ _ _
      ((place_hold-Leads w.store good i items customer headers).at e w)
perform-SagaSteps (confirm_request i customer key headers) e w good =
    Ends-SagaSteps w.store i _ _ ((confirm-Leads w.store good i customer key headers).at e w)
perform-SagaSteps (order_request i items customer key headers) e w good =
    Ends-SagaSteps w.store i _ _
      ((place_order-Leads w.store good i items customer key headers).at e w)
perform-SagaSteps (abandon_request i headers) e w good =
    Returns-SagaSteps w.store i _ _ _ ((abandon-Leads w.store good i headers).at e w)

serve-SagaSteps :
    (rs : List Request) (e : Env) (w : World)
    → IsConsistent w.store
    → SagaSteps w.store (serve rs e w).store
unfolding serve
serve-SagaSteps [] e w good = here
serve-SagaSteps (r ∷ rs) e w good =
    let first = perform-SagaSteps r e w good in
    SagaSteps-trans first (serve-SagaSteps rs e (perform r e w) (SagaSteps-IsConsistent good first))

-- From a consistent store, after any requests and whatever the upstream services answer, the store
-- is consistent: sessions stand under their ids, their fields fit their state, and exactly the
-- sessions with an order have a cached response, which says what the session holds.
pub serve-IsConsistent :
    (rs : List Request) (e : Env) (w : World)
    → IsConsistent w.store
    → IsConsistent (serve rs e w).store
serve-IsConsistent rs e w good = SagaSteps-IsConsistent good (serve-SagaSteps rs e w good)

-- From a consistent store, after any requests and whatever the upstream services answer, a stored
-- session is still stored and has moved along the documented arrows; if it had an order, it has the
-- same order under the same key; if it was terminal, it is as it was.
pub serve-Endures :
    (rs : List Request) (e : Env) (w : World)
    → IsConsistent w.store
    → (j : Uuid) (t : CheckoutSession) → Stored w.store j t
    → (t' : CheckoutSession) × Stored (serve rs e w).store j t' × Endures t t'
serve-Endures rs e w good j t h = (SagaSteps-Endures good (serve-SagaSteps rs e w good) j t h).1
