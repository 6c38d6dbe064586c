-- ===== src/Saga/World.antt =====
-- The objects that a `SagaCoordinator` holds (src/saga/coordinator.py), as one state, and the
-- actions on it that its methods are made of.
use ihms_oms.Prelude.{String, Option}
use ihms_oms.Session.Models.{Uuid, CheckoutSession}
use ihms_oms.Session.Store
use ihms_oms.Session.Store.{Sessions}
use ihms_oms.Gateway.Models.{History}
use ihms_oms.Gateway.Errors.{session_not_found, saga, ok}
use ihms_oms.Gateway.Ihms.{IhmsClient}
use ihms_oms.Gateway.Ecops.{EcOpsClient}
use ihms_oms.Observability.Metrics.{MetricsRegistry}
use ihms_oms.Catalog.Live.{CatalogProvider}
use ihms_oms.Effect.{Action, gets, modify, or_raise, ◌>>=◌}
use ihms_oms.Saga.Idempotency
use ihms_oms.Saga.Idempotency.{IdempotencyRecord, Records}

-- What survives from one request to the next, as far as sessions go.
pub record SagaStore : Type 0 where
  pub sessions : Sessions
  pub idempotency : Records

pub record World : Type 0 where
  pub store : SagaStore
  pub catalog : CatalogProvider
  pub metrics : MetricsRegistry
  pub history : History
  pub ihms : IhmsClient
  pub ecops : EcOpsClient

abbrev pub M : Type 0 → Type 0
M A = Action World A

-- A step that only talks to the outside.
unfoldable pub external : {A : Type 0} → (World → Action History A) → M A
external m e w = let (r, h) = m w e w.history in (r, record w { history = h })

-- `self.sessions.get`
unfoldable pub session_get : Uuid → M (Option CheckoutSession)
unfolding gets
session_get session_id = gets (λ w. Store.get session_id w.store.sessions)

-- `session = self.sessions.get(session_id)`, and the raise if there is none.
unfoldable pub require_session : Uuid → M CheckoutSession
unfolding session_get ◌>>=◌
require_session session_id = do
  found ← session_get session_id
  or_raise found (saga session_not_found)

abbrev pub store_session : CheckoutSession → SagaStore → SagaStore
store_session s st = record st { sessions = Store.save s st.sessions }

-- `self.sessions.save`, which returns what it saved.
unfoldable pub session_save : CheckoutSession → M CheckoutSession
session_save s e w = (ok s, record w { store = store_session s w.store })

-- `self.idempotency.get`
unfoldable pub idempotency_get : Uuid → String → M (Option IdempotencyRecord)
unfolding gets
idempotency_get session_id key = gets (λ w. Idempotency.get session_id key w.store.idempotency)

abbrev pub store_record : Uuid → String → IdempotencyRecord → SagaStore → SagaStore
store_record session_id key r st = record st {
  idempotency = Idempotency.put session_id key r st.idempotency;
}

-- `self.idempotency.put`
unfoldable pub idempotency_put : Uuid → String → IdempotencyRecord → M (Unit {0})
unfolding modify
idempotency_put session_id key r =
    modify (λ w. record w { store = store_record session_id key r w.store })

unfoldable pub count_metric : (MetricsRegistry → MetricsRegistry) → M (Unit {0})
unfolding modify
count_metric f = modify (λ w. record w { metrics = f w.metrics })
