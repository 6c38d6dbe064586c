-- ===== src/Saga/Machine.antt =====
-- What the saga may do to the store: the state machine of docs/WORKFLOWS.md, with the data that each
-- transition writes.
pub mod Saves
pub mod Consistent
pub mod Preserved
pub mod Permanent
pub mod Grows
use ihms_oms.Prelude.{String, ◌≡◌, ◌⊎◌, Bool, true, false, Option, none, some, List, truthy?}
use ihms_oms.Session.Models.{
  Uuid, SessionState, created, held, fulfill_pending, confirmed, abandoned, compensated, reconciled,
  SessionLineItem, CheckoutSession,
}
use ihms_oms.Session.Store
use ihms_oms.Gateway.Models.{HoldResponse}
use ihms_oms.Saga.Idempotency
use ihms_oms.Saga.Idempotency.{IdempotencyRecord}
use ihms_oms.Saga.World.{SagaStore, store_session, store_record}
use ihms_oms.Saga.Coordinator.Outcomes.{with_order, confirm_record}
use ihms_oms.Saga.Coordinator.Hold.{held_session}

-- The session that a store has under an id.
abbrev pub Stored : SagaStore → Uuid → CheckoutSession → Type 0
Stored st session_id s = Store.get session_id st.sessions ≡ some s

-- The cached response that a store has under an id and a key.
abbrev pub Cached : SagaStore → Uuid → String → IdempotencyRecord → Type 0
Cached st session_id key r = Idempotency.get session_id key st.idempotency ≡ some r

-- Where the placing of an order may lead.
abbrev pub order_leads : SessionState → SessionState → Bool
order_leads held fulfill_pending = true
order_leads held confirmed = true
order_leads held reconciled = true
order_leads fulfill_pending confirmed = true
order_leads _ _ = false

-- An order is recorded under one key: the one of an earlier attempt, if there was one.
abbrev pub KeyFree : CheckoutSession → String → Type 0
KeyFree s key = (s.idempotency_key ≡ none) ⊎ (s.idempotency_key ≡ some key)

-- The order that a session waits to finalise is the one that is recorded.
abbrev pub SameOrder : CheckoutSession → Uuid → Type 0
SameOrder s o = (s.state ≡ held) ⊎ (s.order_id ≡ some o)

-- The session with an order, saved and cached.
abbrev pub record_order : SessionState → Uuid → String → CheckoutSession → SagaStore → SagaStore
record_order target o key s st =
    let s' = with_order target o key s in
    store_record s.session_id key (confirm_record s') (store_session s' st)

pub data SagaStep (st : SagaStore) : SagaStore → Type 0 where
  hold_placed :
      (session_id : Uuid) (s : CheckoutSession) (hold : HoldResponse) (customer : String)
      (items : List SessionLineItem)
      → Stored st session_id s
      → s.state ≡ created
      → SagaStep st (store_session (held_session hold customer items s) st)
  key_kept :
      (session_id : Uuid) (s : CheckoutSession) (key : String)
      → Stored st session_id s
      → s.state ≡ held
      → s.idempotency_key ≡ none
      → SagaStep st (store_session (record s { idempotency_key = some key }) st)
  order_recorded :
      (session_id : Uuid) (s : CheckoutSession) (target : SessionState) (o : Uuid) (key : String)
      → Stored st session_id s
      → order_leads s.state target ≡ true
      → (target ≡ fulfill_pending → truthy? s.hold_id ≡ true)
      → KeyFree s key
      → SameOrder s o
      → SagaStep st (record_order target o key s st)
  hold_compensated :
      (session_id : Uuid) (s : CheckoutSession)
      → Stored st session_id s
      → s.state ≡ held
      → s.idempotency_key ≡ none
      → SagaStep st (store_session (record s { state = compensated; idempotency_key = none }) st)
  checkout_abandoned :
      (session_id : Uuid) (s : CheckoutSession)
      → Stored st session_id s
      → (s.state ≡ created) ⊎ (s.state ≡ held)
      → SagaStep st (store_session (record s { state = abandoned }) st)

pub data SagaSteps (st : SagaStore) : SagaStore → Type 0 where
  here : SagaSteps st st
  step : {a b : SagaStore} → SagaSteps st a → SagaStep a b → SagaSteps st b

pub SagaSteps-trans : {a b c : SagaStore} → SagaSteps a b → SagaSteps b c → SagaSteps a c
SagaSteps-trans p here = p
SagaSteps-trans p (step q s) = step (SagaSteps-trans p q) s

pub one_step : {a b : SagaStore} → SagaStep a b → SagaSteps a b
one_step s = step here s
