-- ===== src/Saga/Refines/Methods.antt =====
-- `place_hold`, `abandon` and `place_order` follow the state machine.
use mathlib.Core.Path.{subst₂}
use ihms_oms.Prelude.{
  ℕ, String, ◌≡◌, refl, sym, subst, true, false, not, ◌&&◌, ◌⊎◌, Option, none, some, List, arith,
  truthy?,
}
use ihms_oms.Session.Models.{
  Uuid, SessionState, created, held, abandoned, CheckoutSession, SessionLineItem, is_created,
  is_held as is_held_state, is_fulfill_pending, terminal_state,
}
use ihms_oms.Gateway.Models.{ObservabilityHeaders}
use ihms_oms.Gateway.Errors.{upstream_error, Error, gateway, Result, ok, err}
use ihms_oms.Effect.{pure, ◌>>=◌, catch}
use ihms_oms.Saga.Idempotency
use ihms_oms.Saga.Idempotency.{IdempotencyRecord}
use ihms_oms.Saga.World.{SagaStore, store_session, external}
use ihms_oms.Saga.Coordinator.Outcomes.{ConfirmResult, release_held}
use ihms_oms.Saga.Coordinator.Hold.{
  assert_sufficient_stock, hold_rejected, held_session, place_hold_locked, prepare_hold, place_hold,
}
use ihms_oms.Saga.Coordinator.Confirm.{release_if_held, abandon}
use ihms_oms.Saga.Coordinator.PlaceOrder.{
  order_takes_over, place_order_cached, resolved_customer, order_held, place_order_uncached,
  place_order_with, place_order,
}
use ihms_oms.Saga.Leads.{
  Leads, Leads-pure, Leads-raise, Leads-external, Leads-if, Leads-weaken, Leads-bind, Leads-then,
  Leads-lift_result, Leads-raise_if, Leads-require, Leads-cached, Leads-gets, Leads-save,
  Leads-count, Leads-catch,
}
use ihms_oms.Saga.Machine.{
  Stored, Cached, SagaSteps, SagaSteps-trans, here, one_step, hold_placed, checkout_abandoned,
}
use ihms_oms.Saga.Machine.Consistent.{IsConsistent, order_of_record}
use ihms_oms.Saga.Machine.Saves.{Stored-save_self}
use ihms_oms.Saga.Machine.Preserved.{SagaSteps-IsConsistent}
use ihms_oms.Saga.Refines.Orders.{Ends}
use ihms_oms.Saga.Refines.Confirm.{Unchanged, apply_cached-same, confirm-Leads}

-- How a method that returns a session may end: what it returns is stored, in the state `target`.
abbrev pub Returns : SagaStore → Uuid → SessionState → Result CheckoutSession → SagaStore → Type 0
Returns st i target (ok s) st' = SagaSteps st st' × Stored st' i s × (s.state ≡ target)
Returns st i target (err x) st' = SagaSteps st st'

assert_sufficient_stock-Unchanged :
    (st : SagaStore) (items : List SessionLineItem) (headers : ObservabilityHeaders)
    → Leads st (assert_sufficient_stock items headers) (Unchanged st)
unfolding assert_sufficient_stock ◌>>=◌ external catch
assert_sufficient_stock-Unchanged st items headers = record { at = λ e w. ground arith }

hold_rejected-Unchanged : (st : SagaStore) (x : Error) → Leads st (hold_rejected x) (Unchanged st)
unfolding hold_rejected
hold_rejected-Unchanged st (gateway (upstream_error k p)) = Leads-count _ _ (Leads-raise _ refl)
hold_rejected-Unchanged st x = Leads-raise _ refl

release_if_held-Unchanged :
    (st : SagaStore) (s : CheckoutSession) (headers : ObservabilityHeaders)
    → Leads st (release_if_held s headers) (Unchanged st)
unfolding release_held
release_if_held-Unchanged st s headers =
    Leads-if (is_held_state s.state && truthy? s.hold_id) _ _ (λ _. Leads-external _ (λ r. refl))
      (λ _. Leads-pure _ refl)

created-eq : (s : CheckoutSession) → not (is_created s.state) ≡ false → s.state ≡ created
created-eq s h = ground arith

-- From a consistent store, the part of `place_hold` under the lock takes a created session to held,
-- or leaves the store as it was.
pub place_hold_locked-Leads :
    (st : SagaStore)
    → IsConsistent st
    → (i : Uuid) (items : List SessionLineItem) (customer_name : String)
      (headers : ObservabilityHeaders)
    → Leads st (place_hold_locked i items customer_name headers) (Returns st i held)
unfolding place_hold_locked
place_hold_locked-Leads st good i items customer_name headers = Leads-require _ _ here (λ s stored.
    Leads-raise_if _ _ _ (λ _. here)
      (λ is_new.
        Leads-then _ _ (assert_sufficient_stock-Unchanged st items headers)
          (λ _.
            Leads-then _ _
              (Leads-catch (Unchanged st) _ _ (Leads-external _ (λ r. refl)) (λ a st' same. same)
                (λ x st' same. rw same (hold_rejected-Unchanged st x)))
              (λ hold. Leads-save _ _ (
                Leads-count _ _ (
                  Leads-pure _ (
                    one_step
                        (hold_placed i s hold customer_name items stored (created-eq s is_new)),
                    subst
                        (λ k.
                          Stored (store_session (held_session hold customer_name items s) st) k
                            (held_session hold customer_name items s))
                        (good.keyed i s stored)
                        (Stored-save_self st (held_session hold customer_name items s)),
                    refl,
                  ))))
              (λ x. here))
          (λ x. here)))

pub prepare_hold-Unchanged :
    (st : SagaStore) (i : Uuid) (items : List (String × ℕ))
    → Leads st (prepare_hold i items) (Unchanged st)
unfolding prepare_hold
prepare_hold-Unchanged st i items =
    Leads-raise_if _ _ _ (λ _. refl)
      (λ _. Leads-gets _ _ (λ catalog.
        Leads-lift_result _ _
          (λ lines _.
            Leads-require _ _ refl
              (λ s stored. Leads-raise_if _ _ _ (λ _. refl) (λ _. Leads-pure _ refl)))
          (λ x. refl)))

pub place_hold-Leads :
    (st : SagaStore)
    → IsConsistent st
    → (i : Uuid) (items : List (String × ℕ)) (customer_name : String)
      (headers : ObservabilityHeaders)
    → Leads st (place_hold i items customer_name headers) (Returns st i held)
unfolding place_hold
place_hold-Leads st good i items customer_name headers =
    Leads-then _ _ (prepare_hold-Unchanged st i items)
      (λ lines. place_hold_locked-Leads st good i lines customer_name headers) (λ x. here)

abandons :
    (s : CheckoutSession)
    → terminal_state s.state ≡ false
    → is_fulfill_pending s.state ≡ false
    → (s.state ≡ created) ⊎ (s.state ≡ held)
abandons s t p = ground arith

-- From a consistent store, `abandon` takes a created or held session to abandoned, or leaves the
-- store as it was.
pub abandon-Leads :
    (st : SagaStore)
    → IsConsistent st
    → (i : Uuid) (headers : ObservabilityHeaders)
    → Leads st (abandon i headers) (Returns st i abandoned)
unfolding abandon
abandon-Leads st good i headers = Leads-require _ _ here (λ s stored.
    Leads-raise_if _ _ _ (λ _. here)
      (λ not_terminal.
        Leads-raise_if _ _ _ (λ _. here)
          (λ not_pending.
            Leads-then _ _ (release_if_held-Unchanged st s headers)
              (λ released.
                Leads-raise_if _ _ _ (λ _. here)
                  (λ _. Leads-save _ _ (
                    Leads-count _ _ (
                      Leads-pure _ (
                        one_step
                            (checkout_abandoned i s stored (abandons s not_terminal not_pending)),
                        subst
                            (λ k.
                              Stored (store_session (record s { state = abandoned }) st) k
                                (record s { state = abandoned }))
                            (good.keyed i s stored)
                            (Stored-save_self st (record s { state = abandoned })),
                        refl,
                      )))))
              (λ x. here))))

module _ {st : SagaStore} (good : IsConsistent st) (i : Uuid) (key : String)
    (headers : ObservabilityHeaders) where
  pub place_order_cached-Ends :
      (r : IdempotencyRecord) → Cached st i key r → Leads st (place_order_cached i r) (Ends st i)
  unfolding place_order_cached
  place_order_cached-Ends r cached = Leads-require _ _ here (λ s stored.
      Leads-bind (λ a st'. (a ≡ ok s) × (st' ≡ st)) _ _
        (apply_cached-same good i s stored order_takes_over key r cached)
        (λ a st' (e, same).
          subst₂ (λ t a'. Leads t (pure (record { session = a'; from_cache = true })) (Ends st i))
            (sym same) (sym (cc e))
            (Leads-pure _ (here, stored, (order_of_record good i s key r stored cached).1.placed)))
        (λ x st' (_, same). rw same here))

  order_held-Ends : (customer : String) → Leads st (order_held i customer key headers) (Ends st i)
  unfolding order_held
  order_held-Ends customer = Leads-require _ _ here (λ s stored.
      Leads-raise_if _ _ _ (λ _. here) (λ _. confirm-Leads st good i (some customer) key headers))

Ends-after :
    {st a : SagaStore} (i : Uuid) (p : SagaSteps st a) (r : Result ConfirmResult) (b : SagaStore)
    → Ends a i r b
    → Ends st i r b
Ends-after i p (ok r) b (q, stored, placed) = (SagaSteps-trans p q, stored, placed)
Ends-after i p (err x) b q = SagaSteps-trans p q

pub Returns-SagaSteps :
    (st : SagaStore) (i : Uuid) (target : SessionState) (r : Result CheckoutSession)
    (st' : SagaStore)
    → Returns st i target r st'
    → SagaSteps st st'
Returns-SagaSteps st i target (ok s) st' h = h.0
Returns-SagaSteps st i target (err x) st' h = h

place_order_with-Ends :
    {st : SagaStore} (good : IsConsistent st) (i : Uuid) (items : List (String × ℕ))
    (customer_name key : String) (headers : ObservabilityHeaders) (o : Option IdempotencyRecord)
    → Idempotency.get i key st.idempotency ≡ o
    → Leads st (place_order_with o i items customer_name key headers) (Ends st i)
unfolding place_order_uncached
place_order_with-Ends good i items customer_name key headers (some r) e =
    place_order_cached-Ends good i key headers r e
place_order_with-Ends {st} good i items customer_name key headers none e =
    Leads-require _ _ here (λ s stored.
      Leads-raise_if _ _ _ (λ _. here)
        (λ _.
          Leads-bind (λ r st'. SagaSteps st st') _ _
            (Leads-if (is_created s.state) _ _
              (λ _.
                Leads-weaken _ (Returns-SagaSteps st i held)
                  (place_hold-Leads st good i items (resolved_customer customer_name s) headers))
              (λ _. Leads-pure _ here))
            (λ a st' steps. Leads-weaken _ (Ends-after i steps) (
              order_held-Ends (SagaSteps-IsConsistent good steps) i key headers
                (resolved_customer customer_name s)))
            (λ x st' steps. steps)))

-- From a consistent store, whatever the upstream services answer, `place_order` only makes
-- transitions of the state machine; where it returns, what it returns is the stored session, which
-- has an order.
pub place_order-Leads :
    (st : SagaStore)
    → IsConsistent st
    → (i : Uuid) (items : List (String × ℕ)) (customer_name key : String)
      (headers : ObservabilityHeaders)
    → Leads st (place_order i items customer_name key headers) (Ends st i)
unfolding place_order
place_order-Leads st good i items customer_name key headers = Leads-cached _ _ _ (
    place_order_with-Ends good i items customer_name key headers
      (Idempotency.get i key st.idempotency) refl)
