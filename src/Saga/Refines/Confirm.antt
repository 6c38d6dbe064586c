-- ===== src/Saga/Refines/Confirm.antt =====
-- `confirm` follows the state machine, and what it returns is the stored session with its order.
use mathlib.Core.Path.{subst₂}
use text.Mathlib.TextEquality.{eq_iff}
use ihms_oms.Prelude.{
  String, ◌≡◌, refl, sym, ap, subst, ◌∙◌, inl, inr, Bool, true, false, not, ◌&&◌, ◌||◌, Option,
  none, some, arith, truthy?, string_eq, ◌==◌,
}
use ihms_oms.Session.Models.{
  Uuid, SessionState, held, CheckoutSession, is_held as is_held_state, is_fulfill_pending,
  is_terminal,
}
use ihms_oms.Gateway.Models.{ObservabilityHeaders, OrderResponse}
use ihms_oms.Gateway.Errors.{
  gateway_timeout, order_status_unknown, Error, gateway, saga, Result, ok, err,
}
use ihms_oms.Effect.{raise, or_raise, ◌>>=◌, ◌>>◌}
use ihms_oms.Saga.Idempotency
use ihms_oms.Saga.Idempotency.{IdempotencyRecord}
use ihms_oms.Saga.World.{SagaStore, external, session_save}
use ihms_oms.Saga.Coordinator.Outcomes.{
  ConfirmResult, is_some, fulfill_held, compensate_and_fail, apply_cached,
}
use ihms_oms.Saga.Coordinator.Creation.{lookup_unknown}
use ihms_oms.Saga.Coordinator.Confirm.{
  confirm_takes_over, confirm_cached, complete_found, resolve_existing_order_attempt,
  assert_hold_not_expired, confirm_failed, customer_or_raise, confirm_first, confirm_again,
  confirm_held, same_key, confirm_uncached, replay_with, confirm_with, confirm,
}
use ihms_oms.Saga.Leads.{
  Leads, Leads-pure, Leads-raise, Leads-external, Leads-if, Leads-weaken, Leads-bind, Leads-then,
  Leads-lift_result, Leads-raise_if, Leads-require, Leads-cached, Leads-save, Leads-count,
  Leads-catch, Leads-save_last,
}
use ihms_oms.Saga.Machine.{Stored, Cached, SagaSteps, here, one_step, key_kept}
use ihms_oms.Saga.Machine.Consistent.{
  IsConsistent, store_session_same, order_of_record, cached_update_same,
}
use ihms_oms.Saga.Refines.Orders.{
  Ends, Completes, complete_order_after_create-Completes, retry_fulfill_pending-Ends,
  compensate_and_fail-SagaSteps,
}

-- The store stays as it is, however the action ends.
abbrev pub Unchanged : {A : Type 0} → SagaStore → Result A → SagaStore → Type 0
Unchanged st r st' = st' ≡ st

Completes-Ends :
    (st : SagaStore) (i : Uuid) (r : Result ConfirmResult) (st' : SagaStore)
    → Completes st i r st'
    → Ends st i r st'
Completes-Ends st i (ok a) st' h = h
Completes-Ends st i (err x) st' h = rw h here

lookup_unknown-Unchanged :
    {A : Type 0} (st : SagaStore) (x : Error) → Leads st (lookup_unknown {A = A} x) (Unchanged st)
lookup_unknown-Unchanged st (gateway x) = Leads-raise _ refl
lookup_unknown-Unchanged st x = Leads-raise _ refl

assert_hold_not_expired-Unchanged :
    (st : SagaStore) (s : CheckoutSession) → Leads st (assert_hold_not_expired s) (Unchanged st)
unfolding assert_hold_not_expired external ◌>>=◌
assert_hold_not_expired-Unchanged st s = record { at = λ e w. ground arith }

fulfill_held-Unchanged :
    (st : SagaStore) (s : CheckoutSession) (headers : ObservabilityHeaders)
    → Leads st (fulfill_held s headers) (Unchanged st)
unfolding fulfill_held
fulfill_held-Unchanged st s headers = Leads-external _ (λ r. refl)

customer_or_raise-Unchanged :
    (st : SagaStore) (o : Option String) → Leads st (customer_or_raise o) (Unchanged st)
unfolding raise or_raise
customer_or_raise-Unchanged st o = record { at = λ e w. ground arith }

module _ {st : SagaStore} (good : IsConsistent st) (i : Uuid) (s : CheckoutSession)
    (stored : Stored st i s) where
  pub apply_cached-same :
      (takes_over : SessionState → Bool) (key : String) (r : IdempotencyRecord)
      → Cached st i key r
      → Leads st (apply_cached takes_over r s) (λ a st'. (a ≡ ok s) × (st' ≡ st))
  unfolding apply_cached
  apply_cached-same takes_over key r cached =
      Leads-if (is_some r.order_id || takes_over s.state) _ _
        (λ _.
          subst (λ s'. Leads st (session_save s') (λ a st'. (a ≡ ok s) × (st' ≡ st)))
            (sym (cached_update_same good i s takes_over key r stored cached))
            (Leads-save_last s (refl, store_session_same good i s stored)))
        (λ _. Leads-pure _ (refl, refl))

  -- The first attempt of a held session.
  module _ (key : String) (is_held : s.state ≡ held) where
    complete_found-Ends :
        (headers : ObservabilityHeaders) (o : Option OrderResponse)
        → s.idempotency_key ≡ some key
        → Leads st (complete_found s key headers o) (Ends st i)
    complete_found-Ends headers none k = Leads-raise _ here
    complete_found-Ends headers (some o) k = Leads-weaken _ (Completes-Ends st i) (
        complete_order_after_create-Completes good i s stored o.id key is_held (inr k) headers true)

    resolve_existing_order_attempt-Ends :
        (headers : ObservabilityHeaders)
        → s.idempotency_key ≡ some key
        → Leads st (resolve_existing_order_attempt s key headers) (Ends st i)
    unfolding resolve_existing_order_attempt
    resolve_existing_order_attempt-Ends headers k =
        Leads-then _ _
          (Leads-catch (Unchanged st) _ _ (Leads-external _ (λ r. refl)) (λ a st' same. same)
            (λ x st' same. rw same (lookup_unknown-Unchanged st x)))
          (λ o. complete_found-Ends headers o k) (λ x. here)

    compensate_then_raise :
        (headers : ObservabilityHeaders)
        → s.idempotency_key ≡ none
        → (x : Error) → Leads st (compensate_and_fail s headers >> raise x) (Ends st i)
    compensate_then_raise headers k x =
        Leads-bind (λ r st'. SagaSteps st st') _ _
          (compensate_and_fail-SagaSteps good i s stored headers is_held k)
          (λ a st' h. Leads-raise _ h) (λ y st' h. h)

    confirm_failed-Ends :
        (headers : ObservabilityHeaders) (x : Error)
        → s.idempotency_key ≡ none
        → Leads st (confirm_failed s key headers x) (Ends st i)
    unfolding confirm_failed
    confirm_failed-Ends headers (gateway (gateway_timeout t)) k = compensate_then_raise headers k _
    confirm_failed-Ends headers (gateway x) k = compensate_then_raise headers k _
    confirm_failed-Ends headers (saga order_status_unknown) k =
        Leads-save _ _
          (Leads-count _ _ (Leads-raise _ (one_step (key_kept i s key stored is_held k))))
    confirm_failed-Ends headers x k = Leads-raise _ here

    confirm_first-Ends :
        (customer_name : Option String) (headers : ObservabilityHeaders)
        → s.idempotency_key ≡ none
        → Leads st (confirm_first s customer_name key headers) (Ends st i)
    unfolding confirm_first
    confirm_first-Ends customer_name headers k =
        Leads-raise_if _ _ _ (λ _. here)
          (λ _.
            Leads-then _ _ (assert_hold_not_expired-Unchanged st s)
              (λ _.
                Leads-then _ _ (customer_or_raise-Unchanged st _)
                  (λ customer.
                    Leads-lift_result _ _
                      (λ payload _.
                        Leads-catch (Completes st i) _ _
                          (Leads-then _ _ (Leads-external _ (λ r. refl))
                            (λ placed.
                              complete_order_after_create-Completes good i s stored (placed.0).id
                                key is_held (inl k) headers placed.1)
                            (λ x. refl))
                          (λ a st' ends. ends)
                          (λ x st' same. rw same (confirm_failed-Ends headers x k)))
                      (λ x. here))
                  (λ x. here))
              (λ x. here))

    confirm_again-Ends :
        (headers : ObservabilityHeaders) (k : String)
        → s.idempotency_key ≡ some k
        → Leads st (confirm_again k s key headers) (Ends st i)
    confirm_again-Ends headers k has_key =
        Leads-if (k == key) _ _
          (λ e.
            resolve_existing_order_attempt-Ends headers (has_key ∙ ap some ((eq_iff k key).0 e)))
          (λ _. Leads-raise _ here)

    confirm_held-Ends :
        (customer_name : Option String) (headers : ObservabilityHeaders) (k : Option String)
        → s.idempotency_key ≡ k
        → Leads st (confirm_held k s customer_name key headers) (Ends st i)
    confirm_held-Ends customer_name headers none h = confirm_first-Ends customer_name headers h
    confirm_held-Ends customer_name headers (some k) h = confirm_again-Ends headers k h

  same_key-eq : (k : Option String) (key : String) → same_key k key ≡ true → k ≡ some key
  same_key-eq none key h = cc
  same_key-eq (some k) key h = ap some ((eq_iff k key).0 h)

  is_held-eq : not (is_held_state s.state) ≡ false → s.state ≡ held
  is_held-eq h = ground arith

  confirm_uncached-Ends :
      (customer_name : Option String) (key : String) (headers : ObservabilityHeaders)
      → Leads st (confirm_uncached s customer_name key headers) (Ends st i)
  unfolding confirm_uncached
  confirm_uncached-Ends customer_name key headers =
      Leads-if (is_fulfill_pending s.state) _ _
        (λ pending.
          Leads-if (same_key s.idempotency_key key) _ _
            (λ e.
              retry_fulfill_pending-Ends good i s stored key (ground arith)
                (same_key-eq s.idempotency_key key e) headers false)
            (λ _. Leads-raise _ here))
        (λ _.
          Leads-if (not (is_held_state s.state)) _ _ (λ _. Leads-raise _ here)
            (λ h.
              confirm_held-Ends key (is_held-eq h) customer_name headers s.idempotency_key refl))

  confirm_replayed-Ends :
      (key : String) (r : IdempotencyRecord) (headers : ObservabilityHeaders)
      → Cached st i key r
      → Leads st (replay_with s key headers) (Ends st i)
  confirm_replayed-Ends key r headers cached =
      let oc = (order_of_record good i s key r stored cached).1 in
      Leads-if (is_fulfill_pending s.state) _ _
        (λ pending.
          retry_fulfill_pending-Ends good i s stored key (ground arith) oc.has_key headers true)
        (λ _.
          Leads-then _ _
            (Leads-if (truthy? s.hold_id && is_terminal s) _ _
              (λ _. fulfill_held-Unchanged st s headers) (λ _. Leads-pure _ refl))
            (λ _. Leads-pure _ (here, stored, oc.placed)) (λ x. here))

confirm_cached-Ends :
    {st : SagaStore} (good : IsConsistent st) (i : Uuid) (key : String) (r : IdempotencyRecord)
    (headers : ObservabilityHeaders)
    → Cached st i key r
    → Leads st (confirm_cached i r key headers) (Ends st i)
unfolding confirm_cached
confirm_cached-Ends {st} good i key r headers cached = Leads-require _ _ here (λ s stored.
    Leads-bind (λ a st'. (a ≡ ok s) × (st' ≡ st)) _ _
      (apply_cached-same good i s stored confirm_takes_over key r cached)
      (λ a st' (e, same).
        subst₂ (λ t a'. Leads t (replay_with a' key headers) (Ends st i)) (sym same) (sym (cc e))
          (confirm_replayed-Ends good i s stored key r headers cached))
      (λ x st' (_, same). rw same here))

confirm_with-Ends :
    {st : SagaStore} (good : IsConsistent st) (i : Uuid) (customer_name : Option String)
    (key : String) (headers : ObservabilityHeaders) (o : Option IdempotencyRecord)
    → Idempotency.get i key st.idempotency ≡ o
    → Leads st (confirm_with o i customer_name key headers) (Ends st i)
confirm_with-Ends good i customer_name key headers none e =
    Leads-require _ _ here
      (λ s stored. confirm_uncached-Ends good i s stored customer_name key headers)
confirm_with-Ends good i customer_name key headers (some r) e =
    confirm_cached-Ends good i key r headers e

-- From a consistent store, whatever the upstream services answer, `confirm` only makes transitions
-- of the state machine; where it returns, what it returns is the stored session, which has an order.
pub confirm-Leads :
    (st : SagaStore)
    → IsConsistent st
    → (i : Uuid) (customer_name : Option String) (key : String) (headers : ObservabilityHeaders)
    → Leads st (confirm i customer_name key headers) (Ends st i)
unfolding confirm
confirm-Leads st good i customer_name key headers =
    Leads-cached _ _ _ (
      confirm_with-Ends good i customer_name key headers (Idempotency.get i key st.idempotency)
        refl)
