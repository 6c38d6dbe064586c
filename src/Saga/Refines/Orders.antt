-- ===== src/Saga/Refines/Orders.antt =====
-- The parts of `confirm` that place and finalise an order, or compensate for it.
use ihms_oms.Prelude.{
  String, ◌≡◌, ◌≢◌, refl, subst, inl, inr, Bool, true, false, Option, none, some, arith, truthy?,
}
use ihms_oms.Session.Models.{
  Uuid, SessionState, held, fulfill_pending, confirmed, CheckoutSession, is_held as is_held_state,
}
use ihms_oms.Gateway.Models.{ObservabilityHeaders}
use ihms_oms.Gateway.Errors.{Result, ok, err}
use ihms_oms.Saga.World.{SagaStore}
use ihms_oms.Saga.Coordinator.Outcomes.{
  ConfirmResult, with_order, order_pending, order_complete, finalize_success, terminal_of,
  complete_order_after_create, finish_pending, retry_fulfill_pending, compensate_and_fail,
}
use ihms_oms.Saga.Leads.{
  Leads, Leads-pure, Leads-raise, Leads-external, Leads-if, Leads-bind, Leads-then, Leads-raise_if,
  Leads-save, Leads-put, Leads-count, Leads-save_last, Leads-count_last,
}
use ihms_oms.Saga.Machine.{
  Stored, order_leads, KeyFree, SameOrder, record_order, SagaSteps, here, one_step, order_recorded,
  hold_compensated,
}
use ihms_oms.Saga.Machine.Consistent.{has_order, IsConsistent}
use ihms_oms.Saga.Machine.Saves.{Stored-save_self}

-- How a confirm may end: the result is the stored session, which has an order.
abbrev pub Ends : SagaStore → Uuid → Result ConfirmResult → SagaStore → Type 0
Ends st i (ok r) st' =
    SagaSteps st st' × Stored st' i r.session × (has_order r.session.state ≡ true)
Ends st i (err x) st' = SagaSteps st st'

-- The same for the parts that raise before they write.
abbrev pub Completes : SagaStore → Uuid → Result ConfirmResult → SagaStore → Type 0
Completes st i (ok r) st' = Ends st i (ok r) st'
Completes st i (err x) st' = st' ≡ st

module _ {st : SagaStore} (good : IsConsistent st) (i : Uuid) (s : CheckoutSession)
    (stored : Stored st i s) where
  order_recorded-Ends :
      (target : SessionState) (o : Uuid) (key : String) (from_cache : Bool)
      → order_leads s.state target ≡ true
      → (target ≡ fulfill_pending → truthy? s.hold_id ≡ true)
      → KeyFree s key
      → SameOrder s o
      → Ends st i
          (ok (record { session = with_order target o key s; from_cache = from_cache }))
          (record_order target o key s st)
  order_recorded-Ends target o key from_cache leads hold free same = (
    one_step (order_recorded i s target o key stored leads hold free same),
    subst (λ k. Stored (record_order target o key s st) k (with_order target o key s))
        (good.keyed i s stored) (Stored-save_self st (with_order target o key s)),
    ground arith,
  )

  finalize_success-Completes :
      (target : SessionState) (o : Uuid) (key : String)
      → order_leads s.state target ≡ true
      → target ≢ fulfill_pending
      → KeyFree s key
      → SameOrder s o
      → Leads st (finalize_success s o key target) (Completes st i)
  unfolding finalize_success
  finalize_success-Completes target o key leads final free same =
      Leads-raise_if _ _ _ (λ refused. absurd (ground arith))
        (λ _. Leads-save _ _ (
          Leads-put _ _ _ _ (
            Leads-pure _
              (order_recorded-Ends target o key false leads (λ e. absurd (final e)) free same))))

  module _ (o : Uuid) (key : String) (is_held : s.state ≡ held) (free : KeyFree s key) where
    order_pending-Completes :
        truthy? s.hold_id ≡ true → Leads st (order_pending s o key) (Completes st i)
    unfolding order_pending
    order_pending-Completes hold = Leads-save _ _ (
        Leads-put _ _ _ _ (
          Leads-pure _ (
            order_recorded-Ends fulfill_pending o key false (ground arith) (λ _. hold) free
              (inl is_held))))

    order_complete-Completes : (r : Bool) → Leads st (order_complete s o key r) (Completes st i)
    unfolding order_complete
    order_complete-Completes r =
        Leads-bind (Completes st i) _ _
          (finalize_success-Completes (terminal_of r) o key (ground arith) (λ e. ground arith) free
            (inl is_held))
          (λ a st' ends. Leads-count _ _ (Leads-pure _ ends)) (λ x st' same. same)

    -- What follows the order: the hold is finalised, or the session waits for that.
    pub complete_order_after_create-Completes :
        (headers : ObservabilityHeaders) (r : Bool)
        → Leads st (complete_order_after_create s o key headers r) (Completes st i)
    unfolding complete_order_after_create
    complete_order_after_create-Completes headers r =
        Leads-bind (λ b st'. (st' ≡ st) × (b ≡ ok false → truthy? s.hold_id ≡ true)) _ _
          (Leads-if _ _ _ (λ hold. Leads-external _ (λ b. (refl, λ _. hold)))
            (λ _. Leads-pure _ (refl, λ e. cc)))
          (λ b st' (same, hold). rw same (
            Leads-if _ _ _ (λ _. order_complete-Completes r)
              (λ no. order_pending-Completes (hold (cc no)))))
          (λ x st' (same, _). same)

  module _ (key : String) (is_pending : s.state ≡ fulfill_pending)
      (has_key : s.idempotency_key ≡ some key) where
    finish_pending-Ends :
        (o : Option Uuid) (from_cache : Bool)
        → s.order_id ≡ o
        → Leads st (finish_pending s o key from_cache) (Ends st i)
    finish_pending-Ends none from_cache e = Leads-raise _ here
    finish_pending-Ends (some o) from_cache e =
        Leads-then _ _ (Leads-external _ (λ r. refl))
          (λ _.
            Leads-bind (Completes st i) _ _
              (finalize_success-Completes confirmed o key (ground arith) (λ e. cc) (inr has_key)
                (inr e))
              (λ a st' ends. Leads-count _ _ (Leads-pure _ ends)) (λ x st' same. rw same here))
          (λ x. here)

    -- A hold that was not finalised is tried again.
    pub retry_fulfill_pending-Ends :
        (headers : ObservabilityHeaders) (from_cache : Bool)
        → Leads st (retry_fulfill_pending s key headers from_cache) (Ends st i)
    unfolding retry_fulfill_pending
    retry_fulfill_pending-Ends headers from_cache =
        Leads-raise_if _ _ _ (λ _. here)
          (λ _.
            Leads-then _ _ (Leads-external _ (λ b. refl))
              (λ b.
                Leads-if b _ _ (λ _. finish_pending-Ends s.order_id from_cache refl)
                  (λ _. Leads-pure _ (here, stored, ground arith)))
              (λ x. here))

  pub compensate_and_fail-SagaSteps :
      (headers : ObservabilityHeaders)
      → s.state ≡ held
      → s.idempotency_key ≡ none
      → Leads st (compensate_and_fail s headers) (λ r st'. SagaSteps st st')
  unfolding compensate_and_fail
  compensate_and_fail-SagaSteps headers is_held no_key =
      Leads-if (truthy? s.hold_id) _ _
        (λ _.
          Leads-then _ _ (Leads-external _ (λ b. refl))
            (λ b.
              Leads-raise_if _ _ _ (λ _. here)
                (λ _.
                  Leads-bind (λ r st'. SagaSteps st st') _ _
                    (Leads-if (is_held_state s.state) _ _
                      (λ _.
                        Leads-save_last _ (one_step (hold_compensated i s stored is_held no_key)))
                      (λ _. Leads-pure _ here))
                    (λ a st' h. Leads-count_last _ h) (λ x st' h. h)))
            (λ x. here))
        (λ _. Leads-pure _ here)
