-- ===== src/Saga/Machine/Preserved.antt =====
-- Every transition of the saga keeps the store consistent.
use ihms_oms.Prelude.{
  String, ◌≡◌, ◌≢◌, refl, sym, subst, ◌∙◌, inl, inr, true, false, Option, none, some, arith,
  truthy?,
}
use ihms_oms.Session.Models.{
  Uuid, SessionState, held, fulfill_pending, abandoned, compensated, CheckoutSession,
}
use ihms_oms.Saga.Idempotency.{IdempotencyRecord}
use ihms_oms.Saga.World.{SagaStore, store_session}
use ihms_oms.Saga.Coordinator.Outcomes.{with_order, confirm_record}
use ihms_oms.Saga.Coordinator.Hold.{held_session}
use ihms_oms.Saga.Machine.{
  Stored, Cached, order_leads, KeyFree, record_order, SagaStep, hold_placed, key_kept,
  order_recorded, hold_compensated, checkout_abandoned, SagaSteps, here, step,
}
use ihms_oms.Saga.Machine.Consistent.{has_order, fits, OrderCached, IsConsistent, Stored-unique}
use ihms_oms.Saga.Machine.Saves.{
  Stored-save_self, Stored-save_ne, Stored-save_cases, Cached-record_self, Cached-record_cases,
  Cached-record_ne,
}

module _ {st : SagaStore} (good : IsConsistent st) (i : Uuid) (s : CheckoutSession)
    (stored : Stored st i s) where
  -- The session that is stored under the id of `s`, however the id is written.
  same_session : (j : Uuid) (t : CheckoutSession) → j ≡ s.session_id → Stored st j t → t ≡ s
  same_session j t e h =
      Stored-unique st j t s h (subst (λ k. Stored st k s) (sym (e ∙ good.keyed i s stored)) stored)

  -- A save of a session that neither had nor gets an order.
  save-IsConsistent :
      (s' : CheckoutSession)
      → s'.session_id ≡ s.session_id
      → has_order s.state ≡ false
      → has_order s'.state ≡ false
      → fits s'.state s'.order_id s'.hold_id s'.idempotency_key ≡ true
      → IsConsistent (store_session s' st)
  save-IsConsistent s' same old new fit = record {
    keyed = λ j t h. elim (Stored-save_cases st s' j t h) [
      | inl (ej, et) ↦ rw et (sym ej)
      | inr (ne, h') ↦ good.keyed j t h'
    ];
    fitting = λ j t h. elim (Stored-save_cases st s' j t h) [
      | inl (ej, et) ↦ rw et fit
      | inr (ne, h') ↦ good.fitting j t h'
    ];
    order_cached = λ j t h p. elim (Stored-save_cases st s' j t h) [
      | inl (ej, et) ↦ cc
      | inr (ne, h') ↦
          (let (k, oc) = good.order_cached j t h' p in
            (k, record { has_key = oc.has_key; placed = oc.placed; cached = oc.cached }))
    ];
    cache_backed = λ j k r c.
        let (t, h, e, oc) = good.cache_backed j k r c in
        let old_t : j ≡ s'.session_id → ⊥ =
          λ ej. let et = same_session j t (ej ∙ same) h in cc oc.placed in
        (
          t,
          Stored-save_ne st s' j t old_t h,
          e,
          record { has_key = oc.has_key; placed = oc.placed; cached = oc.cached },
        );
  }

  module _ (target : SessionState) (o : Uuid) (key : String)
      (leads : order_leads s.state target ≡ true)
      (pending_hold : target ≡ fulfill_pending → truthy? s.hold_id ≡ true)
      (free : KeyFree s key) where
    abbrev ordered : CheckoutSession
    ordered = with_order target o key s

    ordered_placed : has_order target ≡ true
    ordered_placed = ground arith

    ordered_fits : fits target (some o) s.hold_id (some key) ≡ true
    ordered_fits = ground arith

    -- A session that is waiting for its hold keeps its key, so that no other response is cached.
    same_key :
        (k : String) (t : CheckoutSession) (j : Uuid) → t ≡ s → OrderCached st j t k → k ≡ key
    same_key k t j e oc =
        let has_key = subst (λ x. x.idempotency_key ≡ some k) e oc.has_key in
        let placed = subst (λ x. has_order x.state ≡ true) e oc.placed in ground arith

    record_order-OrderCached :
        (j : Uuid) → j ≡ s.session_id → OrderCached (record_order target o key s st) j ordered key
    record_order-OrderCached j e = record {
      has_key = refl;
      placed = ordered_placed;
      cached =
          rw e (
            Cached-record_self (store_session ordered st) s.session_id key
              (confirm_record ordered));
    }

    -- The responses of other sessions stay cached.
    moved :
        (j : Uuid) (t : CheckoutSession) (k : String)
        → j ≢ s.session_id
        → OrderCached st j t k
        → OrderCached (record_order target o key s st) j t k
    moved j t k ne oc = record {
      has_key = oc.has_key;
      placed = oc.placed;
      cached =
          Cached-record_ne (store_session ordered st) s.session_id key (confirm_record ordered) j k
            (confirm_record t) ne oc.cached;
    }

    record_order-cache_backed :
        (j : Uuid) (k : String) (r : IdempotencyRecord)
        → Cached (record_order target o key s st) j k r
        → (t : CheckoutSession) × Stored (record_order target o key s st) j t
          × (r ≡ confirm_record t)
          × OrderCached (record_order target o key s st) j t k
    record_order-cache_backed j k r c =
        elim (Cached-record_cases (store_session ordered st) s.session_id key
          (confirm_record ordered) j k r c) [
            | inl (ej, ek, er) ↦ (
              ordered,
              rw ej (Stored-save_self st ordered),
              er,
              rw ek (record_order-OrderCached j ej),
            )
            | inr (ne, c') ↦
                (let (t, h, e, oc) = good.cache_backed j k r c' in
                  let ne_j : j ≢ s.session_id =
                    λ ej. ne ej (same_key k t j (same_session j t ej h) oc) in
                  (t, Stored-save_ne st ordered j t ne_j h, e, moved j t k ne_j oc))
          ]

    -- A transition that places or finalises an order keeps the store consistent.
    record_order-IsConsistent : IsConsistent (record_order target o key s st)
    record_order-IsConsistent = record {
      keyed = λ j t h. elim (Stored-save_cases st ordered j t h) [
        | inl (ej, et) ↦ rw et (sym ej)
        | inr (ne, h') ↦ good.keyed j t h'
      ];
      fitting = λ j t h. elim (Stored-save_cases st ordered j t h) [
        | inl (ej, et) ↦ rw et ordered_fits
        | inr (ne, h') ↦ good.fitting j t h'
      ];
      order_cached = λ j t h p. elim (Stored-save_cases st ordered j t h) [
        | inl (ej, et) ↦ (key, rw et (record_order-OrderCached j ej))
        | inr (ne, h') ↦ (let (k, oc) = good.order_cached j t h' p in (k, moved j t k ne oc))
      ];
      cache_backed = record_order-cache_backed;
    }

module _ {st : SagaStore} (good : IsConsistent st) where
  held_fits_key :
      (i : Uuid) (s : CheckoutSession) (k : Option String)
      → Stored st i s
      → s.state ≡ held
      → fits held s.order_id s.hold_id k ≡ true
  held_fits_key i s k h e = ground (arith, good.fitting i s h)

  -- A transition keeps the store consistent.
  pub SagaStep-IsConsistent : {st' : SagaStore} → SagaStep st st' → IsConsistent st'
  SagaStep-IsConsistent (hold_placed i s hold customer items h e) =
      save-IsConsistent good i s h (held_session hold customer items s) refl (ground arith) refl
        (ground (arith, good.fitting i s h))
  SagaStep-IsConsistent (key_kept i s key h e n) =
      save-IsConsistent good i s h (record s { idempotency_key = some key }) refl (ground arith)
        (ground arith) (ground (arith, good.fitting i s h))
  SagaStep-IsConsistent (order_recorded i s target o key h leads hold free same) =
      record_order-IsConsistent good i s h target o key leads hold free
  SagaStep-IsConsistent (hold_compensated i s h e n) =
      save-IsConsistent good i s h (record s { state = compensated; idempotency_key = none }) refl
        (ground arith) refl (ground (arith, good.fitting i s h))
  SagaStep-IsConsistent (checkout_abandoned i s h e) =
      save-IsConsistent good i s h (record s { state = abandoned }) refl (ground arith) refl
        (ground (arith, good.fitting i s h))

-- However often the saga moves, a consistent store stays consistent.
pub SagaSteps-IsConsistent :
    {st st' : SagaStore} → IsConsistent st → SagaSteps st st' → IsConsistent st'
SagaSteps-IsConsistent good here = good
SagaSteps-IsConsistent good (step p q) = SagaStep-IsConsistent (SagaSteps-IsConsistent good p) q
