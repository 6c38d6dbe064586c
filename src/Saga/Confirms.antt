-- ===== src/Saga/Confirms.antt =====
-- The successful order attempt of `confirm` in src/saga/coordinator.py.
pub mod Answers
use ihms_oms.Prelude.{
  ℕ, ◌+◌, String, ◌≡◌, refl, Bool, true, false, none, some, List, ◌∷◌, arith, truthy?, truthy, leb,
  Option, sym, subst, ◌∙◌, not, ◌||◌, lookup-insert_self, Bool-cases, inl, inr,
}
use ihms_oms.Session.Models.{
  Timestamp, SessionState, held, is_held, is_fulfill_pending, confirmed, reconciled,
  CheckoutSession, SessionLineItem,
}
use ihms_oms.Session.Store
use ihms_oms.Prelude.{nat_eq, string_eq, pair_eq}
use ihms_oms.Gateway.Models.{
  ObservabilityHeaders, History, Env, read_clock, OrderCreate, OrderResponse, HoldResponse,
}
use ihms_oms.Gateway.Errors.{Result, ok}
use ihms_oms.Gateway.Ihms.{fulfill_hold}
use ihms_oms.Gateway.Ecops.{create_order, find_order_by_client_reference}
use ihms_oms.Effect.{now, ◌>>=◌, catch}
use ihms_oms.Observability.Metrics.{record_confirm_success}
use ihms_oms.Saga.Idempotency
use ihms_oms.Saga.Idempotency.{IdempotencyRecord}
use ihms_oms.Saga.Steps.{find_order_by_reference, fulfill_hold_safe}
use ihms_oms.Saga.World.{
  World, external, session_save, session_get, require_session, idempotency_get, idempotency_put,
  count_metric,
}
use ihms_oms.Saga.Coordinator.Creation.{
  build_order_payload, find_or_create, create_order_with_retry,
}
use ihms_oms.Saga.Coordinator.Outcomes.{
  ConfirmResult, default_retries, hold_text, fulfill_held, finalize_success, order_complete,
  complete_order_after_create, cache_confirm_response,
}
use ihms_oms.Saga.Coordinator.Confirm.{
  confirm, confirm_first, confirm_uncached, assert_hold_not_expired,
}
use ihms_oms.Saga.Machine.{Stored}
use ihms_oms.Saga.Confirms.Answers.{Ordered, ordered_history, find_or_create-Ordered, finalized}

-- The state that a found and a created order lead to, and by how much the count of found orders grows.
abbrev pub ends_in : Bool → SessionState
ends_in true = reconciled
ends_in false = confirmed

abbrev pub found_count : Bool → ℕ
found_count true = 1
found_count false = 0

module _ (w : World) (s : CheckoutSession) (key : String) (o : OrderResponse) (found : Bool) where
  -- The session with the order, and the response that is cached for it.
  abbrev pub completed : CheckoutSession
  completed = record s { state = ends_in found; order_id = some o.id; idempotency_key = some key }

  abbrev pub response : IdempotencyRecord
  response = record {
    status_code = 200;
    body = record {
      session_id = s.session_id;
      correlation_id = s.correlation_id;
      state = ends_in found;
      hold_id = s.hold_id;
      order_id = some o.id;
      expires_at = s.expires_at;
    };
    order_id = some o.id;
  }

  -- The session is returned and stored, its response is cached, and the order is counted.
  pub record Confirmed (p : Result ConfirmResult × World) : Type 0 where
    pub returned : p.0 ≡ ok (record { session = completed; from_cache = false })
    pub stored : Store.get s.session_id p.1.store.sessions ≡ some completed
    pub cached : Idempotency.get s.session_id key p.1.store.idempotency ≡ some response
    pub success_counted : p.1.metrics.confirms_success_total ≡ w.metrics.confirms_success_total + 1
    pub reconciled_counted :
        p.1.metrics.confirms_reconciled_total
        ≡ w.metrics.confirms_reconciled_total + found_count found

module _ (headers : ObservabilityHeaders) (e : Env) (w : World) (s : CheckoutSession) (key : String)
    (payload : OrderCreate) (o : OrderResponse) (found : Bool) where
  may_finalize : s.state ≡ held → not (is_held s.state || is_fulfill_pending s.state) ≡ false
  may_finalize is_held_now = rw is_held_now refl

  order_complete-Confirmed :
      (h : History)
      → s.state ≡ held
      → Confirmed w s key o found (order_complete s o.id key found e (record w { history = h }))
  unfolding order_complete finalize_success cache_confirm_response session_save idempotency_put
      count_metric record_confirm_success Store.save Store.get Idempotency.put Idempotency.get ◌>>=◌
  order_complete-Confirmed h is_held_now = elim (Bool-cases found) [
    | inl f ↦
        rw (may_finalize is_held_now, f)
          (record {
            returned = refl;
            stored = lookup-insert_self s.session_id _ _;
            cached = lookup-insert_self (s.session_id, key) _ _;
            success_counted = refl;
            reconciled_counted = refl;
          })
    | inr f ↦
        rw (may_finalize is_held_now, f)
          (record {
            returned = refl;
            stored = lookup-insert_self s.session_id _ _;
            cached = lookup-insert_self (s.session_id, key) _ _;
            success_counted = refl;
            reconciled_counted = omega arith;
          })
  ]

  completes :
      (h : History) {r : Option HoldResponse}
      → truthy? s.hold_id ≡ true
      → (fulfill_hold w.ihms (hold_text s.hold_id) headers e h).0 ≡ ok r
      → complete_order_after_create s o.id key headers found e (record w { history = h })
        ≡ order_complete s o.id key found e
            (record w { history = (fulfill_hold w.ihms (hold_text s.hold_id) headers e h).1 })
  unfolding complete_order_after_create fulfill_held external ◌>>=◌
  completes h has_hold answered =
      rw (has_hold, finalized headers e w s key payload o (hold_text s.hold_id) h answered) refl

  -- The world once the hold was finalised.
  abbrev finalised_world : World
  finalised_world = record w {
    history =
        (fulfill_hold w.ihms (hold_text s.hold_id) headers e
          (ordered_history headers e w s key payload o found)).1;
  }

  abbrev ending : Result ConfirmResult × World
  ending = order_complete s o.id key found e finalised_world

  -- The first order attempt of a session that may be confirmed.
  first_attempt :
      (customer : String) (t : Timestamp) (line : SessionLineItem) (lines : List SessionLineItem)
      {r : Option HoldResponse}
      → s.state ≡ held
      → truthy? s.hold_id ≡ true
      → s.expires_at ≡ some t
      → leb t (e.now w.history) ≡ false
      → s.line_items ≡ line ∷ lines
      → truthy customer ≡ true
      → build_order_payload s customer ≡ ok payload
      → Ordered headers e w s key payload o found
      → (fulfill_hold w.ihms
          (hold_text s.hold_id)
          headers
          e
          (ordered_history headers e w s key payload o found)).0
        ≡ ok r
      → confirm_first s (some customer) key headers e w ≡ ending
  unfolding confirm_first assert_hold_not_expired external now ◌>>=◌ catch
  first_attempt customer t line lines is_held_now has_hold expiry active has_lines named built has
        answered =
      let placed = find_or_create-Ordered headers e w s key payload o found has in
      let closes =
        completes (ordered_history headers e w s key payload o found) has_hold answered in
      let done = (order_complete-Confirmed finalised_world.history is_held_now).returned in
      ground (arith)

  confirm-first :
      (customer : String)
      → Stored w.store s.session_id s
      → Idempotency.get s.session_id key w.store.idempotency ≡ none
      → s.idempotency_key ≡ none
      → s.state ≡ held
      → confirm s.session_id (some customer) key headers e w
        ≡ confirm_first s (some customer) key headers e w
  unfolding confirm confirm_uncached idempotency_get require_session session_get ◌>>=◌
  confirm-first customer stored uncached no_key is_held_now = rw uncached (rw stored (ground arith))

  -- A `confirm` with a customer, of a stored, held session with a hold that has not expired, with line
  -- items, with no idempotency key and no cached response, where the payload validates, ecOps has
  -- the order of the session or has none and creates it, and IHMS finalises the hold: the session it
  -- returns, and stores, has the id of that order and the key, and is RECONCILED if ecOps had the order
  -- and CONFIRMED if it created it; the response with that state and order is cached under the key, and
  -- the order is counted.
  pub confirm-confirms :
      (customer : String) (t : Timestamp) (line : SessionLineItem) (lines : List SessionLineItem)
      {r : Option HoldResponse}
      → Stored w.store s.session_id s
      → Idempotency.get s.session_id key w.store.idempotency ≡ none
      → s.idempotency_key ≡ none
      → s.state ≡ held
      → truthy? s.hold_id ≡ true
      → s.expires_at ≡ some t
      → leb t (e.now w.history) ≡ false
      → s.line_items ≡ line ∷ lines
      → truthy customer ≡ true
      → build_order_payload s customer ≡ ok payload
      → Ordered headers e w s key payload o found
      → (fulfill_hold w.ihms
          (hold_text s.hold_id)
          headers
          e
          (ordered_history headers e w s key payload o found)).0
        ≡ ok r
      → Confirmed w s key o found (confirm s.session_id (some customer) key headers e w)
  confirm-confirms customer t line lines stored uncached no_key is_held_now has_hold expiry active
        has_lines named built has answered =
      let runs =
        confirm-first customer stored uncached no_key is_held_now
        ∙ first_attempt customer t line lines is_held_now has_hold expiry active has_lines named
            built has answered in
      subst (λ p. Confirmed w s key o found p) (sym runs)
        (order_complete-Confirmed finalised_world.history is_held_now)
