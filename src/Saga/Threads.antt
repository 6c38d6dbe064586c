-- ===== src/Saga/Threads.antt =====
-- Concurrent requests to src/saga/coordinator.py. The event loop may switch between requests where one
-- waits for the lock of a session: a request is a thread of segments, and a schedule says which thread
-- goes on. A block under a lock is one segment, so what other requests do while it waits for an upstream
-- service is left out: all code of other sessions, and the code of `place_order` and `place_hold` of the
-- same session that takes no lock.
pub mod Kept
pub mod Posts
pub mod Alone
use ihms_oms.Prelude.{
  ℕ, zero, suc, String, Option, none, some, List, [], ◌∷◌, not, ◌&&◌, if◌then◌else◌,
}
use ihms_oms.Session.Models.{
  Uuid, CheckoutSession, SessionLineItem, is_created, is_held, is_fulfill_pending, is_terminal,
}
use ihms_oms.Gateway.Models.{ObservabilityHeaders, Env}
use ihms_oms.Gateway.Errors.{
  Result, ok, err, saga, invalid_state_transition, order_terminal, order_from,
}
use ihms_oms.Effect.{pure, raise_if, ◌>>=◌, ◌>>◌}
use ihms_oms.Saga.Idempotency.{IdempotencyRecord}
use ihms_oms.Saga.World.{World, M, require_session, idempotency_get}
use ihms_oms.Saga.Coordinator.Hold.{prepare_hold, place_hold_locked}
use ihms_oms.Saga.Coordinator.Confirm.{confirm, abandon}
use ihms_oms.Saga.Coordinator.PlaceOrder.{place_order_cached, resolved_customer}
use ihms_oms.Saga.Refines.Requests.{
  Request, hold_request, confirm_request, order_request, abandon_request,
}

-- Where a request stands: not begun, before the lock of `place_hold` with the lines that it prepared
-- and, in `place_order`, the key to go on with, after that block in `place_order`, before the lock of
-- `confirm`, or at its end.
pub data Thread : Type 0 where
  begun : Request → Thread
  to_hold :
      Uuid → List SessionLineItem → String → ObservabilityHeaders → (key : Option String) → Thread
  to_check : Uuid → String → String → ObservabilityHeaders → Thread
  to_confirm : Uuid → Option String → String → ObservabilityHeaders → Thread
  finished : Thread

abbrev pub after_hold : Option String → Uuid → String → ObservabilityHeaders → Thread
after_hold none i customer headers = finished
after_hold (some key) i customer headers = to_check i customer key headers

-- `place_order` up to its first lock.
abbrev pub order_started :
    Option IdempotencyRecord
    → Uuid
    → List (String × ℕ)
    → String
    → String
    → ObservabilityHeaders
    → M Thread
order_started (some r) i items customer_name key headers = do
  _ ← place_order_cached i r
  pure finished
order_started none i items customer_name key headers = do
  s ← require_session i
  raise_if (is_terminal s) (saga (invalid_state_transition (order_terminal s.state)))
  if is_created s.state
      then (do
        lines ← prepare_hold i items
        pure (to_hold i lines (resolved_customer customer_name s) headers (some key)))
      else pure (to_check i (resolved_customer customer_name s) key headers)

abbrev pub first_segment : Request → M Thread
first_segment (hold_request i items customer headers) = do
  lines ← prepare_hold i items
  pure (to_hold i lines customer headers none)
first_segment (confirm_request i customer key headers) = pure (to_confirm i customer key headers)
first_segment (order_request i items customer key headers) = do
  cached ← idempotency_get i key
  order_started cached i items customer key headers
first_segment (abandon_request i headers) = do _ ← abandon i headers; pure finished

-- One segment of a thread, and where it leaves the request.
unfoldable pub segment : Thread → M Thread
segment (begun r) = first_segment r
segment (to_hold i lines customer headers key) = do
  _ ← place_hold_locked i lines customer headers
  pure (after_hold key i customer headers)
segment (to_check i customer key headers) = do
  s ← require_session i
  raise_if (not (is_fulfill_pending s.state) && not (is_held s.state))
      (saga (invalid_state_transition (order_from s.state)))
  pure (to_confirm i (some customer) key headers)
segment (to_confirm i customer key headers) = do _ ← confirm i customer key headers; pure finished
segment finished = pure finished

-- A request that raises has ended.
abbrev pub resumed : Result Thread → Thread
resumed (ok t) = t
resumed (err x) = finished

unfoldable pub advance : Thread → Env → World → Thread × World
unfolding segment
advance t e w = let (r, w') = segment t e w in (resumed r, w')

-- The thread with a number goes on by a segment; a number that no thread has is passed over.
unfoldable pub advance_at : ℕ → List Thread → Env → World → List Thread × World
unfolding advance
advance_at n [] e w = ([], w)
advance_at zero (t ∷ ts) e w = let (t', w') = advance t e w in (t' ∷ ts, w')
advance_at (suc n) (t ∷ ts) e w = let (ts', w') = advance_at n ts e w in (t ∷ ts', w')

unfoldable pub interleave : List ℕ → List Thread → Env → World → List Thread × World
unfolding advance_at
interleave [] ts e w = (ts, w)
interleave (n ∷ schedule) ts e w =
    let (ts', w') = advance_at n ts e w in interleave schedule ts' e w'
