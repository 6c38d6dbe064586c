-- ===== src/Saga/Idempotency.antt =====
-- src/saga/idempotency.py: the cache of confirm responses.
use ihms_oms.Prelude.{ℕ, String, Option, Dict, lookup, insert, pair_eq}
use ihms_oms.Session.Models.{Uuid, Timestamp, SessionState}

-- The body that the coordinator caches, field by field: `get("state")` always finds a state.
pub record ConfirmBody : Type 0 where
  pub session_id : Uuid
  pub correlation_id : String
  pub state : SessionState
  pub hold_id : Option String
  pub order_id : Option Uuid
  pub expires_at : Option Timestamp

pub record IdempotencyRecord : Type 0 where
  pub status_code : ℕ
  pub body : ConfirmBody
  pub order_id : Option Uuid

abbrev pub Records : Type 0
Records = Dict (Uuid × String) IdempotencyRecord

unfoldable pub get : Uuid → String → Records → Option IdempotencyRecord
get session_id key d = lookup (session_id, key) d

unfoldable pub put : Uuid → String → IdempotencyRecord → Records → Records
put session_id key r d = insert (session_id, key) r d
