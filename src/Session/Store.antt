-- ===== src/Session/Store.antt =====
-- src/session/store.py: the store of sessions. The lock of a session is held for the whole of an
-- `async with` block, which no other block on that lock enters: here such a block is one action.
use ihms_oms.Prelude.{Option, none, some, Dict, lookup, insert, nat_eq}
use ihms_oms.Session.Models.{Uuid, CheckoutSession}

abbrev pub Sessions : Type 0
Sessions = Dict Uuid CheckoutSession

unfoldable pub save : CheckoutSession → Sessions → Sessions
save s d = insert s.session_id s d

unfoldable pub get : Uuid → Sessions → Option CheckoutSession
get session_id d = lookup session_id d

-- The session that `mutate` returns, beside the new store; `none` is its KeyError.
unfoldable pub mutate :
    Uuid → (CheckoutSession → CheckoutSession) → Sessions → Option (CheckoutSession × Sessions)
unfolding save get
mutate session_id mutator d = elim (get session_id d) [
  | none ↦ none
  | some s ↦ some (mutator s, save (mutator s) d)
]
