-- ===== src/Saga/Steps.antt =====
-- src/saga/steps/: the three retry loops over the gateways. `rounds` are the turns of the `for`
-- loop that are left; `attempt` counts up to `max_retries`.
pub mod Fulfil
pub mod Posts
pub mod Release
pub mod Rounds
pub mod Settle
use ihms_oms.Prelude.{
  ℕ, zero, suc, ◌+◌, ◌*◌, String, Bool, true, false, Option, none, some, leb, ltb, if◌then◌else◌,
}
use ihms_oms.Gateway.Models.{ObservabilityHeaders, OrderResponse, sleep, History}
use ihms_oms.Gateway.Errors.{
  hold_not_found, hold_conflict, GatewayError, gateway_timeout, upstream_error, Error, gateway,
}
use ihms_oms.Gateway.Ihms.{IhmsClient, release_hold, fulfill_hold}
use ihms_oms.Gateway.Ecops.{EcOpsClient, find_order_by_client_reference}
use ihms_oms.Effect.{Action, pure, raise, ◌>>=◌, ◌>>◌, catch, send}

-- `await asyncio.sleep(0.05 * (attempt + 1))`
unfoldable pub pause : ℕ → Action History (Unit {0})
unfolding send
pause attempt = do _ ← send (sleep (50 * (attempt + 1))); pure tt

-- What a turn of a loop that returns a Bool decides: `some b` returns, `none` goes on.
abbrev pub or_next : Option Bool → Action History Bool → Action History Bool
or_next (some b) next = pure b
or_next none next = next

-- The `except` lines of `release_hold_safe`.
unfoldable pub release_failed : ℕ → ℕ → Error → Action History (Option Bool)
unfolding pause
release_failed attempt max_retries (gateway (upstream_error hold_not_found _)) = pure (some true)
release_failed attempt max_retries (gateway (upstream_error hold_conflict _)) = pure (some true)
release_failed attempt max_retries (gateway (gateway_timeout _)) =
    if leb max_retries attempt then pure (some false) else do pause attempt; pure none
release_failed attempt max_retries x = raise x

module _ (ihms : IhmsClient) (hold_id : String) (headers : ObservabilityHeaders) where
  release_attempt : ℕ → ℕ → Action History (Option Bool)
  release_attempt attempt max_retries =
      catch (do release_hold ihms hold_id headers; pure (some true))
        (release_failed attempt max_retries)

  release_loop : ℕ → ℕ → ℕ → Action History Bool
  release_loop zero attempt max_retries = pure false
  release_loop (suc rounds) attempt max_retries = do
    decided ← release_attempt attempt max_retries
    or_next decided (release_loop rounds (attempt + 1) max_retries)

  unfoldable pub release_hold_safe : ℕ → Action History Bool
  unfolding release_loop release_attempt
  release_hold_safe max_retries = release_loop (suc max_retries) 0 max_retries

-- The `except` lines of `fulfill_hold_safe`.
unfoldable pub fulfill_failed : ℕ → ℕ → Error → Action History (Option Bool)
unfolding pause
fulfill_failed attempt max_retries (gateway (upstream_error hold_not_found _)) = pure (some true)
fulfill_failed attempt max_retries (gateway (upstream_error hold_conflict _)) = pure (some true)
fulfill_failed attempt max_retries (gateway (gateway_timeout _)) =
    if leb max_retries attempt then pure (some false) else do pause attempt; pure none
fulfill_failed attempt max_retries (gateway _) = pure (some false)
fulfill_failed attempt max_retries x = raise x

module _ (ihms : IhmsClient) (hold_id : String) (headers : ObservabilityHeaders) where
  fulfill_attempt : ℕ → ℕ → Action History (Option Bool)
  fulfill_attempt attempt max_retries =
      catch (do _ ← fulfill_hold ihms hold_id headers; pure (some true))
        (fulfill_failed attempt max_retries)

  fulfill_loop : ℕ → ℕ → ℕ → Action History Bool
  fulfill_loop zero attempt max_retries = pure false
  fulfill_loop (suc rounds) attempt max_retries = do
    decided ← fulfill_attempt attempt max_retries
    or_next decided (fulfill_loop rounds (attempt + 1) max_retries)

  unfoldable pub fulfill_hold_safe : ℕ → Action History Bool
  unfolding fulfill_loop fulfill_attempt
  fulfill_hold_safe max_retries = fulfill_loop (suc max_retries) 0 max_retries

-- The answer of one turn of `find_order_by_reference`: an order, no order, or a timeout.
pub data Lookup : Type 0 where
  found : OrderResponse → Lookup
  missing : Lookup
  timed_out : GatewayError → Lookup

abbrev pub looked_up : Option OrderResponse → Lookup
looked_up none = missing
looked_up (some o) = found o

-- `except GatewayTimeoutError`, which re-raises on the last attempt.
unfoldable pub lookup_failed : ℕ → ℕ → Error → Action History Lookup
lookup_failed attempt max_retries (gateway (gateway_timeout s)) =
    if leb max_retries attempt
    then raise (gateway (gateway_timeout s))
    else pure (timed_out (gateway_timeout s))
lookup_failed attempt max_retries x = raise x

abbrev pub last_timeout : Lookup → Option GatewayError
last_timeout (timed_out x) = some x
last_timeout _ = none

abbrev raise_last : Option GatewayError → Action History (Option OrderResponse)
raise_last none = pure none
raise_last (some x) = raise (gateway x)

module _ (ecops : EcOpsClient) (client_reference : String) (headers : ObservabilityHeaders) where
  find_attempt : ℕ → ℕ → Action History Lookup
  find_attempt attempt max_retries =
      catch
        (do
          order ← find_order_by_client_reference ecops client_reference headers
          pure (looked_up order))
        (lookup_failed attempt max_retries)

  -- The rest of a turn, and the turns after it.
  abbrev after_lookup :
      Lookup
      → Action History (Unit {0})
      → Action History (Option OrderResponse)
      → Action History (Option OrderResponse)
  after_lookup (found o) wait next = pure (some o)
  after_lookup missing wait next = do wait; next
  after_lookup (timed_out x) wait next = do wait; next

  find_loop : ℕ → ℕ → ℕ → Option GatewayError → Action History (Option OrderResponse)
  find_loop zero attempt max_retries last = raise_last last
  find_loop (suc rounds) attempt max_retries last = do
    answer ← find_attempt attempt max_retries
    after_lookup answer (if ltb attempt max_retries then pause attempt else pure tt)
        (find_loop rounds (attempt + 1) max_retries (last_timeout answer))

  unfoldable pub find_order_by_reference : ℕ → Action History (Option OrderResponse)
  unfolding find_loop find_attempt
  find_order_by_reference max_retries = find_loop (suc max_retries) 0 max_retries none
