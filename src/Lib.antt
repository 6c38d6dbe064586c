-- ===== src/Lib.antt =====
-- The checkout orchestrator between IHMS, which holds stock, and ecOps, which takes orders.
--
-- The program. A checkout session (src/session/models.py) is kept in a store with a lock for each
-- session (src/session/store.py). The saga coordinator (src/saga/coordinator.py) moves it through its
-- states: `place_hold` reserves stock in IHMS, `confirm` looks for an order with the session's
-- reference in ecOps, posts one if there is none and finalises the hold, `place_order` does both, and
-- `abandon` releases the hold. The retry loops are in src/saga/steps/, the cache of confirm responses
-- in src/saga/idempotency.py, the HTTP clients in src/gateway/, the catalogs in src/catalog/, and the
-- counters in src/observability/. The routes (src/api/) call the checkout service
-- (src/checkout/service.py), which refreshes the catalog and calls the coordinator. For tests of the
-- whole, docker/mock-upstreams/ has stand-ins for IHMS and ecOps.
--
-- The files.
--   Prelude: library names, tests on numbers, dicts as association lists (Prelude/Assoc), strings,
--     integers (Prelude/Int), and the texts of numbers and UUIDs (Prelude/Numerals).
--   Session/Models, Session/Store: src/session/models.py and store.py.
--   Gateway/Models: the models of src/gateway/ihms_models.py, ecops_models.py and headers.py, the calls
--     that leave the process (`Call`) and what answers them (`Env`).
--   Gateway/Errors: src/gateway/exceptions.py and src/saga/exceptions.py, one constructor for a class.
--   Gateway/Http, Gateway/Ihms, Gateway/Ecops: src/gateway/http_utils.py, ihms_client.py, ecops_client.py.
--   Effect: a method is an `Action`, a function of an `Env` and a state that returns a `Result` beside
--     the new state, so that what was written before a raise stays written.
--   Catalog/Provider, Catalog/Inventory, Catalog/Caches, Catalog/Live: src/catalog/provider.py with
--     product_metadata.py and ecops_mapping.py, inventory.py, ihms_cache.py with ihms_inventory.py, and
--     ihms_live.py.
--   Observability/Metrics: src/observability/metrics.py and the record functions of saga_events.py.
--   Saga/Idempotency, Saga/Steps: src/saga/idempotency.py and src/saga/steps/.
--   Saga/World: the objects that a `SagaCoordinator` holds, as one state.
--   Saga/Coordinator/: src/saga/coordinator.py. Hold has `place_hold`, Creation the order payload and
--     `_create_order_with_retry`, Outcomes the endings that the methods share (`_finalize_success_locked`,
--     `_complete_order_after_create_locked`, `_retry_fulfill_pending_locked`,
--     `_compensate_and_fail_locked`), Confirm has `confirm`, `abandon`, `validate_hold_active` and
--     `_resolve_existing_order_attempt_locked`, and PlaceOrder has `place_order`.
--   Saga/Machine and its children: the state machine that the coordinator implements, as a step relation
--     on the store, with its invariant. Saga/Leads and Saga/Refines: the methods against that machine.
--   Saga/Threads: requests as threads of segments between the points where they wait for a session's
--     lock. Threads/Kept and Threads/Posts have any interleaving of them, Threads/Alone a thread that is
--     not interrupted.
--   Saga/Posts, Saga/Steps/Posts and Effect/Counting: the orders that are posted. Saga/Confirms,
--     with Saga/Confirms/Answers: the successful confirm. Saga/Replay: repeated requests.
--   Saga/Released and Saga/Settled, with Saga/Steps/Release, Settle, Fulfil and Rounds: the answers of
--     IHMS about a hold that is given up or finalised, and the retries.
--   Saga/Coordinator/Hold/Quantities and Stock: the cart of `place_hold`. Catalog/Inventory/Agree: list
--     and detail of the catalog.
--   Checkout/Settings, Checkout/State, Checkout/Service: src/settings.py and src/checkout/service.py.
--     Checkout/Growing and Checkout/Kept, with Saga/Machine/Grows: what each method does to the store.
--     Checkout/Startup: the service that src/api/app.py builds, with src/gateway/factory.py.
--     Checkout/Degrades: the catalog while IHMS fails.
--   Observability/Context, Observability/Logging: src/observability/context.py and the context fields of
--     logging.py.
--   Api/Errors, Api/Models, Api/Middleware, Api/Routes: src/api/errors.py, routes.py (its models and its
--     routes) and middleware.py. Api/Kept and Api/Serve: what sequences of requests do to the store.
--     Api/Orders: what the routes that place an order answer. Api/Traced: what the middleware adds.
--   Mocks/Ihms, Mocks/Ihms/Products: docker/mock-upstreams/ihms/app.py. Mocks/Ihms/Stock and Reserve have
--     its loops over the stock, Account and Kept its handlers, Requests and Runs sequences of requests.
--   Mocks/Ecops: docker/mock-upstreams/ecops/app.py. Runs has sequences of requests, Accepted what is
--     seen of an accepted order.
--   Saga/Tests: a small shop, and the theorems at work on it; Saga/Tests/Unreachable has a shop whose
--     upstream services time out. Api/Tests uses the small shop too;
--     Checkout/Tests, Mocks/Ihms/Tests and Mocks/Ecops/Tests have their own.
--
-- How the outside is modelled. httpx, pydantic, the clock and uuid4 are not in the repository. They are
-- the functions of an `Env`, which every action takes: the reply to a call, the time and the next UUID,
-- each an arbitrary function of everything that was called before, so that a theorem for every `Env` is
-- one for every behaviour of the upstream services, timeouts and malformed bodies included. A response
-- that fails validation raises `validation_failure`, which no handler of the saga catches.
--
-- Bounds. The retry loops recur on the rounds that are left, `max_retries + 1` as in the `for` loops of
-- the source; there is no other fuel. Numbers are unbounded as in Python; available quantities, which
-- may be negative, are ℤ.
--
-- In the mocks, what uuid4 and the clock answer comes with the request, and the SHA-256 of a body is a
-- parameter of the handlers.
--
-- Not modelled: log lines, the wording of most messages, the reading of JSON files, the decoding of
-- HTTP bodies beyond what the clients rely on, the route /health/upstreams, which opens HTTP clients of
-- its own, the pools of httpx, and the wiring of FastAPI. What runs under a session's lock is one
-- action, also where it waits for an upstream service. What runs meanwhile is not modelled: requests of
-- other sessions, and the code of the same session that takes no lock, which is the part of
-- `place_order` that answers a repeated key (it saves the session) and the part of `place_hold` before
-- its lock (it only reads). A UUID is a number. A price is the decimal that Python prints for it, a
-- finite one; it is copied and compared with zero.
pub mod Prelude
pub mod Session
pub mod Gateway
pub mod Effect
pub mod Catalog
pub mod Observability
pub mod Saga
pub mod Checkout
pub mod Api
pub mod Mocks
