-- ===== src/Saga/Machine/Consistent.antt =====
-- What holds of the store between requests: sessions stand under their ids, their fields fit their
-- state, and a response is cached exactly for the sessions that have an order.
use ihms_oms.Prelude.{
  String, ◌≡◌, sym, ap, subst, Bool, true, false, not, ◌&&◌, Option, some, [], ◌∷◌, Dict, arith,
  DictKey, lookup, insert, nat_eq, pair_eq, truthy?,
}
use ihms_oms.Session.Models.{
  Uuid, SessionState, created, held, fulfill_pending, confirmed, abandoned, compensated, reconciled,
  CheckoutSession,
}
use ihms_oms.Session.Store
use ihms_oms.Saga.Idempotency
use ihms_oms.Saga.Idempotency.{IdempotencyRecord}
use ihms_oms.Saga.World.{SagaStore, store_session}
use ihms_oms.Saga.Coordinator.Outcomes.{is_some, confirm_record, cached_update}
use ihms_oms.Saga.Machine.{Stored, Cached}

-- The states of a session whose order was placed.
abbrev pub has_order : SessionState → Bool
has_order fulfill_pending = true
has_order confirmed = true
has_order reconciled = true
has_order _ = false

-- Which optional fields a state has: order, hold and key.
abbrev pub fits : SessionState → Option Uuid → Option String → Option String → Bool
fits created o h k = not (is_some o) && not (is_some h) && not (is_some k)
fits held o h k = not (is_some o) && is_some h
fits fulfill_pending o h k = is_some o && truthy? h && is_some k
fits confirmed o h k = is_some o && is_some k
fits reconciled o h k = is_some o && is_some k
fits abandoned o h k = not (is_some o)
fits compensated o h k = not (is_some o) && not (is_some k)

-- The state, key and record of a session whose order was placed.
pub record OrderCached (st : SagaStore) (session_id : Uuid) (s : CheckoutSession) (key : String)
    : Type 0 where
  pub has_key : s.idempotency_key ≡ some key
  pub placed : has_order s.state ≡ true
  pub cached : Cached st session_id key (confirm_record s)

pub record IsConsistent (st : SagaStore) : Type 0 where
  pub keyed : (i : Uuid) (s : CheckoutSession) → Stored st i s → s.session_id ≡ i
  pub fitting :
      (i : Uuid) (s : CheckoutSession)
      → Stored st i s
      → fits s.state s.order_id s.hold_id s.idempotency_key ≡ true
  pub order_cached :
      (i : Uuid) (s : CheckoutSession)
      → Stored st i s
      → has_order s.state ≡ true
      → (key : String) × OrderCached st i s key
  pub cache_backed :
      (i : Uuid) (key : String) (r : IdempotencyRecord)
      → Cached st i key r
      → (s : CheckoutSession) × Stored st i s × (r ≡ confirm_record s) × OrderCached st i s key

abbrev pub empty_store : SagaStore
empty_store = record { sessions = []; idempotency = [] }

pub empty_store-IsConsistent : IsConsistent empty_store
unfolding Store.get Idempotency.get lookup
empty_store-IsConsistent = record {
  keyed = λ i s h. cc;
  fitting = λ i s h. cc;
  order_cached = λ i s h. cc;
  cache_backed = λ i k r h. cc;
}

insert-lookup {ℓ κ} :
    {K : Type ℓ} {V : Type κ} ⦃e : DictKey K⦄ (k : K) (v : V) (d : Dict K V)
    → lookup k d ≡ some v
    → insert k v d ≡ d
unfolding lookup insert
insert-lookup k v [] h = cc
insert-lookup k v ((j, w) ∷ d) h = ground (arith, insert-lookup k v d)

-- Two sessions that are stored under one id are one.
pub Stored-unique :
    (st : SagaStore) (i : Uuid) (s t : CheckoutSession) → Stored st i s → Stored st i t → s ≡ t
Stored-unique st i s t p q = cc

-- A cached response tells what a session with its order holds already.
cached_update-confirm_record :
    (takes_over : SessionState → Bool) (s : CheckoutSession)
    → cached_update takes_over (confirm_record s) s ≡ s
cached_update-confirm_record takes_over s = ground arith

module _ {st : SagaStore} (good : IsConsistent st) (i : Uuid) (s : CheckoutSession) where
  -- Saving the stored session again changes nothing.
  pub store_session_same : Stored st i s → store_session s st ≡ st
  unfolding Store.save Store.get
  store_session_same stored =
      ap (λ d. record st { sessions = d })
        (insert-lookup s.session_id s st.sessions
          (subst (λ k. lookup k st.sessions ≡ some s) (sym (good.keyed i s stored)) stored))

  pub order_of_record :
      (key : String) (r : IdempotencyRecord)
      → Stored st i s
      → Cached st i key r
      → (r ≡ confirm_record s) × OrderCached st i s key
  order_of_record key r stored c =
      let (s', stored', same, oc) = good.cache_backed i key r c in
      let e : s' ≡ s = Stored-unique st i s' s stored' stored in (rw (← e) same, rw e at oc)

  pub cached_update_same :
      (takes_over : SessionState → Bool) (key : String) (r : IdempotencyRecord)
      → Stored st i s
      → Cached st i key r
      → cached_update takes_over r s ≡ s
  cached_update_same takes_over key r stored c =
      rw (order_of_record key r stored c).0 (cached_update-confirm_record takes_over s)
