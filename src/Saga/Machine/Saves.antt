-- ===== src/Saga/Machine/Saves.antt =====
-- How a save and a cached response show in the store.
use ihms_oms.Prelude.{
  String, ◌≡◌, ◌≢◌, sym, ◌⊎◌, inl, inr, arith, Bool-cases, nat_beq, nat_beq_iff, pair_beq,
  pair_beq_iff, lookup-insert, nat_eq, pair_eq,
}
use ihms_oms.Session.Models.{Uuid, CheckoutSession}
use ihms_oms.Session.Store
use ihms_oms.Saga.Idempotency
use ihms_oms.Saga.Idempotency.{IdempotencyRecord}
use ihms_oms.Saga.World.{SagaStore, store_session, store_record}
use ihms_oms.Saga.Machine.{Stored, Cached}

module _ (st : SagaStore) (s' : CheckoutSession) where
  pub Stored-save_self : Stored (store_session s' st) s'.session_id s'
  unfolding Store.get Store.save
  Stored-save_self = ground (
    arith,
    lookup-insert s'.session_id s'.session_id s' st.sessions,
    nat_beq_iff s'.session_id s'.session_id,
  )

  pub Stored-save_ne :
      (j : Uuid) (t : CheckoutSession)
      → j ≢ s'.session_id
      → Stored st j t
      → Stored (store_session s' st) j t
  unfolding Store.get Store.save
  Stored-save_ne j t ne h =
      ground (arith, lookup-insert s'.session_id j s' st.sessions, nat_beq_iff s'.session_id j)

  pub Stored-save_cases :
      (j : Uuid) (t : CheckoutSession)
      → Stored (store_session s' st) j t
      → ((j ≡ s'.session_id) × (t ≡ s')) ⊎ ((j ≢ s'.session_id) × Stored st j t)
  unfolding Store.get Store.save
  Stored-save_cases j t h = elim (Bool-cases (nat_beq s'.session_id j)) [
    | inl e ↦ inl (
      sym ((nat_beq_iff s'.session_id j).0 e),
      ground (arith, lookup-insert s'.session_id j s' st.sessions),
    )
    | inr e ↦ inr (
      ground (arith, nat_beq_iff s'.session_id j),
      ground (arith, lookup-insert s'.session_id j s' st.sessions),
    )
  ]

module _ (st : SagaStore) (i : Uuid) (key : String) (r : IdempotencyRecord) where
  pub Cached-record_self : Cached (store_record i key r st) i key r
  unfolding Idempotency.get Idempotency.put
  Cached-record_self =
      ground
        (arith, lookup-insert (i, key) (i, key) r st.idempotency, pair_beq_iff (i, key) (i, key))

  pub Cached-record_cases :
      (j : Uuid) (k : String) (r' : IdempotencyRecord)
      → Cached (store_record i key r st) j k r'
      → ((j ≡ i) × (k ≡ key) × (r' ≡ r)) ⊎ (((j ≡ i) → (k ≡ key) → ⊥) × Cached st j k r')
  unfolding Idempotency.get Idempotency.put
  Cached-record_cases j k r' h = elim (Bool-cases (pair_beq (i, key) (j, k))) [
    | inl e ↦ inl (
      ground (arith, pair_beq_iff (i, key) (j, k)),
      ground (arith, pair_beq_iff (i, key) (j, k)),
      ground (arith, lookup-insert (i, key) (j, k) r st.idempotency),
    )
    | inr e ↦ inr (
      λ ej ek. ground (arith, pair_beq_iff (i, key) (j, k)),
      ground (arith, lookup-insert (i, key) (j, k) r st.idempotency),
    )
  ]

  pub Cached-record_ne :
      (j : Uuid) (k : String) (r' : IdempotencyRecord)
      → j ≢ i
      → Cached st j k r'
      → Cached (store_record i key r st) j k r'
  unfolding Idempotency.get Idempotency.put
  Cached-record_ne j k r' ne h =
      ground (arith, lookup-insert (i, key) (j, k) r st.idempotency, pair_beq_iff (i, key) (j, k))
