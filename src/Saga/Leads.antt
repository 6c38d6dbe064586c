-- ===== src/Saga/Leads.antt =====
-- What an action of the saga can make of the store, whatever the outside answers: one rule for each
-- way to build an action.
use ihms_oms.Prelude.{◌≡◌, refl, String, Bool, true, false, Option, none, some, if◌then◌else◌}
use ihms_oms.Session.Models.{Uuid, CheckoutSession}
use ihms_oms.Session.Store
use ihms_oms.Gateway.Models.{History, Env}
use ihms_oms.Gateway.Errors.{session_not_found, Error, saga, Result, ok, err}
use ihms_oms.Observability.Metrics.{MetricsRegistry}
use ihms_oms.Effect.{
  Action, pure, raise, gets, raise_if, lift_result, continue, recover, ◌>>=◌, ◌>>◌, catch,
}
use ihms_oms.Saga.Idempotency
use ihms_oms.Saga.Idempotency.{IdempotencyRecord}
use ihms_oms.Saga.World.{
  SagaStore, World, M, external, require_session, store_session, session_save, store_record,
  idempotency_get, idempotency_put, count_metric,
}

abbrev pub in_store : SagaStore → World → World
in_store st w = record w { store = st }

-- How an action ends from a store: `Q` holds of its value or exception and of the store it leaves.
pub record Leads {A : Type 0} (st : SagaStore) (m : M A) (Q : Result A → SagaStore → Type 0)
    : Type 0 where
  pub at : (e : Env) (w : World) → Q (m e (in_store st w)).0 (m e (in_store st w)).1.store

module _ {A : Type 0} {st : SagaStore} {Q : Result A → SagaStore → Type 0} where
  pub Leads-pure : (a : A) → Q (ok a) st → Leads st (pure a) Q
  unfolding pure
  Leads-pure a q = record { at = λ e w. q }

  pub Leads-raise : (x : Error) → Q (err x) st → Leads st (raise x) Q
  unfolding raise
  Leads-raise x q = record { at = λ e w. q }

  pub Leads-external :
      (m : World → Action History A) → ((r : Result A) → Q r st) → Leads st (external m) Q
  unfolding external
  Leads-external m q = record { at = λ e w. q (m (in_store st w) e w.history).0 }

  pub Leads-if :
      (b : Bool) (m n : M A)
      → (b ≡ true → Leads st m Q)
      → (b ≡ false → Leads st n Q)
      → Leads st (if b then m else n) Q
  Leads-if true m n lm ln = lm refl
  Leads-if false m n lm ln = ln refl

  pub Leads-weaken :
      {R : Result A → SagaStore → Type 0} (m : M A)
      → ((r : Result A) (st' : SagaStore) → R r st' → Q r st')
      → Leads st m R
      → Leads st m Q
  Leads-weaken m weaken lm = record { at = λ e w. weaken _ _ (lm.at e w) }

module _ {A B : Type 0} {Q : Result B → SagaStore → Type 0} where
  continue_at :
      (R : Result A → SagaStore → Type 0) (f : A → M B)
      → ((a : A) (st' : SagaStore) → R (ok a) st' → Leads st' (f a) Q)
      → ((x : Error) (st' : SagaStore) → R (err x) st' → Q (err x) st')
      → (e : Env) (r : Result A) (w : World) → R r w.store
      → Q (continue r f e w).0 (continue r f e w).1.store
  continue_at R f lf lx e (ok a) w h = (lf a w.store h).at e w
  continue_at R f lf lx e (err x) w h = lx x w.store h

module _ {A B : Type 0} {st : SagaStore} {Q : Result B → SagaStore → Type 0} where
  pub Leads-bind :
      (R : Result A → SagaStore → Type 0) (m : M A) (f : A → M B)
      → Leads st m R
      → ((a : A) (st' : SagaStore) → R (ok a) st' → Leads st' (f a) Q)
      → ((x : Error) (st' : SagaStore) → R (err x) st' → Q (err x) st')
      → Leads st (m >>= f) Q
  unfolding ◌>>=◌
  Leads-bind R m f lm lf lx = record {
    at = λ e w. continue_at R f lf lx e (m e (in_store st w)).0 (m e (in_store st w)).1 (lm.at e w);
  }

  -- Most actions read the store, or talk to the outside: they leave the store as it is.
  pub Leads-then :
      (m : M A) (f : A → M B)
      → Leads st m (λ r st'. st' ≡ st)
      → ((a : A) → Leads st (f a) Q)
      → ((x : Error) → Q (err x) st)
      → Leads st (m >>= f) Q
  Leads-then m f lm lf lx =
      Leads-bind _ m f lm (λ a st' same. rw same (lf a)) (λ x st' same. rw same (lx x))

  pub Leads-lift_result :
      (r : Result A) (f : A → M B)
      → ((a : A) → r ≡ ok a → Leads st (f a) Q)
      → ((x : Error) → Q (err x) st)
      → Leads st (lift_result r >>= f) Q
  unfolding ◌>>=◌
  Leads-lift_result (ok a) f lf lx = record { at = (lf a refl).at }
  Leads-lift_result (err x) f lf lx = record { at = λ e w. lx x }

module _ {B : Type 0} {st : SagaStore} {Q : Result B → SagaStore → Type 0} where
  pub Leads-raise_if :
      (b : Bool) (x : Error) (k : M B)
      → (b ≡ true → Q (err x) st)
      → (b ≡ false → Leads st k Q)
      → Leads st (raise_if b x >> k) Q
  unfolding ◌>>=◌
  Leads-raise_if true x k lx lk = record { at = λ e w. lx refl }
  Leads-raise_if false x k lx lk = record { at = (lk refl).at }

  require_at :
      (session_id : Uuid) (f : CheckoutSession → M B) (o : Option CheckoutSession)
      → Store.get session_id st.sessions ≡ o
      → Q (err (saga session_not_found)) st
      → ((s : CheckoutSession) → o ≡ some s → Leads st (f s) Q)
      → Leads st (require_session session_id >>= f) Q
  unfolding ◌>>=◌ require_session
  require_at session_id f none h q lf = record { at = λ e w. rw h q }
  require_at session_id f (some s) h q lf = record { at = λ e w. rw h ((lf s refl).at e w) }

  pub Leads-require :
      (session_id : Uuid) (f : CheckoutSession → M B)
      → Q (err (saga session_not_found)) st
      → ((s : CheckoutSession) → Store.get session_id st.sessions ≡ some s → Leads st (f s) Q)
      → Leads st (require_session session_id >>= f) Q
  Leads-require session_id f = require_at session_id f (Store.get session_id st.sessions) refl

  pub Leads-cached :
      (session_id : Uuid) (key : String) (f : Option IdempotencyRecord → M B)
      → Leads st (f (Idempotency.get session_id key st.idempotency)) Q
      → Leads st (idempotency_get session_id key >>= f) Q
  unfolding ◌>>=◌ idempotency_get
  Leads-cached session_id key f lf = record { at = λ e w. lf.at e w }

  pub Leads-gets :
      {A : Type 0} (g : World → A) (f : A → M B)
      → ((a : A) → Leads st (f a) Q)
      → Leads st (gets g >>= f) Q
  unfolding ◌>>=◌
  Leads-gets g f lf = record { at = λ e w. (lf (g (in_store st w))).at e w }

  pub Leads-save :
      (s : CheckoutSession) (f : CheckoutSession → M B)
      → Leads (store_session s st) (f s) Q
      → Leads st (session_save s >>= f) Q
  unfolding ◌>>=◌ session_save
  Leads-save s f lf = record { at = λ e w. lf.at e w }

  pub Leads-put :
      (session_id : Uuid) (key : String) (r : IdempotencyRecord) (k : M B)
      → Leads (store_record session_id key r st) k Q
      → Leads st (idempotency_put session_id key r >> k) Q
  unfolding ◌>>=◌ idempotency_put
  Leads-put session_id key r k lk = record { at = λ e w. lk.at e w }

  pub Leads-count :
      (f : MetricsRegistry → MetricsRegistry) (k : M B)
      → Leads st k Q
      → Leads st (count_metric f >> k) Q
  unfolding ◌>>=◌ count_metric
  Leads-count f k lk = record { at = λ e w. lk.at e (record w { metrics = f w.metrics }) }

module _ {A : Type 0} {Q : Result A → SagaStore → Type 0} where
  recover_at :
      (R : Result A → SagaStore → Type 0) (h : Error → M A)
      → ((a : A) (st' : SagaStore) → R (ok a) st' → Q (ok a) st')
      → ((x : Error) (st' : SagaStore) → R (err x) st' → Leads st' (h x) Q)
      → (e : Env) (r : Result A) (w : World) → R r w.store
      → Q (recover r h e w).0 (recover r h e w).1.store
  recover_at R h la lh e (ok a) w p = la a w.store p
  recover_at R h la lh e (err x) w p = (lh x w.store p).at e w

module _ {A : Type 0} {st : SagaStore} {Q : Result A → SagaStore → Type 0} where
  pub Leads-catch :
      (R : Result A → SagaStore → Type 0) (m : M A) (h : Error → M A)
      → Leads st m R
      → ((a : A) (st' : SagaStore) → R (ok a) st' → Q (ok a) st')
      → ((x : Error) (st' : SagaStore) → R (err x) st' → Leads st' (h x) Q)
      → Leads st (catch m h) Q
  unfolding catch
  Leads-catch R m h lm la lh = record {
    at = λ e w. recover_at R h la lh e (m e (in_store st w)).0 (m e (in_store st w)).1 (lm.at e w);
  }

-- The rules for a save and a count that end an action.
module _ {st : SagaStore} where
  pub Leads-save_last :
      {Q : Result CheckoutSession → SagaStore → Type 0} (s : CheckoutSession)
      → Q (ok s) (store_session s st)
      → Leads st (session_save s) Q
  unfolding session_save
  Leads-save_last s q = record { at = λ e w. q }

  pub Leads-count_last :
      {Q : Result (Unit {0}) → SagaStore → Type 0} (f : MetricsRegistry → MetricsRegistry)
      → Q (ok tt) st
      → Leads st (count_metric f) Q
  unfolding count_metric
  Leads-count_last f q = record { at = λ e w. q }
