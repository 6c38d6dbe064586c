-- ===== src/Checkout/Growing.antt =====
-- Actions of the checkout service that keep the store consistent and its sessions' orders: one rule for
-- each way to build an action.
use ihms_oms.Prelude.{◌≡◌, refl, subst, sym, Bool, true, false, if◌then◌else◌}
use ihms_oms.Gateway.Models.{History, Env}
use ihms_oms.Gateway.Errors.{Error, Result, ok, err}
use ihms_oms.Effect.{Action, pure, raise, gets, modify, raise_if, continue, recover, ◌>>=◌, catch}
use ihms_oms.Catalog.Live.{IhmsLiveCatalog, LiveWorld}
use ihms_oms.Saga.World.{World, M}
use ihms_oms.Saga.Machine.Consistent.{IsConsistent}
use ihms_oms.Saga.Machine.Grows.{Grows, Grows-refl, Grows-trans}
use ihms_oms.Checkout.State.{CheckoutService, S, on_world, on_live, on_gateway}

-- From a consistent store, whether the action returns or raises.
pub record Growing {A : Type 0} (m : S A) : Type 0 where
  pub at :
      (e : Env) (s : CheckoutService)
      → IsConsistent s.world.store
      → Grows s.world.store (m e s).1.world.store

module _ {A : Type 0} where
  -- An action that leaves the store as it was.
  pub Growing-same :
      (m : S A)
      → ((e : Env) (s : CheckoutService) → (m e s).1.world.store ≡ s.world.store)
      → Growing m
  Growing-same m same = record {
    at = λ e s good. subst (λ st. Grows s.world.store st) (sym (same e s)) (Grows-refl good);
  }

  pub Growing-pure : (a : A) → Growing (pure a)
  unfolding pure
  Growing-pure a = Growing-same (pure a) (λ e s. refl)

  pub Growing-raise : (x : Error) → Growing (raise {A = A} x)
  unfolding raise
  Growing-raise x = Growing-same (raise x) (λ e s. refl)

  pub Growing-gets : (g : CheckoutService → A) → Growing (gets g)
  unfolding gets
  Growing-gets g = Growing-same (gets g) (λ e s. refl)

  pub Growing-if : (b : Bool) (m n : S A) → Growing m → Growing n → Growing (if b then m else n)
  Growing-if true m n gm gn = gm
  Growing-if false m n gm gn = gn

  pub Growing-on_gateway : (m : Action History A) → Growing (on_gateway m)
  unfolding on_gateway
  Growing-on_gateway m = Growing-same (on_gateway m) (λ e s. refl)

  pub Growing-on_live : (live : IhmsLiveCatalog) (m : Action LiveWorld A) → Growing (on_live live m)
  unfolding on_live
  Growing-on_live live m = Growing-same (on_live live m) (λ e s. refl)

  pub Growing-on_world :
      (m : M A)
      → ((e : Env) (w : World) → IsConsistent w.store → Grows w.store (m e w).1.store)
      → Growing (on_world m)
  unfolding on_world
  Growing-on_world m g = record { at = λ e s good. g e s.world good }

  -- A method that reads the state before it acts on it.
  pub Growing-reading :
      (m : CheckoutService → S A)
      → ((s : CheckoutService) → Growing (m s))
      → Growing (λ e s. m s e s)
  Growing-reading m g = record { at = λ e s good. (g s).at e s good }

pub Growing-raise_if : (b : Bool) (x : Error) → Growing (raise_if b x)
unfolding raise_if
Growing-raise_if b x = Growing-same (raise_if b x) (λ e s. refl)

pub Growing-modify :
    (f : CheckoutService → CheckoutService)
    → ((s : CheckoutService) → (f s).world.store ≡ s.world.store)
    → Growing (modify f)
unfolding modify
Growing-modify f same = Growing-same (modify f) (λ e s. same s)

module _ {A B : Type 0} where
  continue-Grows :
      (k : A → S B)
      → ((a : A) → Growing (k a))
      → (r : Result A) (e : Env) (s : CheckoutService) → IsConsistent s.world.store
      → Grows s.world.store (continue r k e s).1.world.store
  continue-Grows k g (ok a) e s good = (g a).at e s good
  continue-Grows k g (err x) e s good = Grows-refl good

  pub Growing-bind :
      (m : S A) (k : A → S B) → Growing m → ((a : A) → Growing (k a)) → Growing (m >>= k)
  unfolding ◌>>=◌
  Growing-bind m k gm gk = record {
    at = λ e s good.
        let first = gm.at e s good in
        Grows-trans first (continue-Grows k gk (m e s).0 e (m e s).1 first.consistent);
  }

module _ {A : Type 0} where
  recover-Grows :
      (h : Error → S A)
      → ((x : Error) → Growing (h x))
      → (r : Result A) (e : Env) (s : CheckoutService) → IsConsistent s.world.store
      → Grows s.world.store (recover r h e s).1.world.store
  recover-Grows h g (ok a) e s good = Grows-refl good
  recover-Grows h g (err x) e s good = (g x).at e s good

  pub Growing-catch :
      (m : S A) (h : Error → S A) → Growing m → ((x : Error) → Growing (h x)) → Growing (catch m h)
  unfolding catch
  Growing-catch m h gm gh = record {
    at = λ e s good.
        let first = gm.at e s good in
        Grows-trans first (recover-Grows h gh (m e s).0 e (m e s).1 first.consistent);
  }
