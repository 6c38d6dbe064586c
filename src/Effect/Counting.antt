-- ===== src/Effect/Counting.antt =====
-- How often an action makes a kind of call: `f` counts in the state, and an action adds nothing, or
-- at most one.
use ihms_oms.Prelude.{
  ℕ, ◌+◌, ◌≤◌, ◌≡◌, Bool, true, false, Option, none, some, [], ◌∷◌, arith, if◌then◌else◌,
}
use ihms_oms.Gateway.Models.{Call, History, Env}
use ihms_oms.Gateway.Errors.{Error, Result, ok, err}
use ihms_oms.Effect.{
  Action, pure, raise, gets, raise_if, or_raise, lift_result, continue, recover, ◌>>=◌, catch, send,
}

abbrev pub count : (Call → Bool) → History → ℕ
count p [] = 0
count p (c ∷ h) = if p c then count p h + 1 else count p h

module _ {S A : Type 0} where
  pub record Quiet (f : S → ℕ) (m : Action S A) : Type 0 where
    pub at : (e : Env) (s : S) → f (m e s).1 ≤ f s

  pub record Once (f : S → ℕ) (m : Action S A) : Type 0 where
    pub at : (e : Env) (s : S) → f (m e s).1 ≤ f s + 1

module _ {S A : Type 0} {f : S → ℕ} where
  pub Quiet-Once : (m : Action S A) → Quiet f m → Once f m
  Quiet-Once m q = record { at = λ e s. omega (arith, q.at e s) }

  pub Quiet-pure : (a : A) → Quiet f (pure a)
  unfolding pure
  Quiet-pure a = record { at = λ e s. omega arith }

  pub Quiet-raise : (x : Error) → Quiet f (raise {A = A} x)
  unfolding raise
  Quiet-raise x = record { at = λ e s. omega arith }

  pub Quiet-gets : (g : S → A) → Quiet f (gets g)
  unfolding gets
  Quiet-gets g = record { at = λ e s. omega arith }

  pub Quiet-lift_result : (r : Result A) → Quiet f (lift_result r)
  unfolding lift_result
  Quiet-lift_result r = record { at = λ e s. omega arith }

  pub Quiet-or_raise : (o : Option A) (x : Error) → Quiet f (or_raise o x)
  unfolding or_raise
  Quiet-or_raise none x = record { at = λ e s. omega arith }
  Quiet-or_raise (some a) x = record { at = λ e s. omega arith }

  pub Quiet-if :
      (b : Bool) (m n : Action S A) → Quiet f m → Quiet f n → Quiet f (if b then m else n)
  Quiet-if true m n qm qn = qm
  Quiet-if false m n qm qn = qn

  pub Once-if : (b : Bool) (m n : Action S A) → Once f m → Once f n → Once f (if b then m else n)
  Once-if true m n qm qn = qm
  Once-if false m n qm qn = qn

module _ {S : Type 0} {f : S → ℕ} where
  pub Quiet-raise_if : (b : Bool) (x : Error) → Quiet f (raise_if b x)
  unfolding raise_if
  Quiet-raise_if b x = record { at = λ e s. omega arith }

module _ {S A B : Type 0} (f : S → ℕ) where
  continue-adds :
      (n : ℕ) (k : A → Action S B)
      → ((a : A) (e : Env) (s : S) → f (k a e s).1 ≤ f s + n)
      → (r : Result A) (e : Env) (s : S) → f (continue r k e s).1 ≤ f s + n
  continue-adds n k h (ok a) e s = h a e s
  continue-adds n k h (err x) e s = omega arith

module _ {S A B : Type 0} (f : S → ℕ) where
  pub bind-adds :
      (i j : ℕ) (m : Action S A) (k : A → Action S B)
      → ((e : Env) (s : S) → f (m e s).1 ≤ f s + i)
      → ((a : A) (e : Env) (s : S) → f (k a e s).1 ≤ f s + j)
      → (e : Env) (s : S) → f ((m >>= k) e s).1 ≤ f s + (i + j)
  unfolding ◌>>=◌
  bind-adds i j m k hm hk e s =
      let h = continue-adds f j k hk (m e s).0 e (m e s).1 in omega (arith, h, hm e s)

module _ {S A B : Type 0} {f : S → ℕ} where
  pub Quiet-bind :
      (m : Action S A) (k : A → Action S B)
      → Quiet f m
      → ((a : A) → Quiet f (k a))
      → Quiet f (m >>= k)
  unfolding ◌>>=◌
  Quiet-bind m k qm qk = record {
    at = λ e s.
        let h =
          continue-adds f 0 k (λ a e' s'. omega (arith, (qk a).at e' s')) (m e s).0 e (m e s).1 in
        omega (arith, h, qm.at e s);
  }

  pub Once-bind_last :
      (m : Action S A) (k : A → Action S B)
      → Quiet f m
      → ((a : A) → Once f (k a))
      → Once f (m >>= k)
  unfolding ◌>>=◌
  Once-bind_last m k qm ol = record {
    at = λ e s.
        let h = continue-adds f 1 k (λ a e' s'. (ol a).at e' s') (m e s).0 e (m e s).1 in
        omega (arith, h, qm.at e s);
  }

  pub Once-bind_first :
      (m : Action S A) (k : A → Action S B)
      → Once f m
      → ((a : A) → Quiet f (k a))
      → Once f (m >>= k)
  unfolding ◌>>=◌
  Once-bind_first m k om qk = record {
    at = λ e s.
        let h =
          continue-adds f 0 k (λ a e' s'. omega (arith, (qk a).at e' s')) (m e s).0 e (m e s).1 in
        omega (arith, h, om.at e s);
  }

module _ {S A : Type 0} (f : S → ℕ) where
  recover-adds :
      (k : Error → Action S A)
      → ((x : Error) → Quiet f (k x))
      → (r : Result A) (e : Env) (s : S) → f (recover r k e s).1 ≤ f s
  recover-adds k h (ok a) e s = omega arith
  recover-adds k h (err x) e s = (h x).at e s

module _ {S A : Type 0} {f : S → ℕ} where
  pub Quiet-catch :
      (m : Action S A) (k : Error → Action S A)
      → Quiet f m
      → ((x : Error) → Quiet f (k x))
      → Quiet f (catch m k)
  unfolding catch
  Quiet-catch m k qm qk = record {
    at = λ e s. omega (arith, recover-adds f k qk (m e s).0 e (m e s).1, qm.at e s);
  }

  pub Once-catch :
      (m : Action S A) (k : Error → Action S A)
      → Once f m
      → ((x : Error) → Quiet f (k x))
      → Once f (catch m k)
  unfolding catch
  Once-catch m k om qk = record {
    at = λ e s. omega (arith, recover-adds f k qk (m e s).0 e (m e s).1, om.at e s);
  }

pub Quiet-send : (p : Call → Bool) (c : Call) → p c ≡ false → Quiet (count p) (send c)
unfolding send
Quiet-send p c h = record { at = λ e s. ground arith }

pub Once-send : (p : Call → Bool) (c : Call) → Once (count p) (send c)
unfolding send
Once-send p c = record { at = λ e s. ground arith }

pub ruleset quiet_rules = (
  Quiet-pure, Quiet-raise, Quiet-gets, Quiet-lift_result, Quiet-or_raise, Quiet-raise_if, Quiet-if,
  Quiet-bind, Quiet-catch,
)
