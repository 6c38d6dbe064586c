-- ===== src/Effect.antt =====
-- Methods that mutate objects, call upstream services and may raise. What was written before a
-- raise stays written, so the state comes back beside the exception too.
pub mod Counting
use ihms_oms.Prelude.{Bool, Option, none, some, ◌∷◌, if◌then◌else◌}
use ihms_oms.Session.Models.{Uuid, Timestamp}
use ihms_oms.Gateway.Models.{Call, read_clock, draw_uuid, Reply, History, Env}
use ihms_oms.Gateway.Errors.{Error, Result, ok, err}

abbrev pub Action : Type 0 → Type 0 → Type 0
Action S A = Env → S → Result A × S

module _ {S A : Type 0} where
  unfoldable pub pure : A → Action S A
  pure a e s = (ok a, s)

  unfoldable pub raise : Error → Action S A
  raise x e s = (err x, s)

  unfoldable pub gets : (S → A) → Action S A
  gets f e s = (ok (f s), s)

module _ {S : Type 0} where
  unfoldable pub modify : (S → S) → Action S (Unit {0})
  modify f e s = (ok tt, f s)

-- `if b: raise x`
unfoldable pub raise_if : {S : Type 0} → Bool → Error → Action S (Unit {0})
raise_if b x e s = (if b then err x else ok tt, s)

-- `if o is None: raise x`
unfoldable pub or_raise : {S A : Type 0} → Option A → Error → Action S A
or_raise none x e s = (err x, s)
or_raise (some a) x e s = (ok a, s)

unfoldable pub lift_result : {S A : Type 0} → Result A → Action S A
lift_result r e s = (r, s)

module _ {S A B : Type 0} where
  abbrev pub continue : Result A → (A → Action S B) → Action S B
  continue (ok a) f e s = f a e s
  continue (err x) f e s = (err x, s)

  infixl 5 ◌>>=◌
  -- Opening this opens the ways to build an action, too.
  unfoldable pub ◌>>=◌ : Action S A → (A → Action S B) → Action S B
  unfolding pure raise gets modify raise_if or_raise lift_result
  ◌>>=◌ m f e s = let (r, s') = m e s in continue r f e s'

infixl 5 ◌>>◌
abbrev pub ◌>>◌ : {S B : Type 0} → Action S (Unit {0}) → Action S B → Action S B
m >> k = m >>= λ _. k

-- `try: m except: handler`, where the handler re-raises what its `except` lines do not name.
module _ {S A : Type 0} where
  abbrev pub recover : Result A → (Error → Action S A) → Action S A
  recover (ok a) h e s = (ok a, s)
  recover (err x) h e s = h x e s

  unfoldable pub catch : Action S A → (Error → Action S A) → Action S A
  catch m h e s = let (r, s') = m e s in recover r h e s'

-- What the process can do to the outside.
unfoldable pub send : Call → Action History Reply
send c e h = (ok (e.reply h c), c ∷ h)

unfoldable pub now : Action History Timestamp
now e h = (ok (e.now h), read_clock ∷ h)

unfoldable pub uuid4 : Action History Uuid
uuid4 e h = (ok (e.uuid4 h), draw_uuid ∷ h)
