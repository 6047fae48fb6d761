-- ===== src/Program.antt =====
-- A Go function that calls services: a tree of calls, each with what is done on every reply. An
-- error that a function returns ends it, unless the caller looks at it (`attempt`).
pub mod Ensures
pub mod Quiet
pub mod Issues
pub mod Schedule
pub mod Shared
pub mod Succeeds
pub mod Aside
pub mod Runs
use delayed_wallet_transacti.Prelude.{Bool, Option, none, some, if◌then◌else◌}
use delayed_wallet_transacti.Errors.{Error, Fault, message, wrap, aws}
use delayed_wallet_transacti.Service.{Call, Reply, Outcome, done, fault, Service}

-- `(a, nil)` or `(zero, err)`
pub data Result (A : Type 0) : Type 0 where
  ok : A → Result A
  err : Error → Result A

pub data Program (A : Type 0) : Type 0 where
  pure : A → Program A
  throw : Error → Program A
  call : (c : Call) → (Reply c → Program A) → Program A

infixl 5 ◌>>=◌ ◌>>◌
unfoldable pub ◌>>=◌ : {A B : Type 0} → Program A → (A → Program B) → Program B
pure a >>= f = f a
throw e >>= f = throw e
call c k >>= f = call c (λ r. k r >>= f)

abbrev pub ◌>>◌ : {B : Type 0} → Program (Unit {0}) → Program B → Program B
p >> q = p >>= λ _. q

-- `a, err := p`, with both in hand.
unfoldable pub attempt : {A : Type 0} → Program A → Program (Result A)
attempt (pure a) = pure (ok a)
attempt (throw e) = pure (err e)
attempt (call c k) = call c (λ r. attempt (k r))

-- `if err != nil { return fmt.Errorf("…: %w", err) }`
unfoldable pub wrapping : {A : Type 0} → (Error → Error) → Program A → Program A
wrapping f (pure a) = pure a
wrapping f (throw e) = throw (f e)
wrapping f (call c k) = call c (λ r. wrapping f (k r))

unfoldable pub perform : (c : Call) → Program (Reply c)
perform c = call c (λ r. pure r)

-- The reply of a client call, or its error as `f` presents it.
unfoldable pub checked : {A : Type 0} → (Fault → Error) → Outcome A → Program A
checked f (done a) = pure a
checked f (fault e) = throw (f e)

-- `if !b { return err }`
unfoldable pub require : Bool → Error → Program (Unit {0})
require b e = if b then pure tt else throw e

-- `if result.Item == nil { return nil, err }`
unfoldable pub item_or : {A : Type 0} → Option A → Error → Program A
item_or none e = throw e
item_or (some a) e = pure a

-- The program on a service, from a state of it.
module _ (svc : Service) where
  unfoldable pub run : {A : Type 0} → Program A → svc.State → Result A × svc.State
  run (pure a) s = (ok a, s)
  run (throw e) s = (err e, s)
  run (call c k) s = let (r, s') = svc.perform c s in run (k r) s'
