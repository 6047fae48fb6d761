-- ===== src/Program/Issues.antt =====
-- The calls that a program can make, whatever it is answered: one rule for each way to build a
-- program, for `search`.
use delayed_wallet_transacti.Prelude.{Bool, true, false, Option, none, some, if◌then◌else◌}
use delayed_wallet_transacti.Errors.{Error, Fault}
use delayed_wallet_transacti.Service.{Call, Reply, Outcome, done, fault}
use delayed_wallet_transacti.Program.{
  Program, pure, throw, call, ◌>>=◌, attempt, wrapping, perform, checked, require, item_or,
}

abbrev pub AllCalls : (Call → Type 0) → {A : Type 0} → Program A → Type 0
AllCalls P (pure a) = Unit
AllCalls P (throw e) = Unit
AllCalls P (call c k) = P c × ((r : Reply c) → AllCalls P (k r))

-- Every call that `p` can make satisfies `P`.
pub record Issues (P : Call → Type 0) {A : Type 0} (p : Program A) : Type 0 where
  pub calls : AllCalls P p

module _ {P : Call → Type 0} where
  pub Issues-perform : (c : Call) → P c → Issues P (perform c)
  unfolding perform
  Issues-perform c h = record { calls = (h, λ r. tt) }

  pub Issues-require : (b : Bool) (e : Error) → Issues P (require b e)
  unfolding require
  Issues-require true e = record { calls = tt }
  Issues-require false e = record { calls = tt }

  module _ {A : Type 0} where
    pub Issues-pure : (a : A) → Issues P (pure a)
    Issues-pure a = record { calls = tt }

    pub Issues-throw : (e : Error) → Issues P {A = A} (throw e)
    Issues-throw e = record { calls = tt }

    pub Issues-checked : (g : Fault → Error) (r : Outcome A) → Issues P (checked g r)
    unfolding checked
    Issues-checked g (done a) = record { calls = tt }
    Issues-checked g (fault e) = record { calls = tt }

    pub Issues-item : (o : Option A) (e : Error) → Issues P (item_or o e)
    unfolding item_or
    Issues-item none e = record { calls = tt }
    Issues-item (some a) e = record { calls = tt }

    pub Issues-if :
        (b : Bool) (p q : Program A) → Issues P p → Issues P q → Issues P (if b then p else q)
    Issues-if true p q hp hq = hp
    Issues-if false p q hp hq = hq

module _ (P : Call → Type 0) {A : Type 0} where
  wrapping-calls : (f : Error → Error) (p : Program A) → AllCalls P p → AllCalls P (wrapping f p)
  unfolding wrapping
  wrapping-calls f (pure a) h = tt
  wrapping-calls f (throw e) h = tt
  wrapping-calls f (call c k) h = (h.0, λ r. wrapping-calls f (k r) (h.1 r))

  attempt-calls : (p : Program A) → AllCalls P p → AllCalls P (attempt p)
  unfolding attempt
  attempt-calls (pure a) h = tt
  attempt-calls (throw e) h = tt
  attempt-calls (call c k) h = (h.0, λ r. attempt-calls (k r) (h.1 r))

  bind-calls :
      {B : Type 0} (p : Program A) (f : A → Program B)
      → AllCalls P p
      → ((a : A) → AllCalls P (f a))
      → AllCalls P (p >>= f)
  unfolding ◌>>=◌
  bind-calls (pure a) f h k = k a
  bind-calls (throw e) f h k = tt
  bind-calls (call c j) f h k = (h.0, λ r. bind-calls (j r) f (h.1 r) k)

module _ {P : Call → Type 0} {A : Type 0} where
  pub Issues-wrapping : (f : Error → Error) (p : Program A) → Issues P p → Issues P (wrapping f p)
  Issues-wrapping f p h = record { calls = wrapping-calls P f p h.calls }

  pub Issues-attempt : (p : Program A) → Issues P p → Issues P (attempt p)
  Issues-attempt p h = record { calls = attempt-calls P p h.calls }

  pub Issues-bind :
      {B : Type 0} (p : Program A) (f : A → Program B)
      → Issues P p
      → ((a : A) → Issues P (f a))
      → Issues P (p >>= f)
  Issues-bind p f h k = record { calls = bind-calls P p f h.calls (λ a. (k a).calls) }

pub ruleset issue_rules = (
  Issues-perform, Issues-require, Issues-pure, Issues-throw, Issues-checked, Issues-item, Issues-if,
  Issues-wrapping, Issues-attempt, Issues-bind,
)
