-- ===== src/Program/Succeeds.antt =====
-- Programs that end without an error, on one service and from one state of it.
use mathlib.Core.Path.{subst}
use delayed_wallet_transacti.Prelude.{◌≡◌, sym, Bool, true, Option, some}
use delayed_wallet_transacti.Errors.{Error, Fault}
use delayed_wallet_transacti.Service.{Call, Reply, Outcome, done, Service}
use delayed_wallet_transacti.Program.{
  Result, ok, err, Program, pure, throw, call, ◌>>=◌, attempt, wrapping, perform, checked, require,
  item_or, run,
}

-- The run ends with a value, and `Q` holds of the value and the last state.
abbrev pub Good :
    (svc : Service) → {A : Type 0} → (A → svc.State → Type 0) → Result A × svc.State → Type 0
Good svc Q (ok a, s) = Q a s
Good svc Q (err e, s) = ⊥

pub record Succeeds (svc : Service) {A : Type 0} (p : Program A) (s : svc.State)
    (Q : A → svc.State → Type 0) : Type 0 where
  pub at : Good svc Q (run svc p s)

module _ {svc : Service} {A : Type 0} {Q : A → svc.State → Type 0} where
  pub Succeeds-pure : (a : A) (s : svc.State) → Q a s → Succeeds svc (pure a) s Q
  unfolding run
  Succeeds-pure a s h = record { at = h }

  pub Succeeds-checked :
      (g : Fault → Error) (r : Outcome A) (a : A) (s : svc.State)
      → r ≡ done a
      → Q a s
      → Succeeds svc (checked g r) s Q
  unfolding run checked
  Succeeds-checked g r a s e h =
      subst (λ x. Succeeds svc (checked g x) s Q) (sym e) (record { at = h })

module _ (svc : Service) {A : Type 0} (Q : A → svc.State → Type 0) (f : Error → Error) where
  Good-wrapping :
      (p : Program A) (s : svc.State)
      → Good svc Q (run svc p s)
      → Good svc Q (run svc (wrapping f p) s)
  unfolding run wrapping
  Good-wrapping (pure a) s h = h
  Good-wrapping (throw e) s h = elim h [ ]
  Good-wrapping (call c k) s h = Good-wrapping (k (svc.perform c s).0) (svc.perform c s).1 h

  pub Succeeds-wrapping :
      (p : Program A) (s : svc.State) → Succeeds svc p s Q → Succeeds svc (wrapping f p) s Q
  Succeeds-wrapping p s h = record { at = Good-wrapping p s h.at }

module _ {svc : Service} {A B : Type 0} (f : A → Program B) {Q : B → svc.State → Type 0} where
  module _ (P : A → svc.State → Type 0)
      (next : (a : A) (t : svc.State) → P a t → Succeeds svc (f a) t Q) where
    Good-bind :
        (p : Program A) (s : svc.State)
        → Good svc P (run svc p s)
        → Good svc Q (run svc (p >>= f) s)
    unfolding run ◌>>=◌
    Good-bind (pure a) s h = (next a s h).at
    Good-bind (throw e) s h = elim h [ ]
    Good-bind (call c k) s h = Good-bind (k (svc.perform c s).0) (svc.perform c s).1 h

  pub Succeeds-bind :
      (P : A → svc.State → Type 0) (p : Program A) (s : svc.State)
      → Succeeds svc p s P
      → ((a : A) (t : svc.State) → P a t → Succeeds svc (f a) t Q)
      → Succeeds svc (p >>= f) s Q
  Succeeds-bind P p s h next = record { at = Good-bind P next p s h.at }

  pub Succeeds-then_checked :
      (g : Fault → Error) (r : Outcome A) (a : A) (s : svc.State)
      → r ≡ done a
      → Succeeds svc (f a) s Q
      → Succeeds svc (checked g r >>= f) s Q
  unfolding checked ◌>>=◌
  Succeeds-then_checked g r a s e h = subst (λ x. Succeeds svc (checked g x >>= f) s Q) (sym e) h

  pub Succeeds-item :
      (o : Option A) (e : Error) (a : A) (s : svc.State)
      → o ≡ some a
      → Succeeds svc (f a) s Q
      → Succeeds svc (item_or o e >>= f) s Q
  unfolding item_or ◌>>=◌
  Succeeds-item o e a s found h = subst (λ x. Succeeds svc (item_or x e >>= f) s Q) (sym found) h

module _ {svc : Service} {B : Type 0} (f : Unit {0} → Program B) {Q : B → svc.State → Type 0} where
  pub Succeeds-require :
      (b : Bool) (e : Error) (s : svc.State)
      → b ≡ true
      → Succeeds svc (f tt) s Q
      → Succeeds svc (require b e >>= f) s Q
  unfolding require ◌>>=◌
  Succeeds-require b e s holds h = subst (λ x. Succeeds svc (require x e >>= f) s Q) (sym holds) h

module _ {svc : Service} (c : Call) {B : Type 0} (f : Reply c → Program B)
    {Q : B → svc.State → Type 0} where
  pub Succeeds-perform :
      (s : svc.State)
      → Succeeds svc (f (svc.perform c s).0) (svc.perform c s).1 Q
      → Succeeds svc (perform c >>= f) s Q
  unfolding perform ◌>>=◌ run
  Succeeds-perform s h = record { at = h.at }

module _ {svc : Service} {A B : Type 0} (f : Result A → Program B) {Q : B → svc.State → Type 0}
    (P : A → svc.State → Type 0) where
  module _ (next : (a : A) (t : svc.State) → P a t → Succeeds svc (f (ok a)) t Q) where
    Good-attempt :
        (p : Program A) (s : svc.State)
        → Good svc P (run svc p s)
        → Good svc Q (run svc (attempt p >>= f) s)
    unfolding run ◌>>=◌ attempt
    Good-attempt (pure a) s h = (next a s h).at
    Good-attempt (throw e) s h = elim h [ ]
    Good-attempt (call c k) s h = Good-attempt (k (svc.perform c s).0) (svc.perform c s).1 h

  pub Succeeds-attempt :
      (p : Program A) (s : svc.State)
      → Succeeds svc p s P
      → ((a : A) (t : svc.State) → P a t → Succeeds svc (f (ok a)) t Q)
      → Succeeds svc (attempt p >>= f) s Q
  Succeeds-attempt p s h next = record { at = Good-attempt next p s h.at }

module _ (svc : Service) {A : Type 0} (P Q : A → svc.State → Type 0)
    (m : (a : A) (t : svc.State) → P a t → Q a t) where
  Good-mono : (r : Result A × svc.State) → Good svc P r → Good svc Q r
  Good-mono (ok a, t) h = m a t h
  Good-mono (err e, t) h = elim h [ ]

  pub Succeeds-mono : (p : Program A) (s : svc.State) → Succeeds svc p s P → Succeeds svc p s Q
  Succeeds-mono p s h = record { at = Good-mono (run svc p s) h.at }
