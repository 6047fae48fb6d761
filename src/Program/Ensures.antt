-- ===== src/Program/Ensures.antt =====
-- A logic of programs: what holds after a program, whatever the services answer. `Logic` says
-- what answers are to be expected of a call, and what must hold for a call to be made at all.
use delayed_wallet_transacti.Prelude.{
  ◌≡◌, refl, Bool, true, false, Option, none, some, if◌then◌else◌,
}
use delayed_wallet_transacti.Errors.{Error, Fault}
use delayed_wallet_transacti.Service.{Call, Reply, World, Answers, Service, Outcome, done, fault}
use delayed_wallet_transacti.Program.{
  Result, ok, err, Program, pure, throw, call, ◌>>=◌, attempt, wrapping, perform, checked, require,
  item_or, run,
}

pub record Logic : Type 1 where
  pub Allowed : Call → World → Type 0
  pub Behaves : (c : Call) → Reply c → World → World → Type 0

-- The calls of one program alone, as documented.
abbrev pub sequential : Logic
sequential = record { Allowed = λ c w. Unit; Behaves = Answers }

abbrev pub Post : Type 0 → Type 1
Post A = Result A → World → Type 0

abbrev pub Holds : Logic → {A : Type 0} → Program A → World → Post A → Type 0
Holds l (pure a) w Q = Q (ok a) w
Holds l (throw e) w Q = Q (err e) w
Holds l (call c k) w Q =
    l.Allowed c w × ((r : Reply c) (v : World) → l.Behaves c r w v → Holds l (k r) v Q)

-- From the world `w`, `Q` holds of the result and of the world at the end.
pub record Ensures (l : Logic) {A : Type 0} (p : Program A) (w : World) (Q : Post A) : Type 0 where
  pub at : Holds l p w Q

module _ (svc : Service) {A : Type 0} (Q : Post A) where
  run-Holds :
      (p : Program A) (s : svc.State)
      → Holds sequential p (svc.world s) Q
      → Q (run svc p s).0 (svc.world (run svc p s).1)
  unfolding run
  run-Holds (pure a) s h = h
  run-Holds (throw e) s h = h
  run-Holds (call c k) s h =
      run-Holds (k (svc.perform c s).0) (svc.perform c s).1 (h.1 _ _ (svc.obeys c s))

  pub run-Ensures :
      (p : Program A) (s : svc.State)
      → Ensures sequential p (svc.world s) Q
      → Q (run svc p s).0 (svc.world (run svc p s).1)
  run-Ensures p s h = run-Holds p s h.at

module _ {l : Logic} {A : Type 0} {Q : Post A} where
  pub Ensures-pure : (a : A) (w : World) → Q (ok a) w → Ensures l (pure a) w Q
  Ensures-pure a w h = record { at = h }

  pub Ensures-throw : (e : Error) (w : World) → Q (err e) w → Ensures l (throw e) w Q
  Ensures-throw e w h = record { at = h }

  pub Ensures-checked :
      (g : Fault → Error) (r : Outcome A) (w : World)
      → ((a : A) → r ≡ done a → Q (ok a) w)
      → ((e : Fault) → r ≡ fault e → Q (err (g e)) w)
      → Ensures l (checked g r) w Q
  unfolding checked
  Ensures-checked g (done a) w good bad = record { at = good a refl }
  Ensures-checked g (fault e) w good bad = record { at = bad e refl }

  pub Ensures-if :
      (b : Bool) (p q : Program A) (w : World)
      → (b ≡ true → Ensures l p w Q)
      → (b ≡ false → Ensures l q w Q)
      → Ensures l (if b then p else q) w Q
  Ensures-if true p q w yes_case no_case = yes_case refl
  Ensures-if false p q w yes_case no_case = no_case refl

abbrev pub Wrapped : {A : Type 0} → (Error → Error) → Post A → Post A
Wrapped f P (ok a) w = P (ok a) w
Wrapped f P (err e) w = P (err (f e)) w

module _ {A : Type 0} (f : Error → Error) where
  Holds-wrapping :
      (l : Logic) (Q : Post A) (p : Program A) (w : World)
      → Holds l p w (Wrapped f Q)
      → Holds l (wrapping f p) w Q
  unfolding wrapping
  Holds-wrapping l Q (pure a) w h = h
  Holds-wrapping l Q (throw e) w h = h
  Holds-wrapping l Q (call c k) w h = (h.0, λ r v a. Holds-wrapping l Q (k r) v (h.1 r v a))

  pub Ensures-wrapping :
      {l : Logic} {Q : Post A} (p : Program A) (w : World)
      → Ensures l p w (Wrapped f Q)
      → Ensures l (wrapping f p) w Q
  Ensures-wrapping {l} {Q} p w h = record { at = Holds-wrapping l Q p w h.at }

module _ {l : Logic} {A B : Type 0} (f : A → Program B) {Q : Post B} (P : Post A) where
  module _ (next : (a : A) (v : World) → P (ok a) v → Ensures l (f a) v Q)
      (fail : (e : Error) (v : World) → P (err e) v → Q (err e) v) where
    Holds-bind : (p : Program A) (w : World) → Holds l p w P → Holds l (p >>= f) w Q
    unfolding ◌>>=◌
    Holds-bind (pure a) w h = (next a w h).at
    Holds-bind (throw e) w h = fail e w h
    Holds-bind (call c k) w h = (h.0, λ r v a. Holds-bind (k r) v (h.1 r v a))

  -- The rest of the block starts where the first part ended.
  pub Ensures-bind :
      (p : Program A) (w : World)
      → Ensures l p w P
      → ((a : A) (v : World) → P (ok a) v → Ensures l (f a) v Q)
      → ((e : Error) (v : World) → P (err e) v → Q (err e) v)
      → Ensures l (p >>= f) w Q
  Ensures-bind p w h next fail = record { at = Holds-bind next fail p w h.at }

module _ {l : Logic} {A B : Type 0} (f : A → Program B) {Q : Post B} where
  pub Ensures-bind_checked :
      (g : Fault → Error) (r : Outcome A) (w : World)
      → ((a : A) → r ≡ done a → Ensures l (f a) w Q)
      → ((e : Fault) → r ≡ fault e → Q (err (g e)) w)
      → Ensures l (checked g r >>= f) w Q
  unfolding checked ◌>>=◌
  Ensures-bind_checked g (done a) w good bad = good a refl
  Ensures-bind_checked g (fault e) w good bad = record { at = bad e refl }

  pub Ensures-item :
      (o : Option A) (e : Error) (w : World)
      → ((a : A) → o ≡ some a → Ensures l (f a) w Q)
      → (o ≡ none → Q (err e) w)
      → Ensures l (item_or o e >>= f) w Q
  unfolding item_or ◌>>=◌
  Ensures-item none e w good bad = record { at = bad refl }
  Ensures-item (some a) e w good bad = good a refl

module _ {l : Logic} {B : Type 0} (f : Unit {0} → Program B) {Q : Post B} where
  pub Ensures-require :
      (b : Bool) (e : Error) (w : World)
      → (b ≡ true → Ensures l (f tt) w Q)
      → Q (err e) w
      → Ensures l (require b e >>= f) w Q
  unfolding require ◌>>=◌
  Ensures-require true e w good bad = good refl
  Ensures-require false e w good bad = record { at = bad }

  pub Ensures-guard :
      (b : Bool) (e : Error) (w : World)
      → (b ≡ true → Ensures l (f tt) w Q)
      → (b ≡ false → Q (err e) w)
      → Ensures l (require b e >>= f) w Q
  unfolding require ◌>>=◌
  Ensures-guard true e w good bad = good refl
  Ensures-guard false e w good bad = record { at = bad refl }

module _ {l : Logic} (c : Call) {B : Type 0} (f : Reply c → Program B) {Q : Post B} where
  pub Ensures-perform :
      (w : World)
      → l.Allowed c w
      → ((r : Reply c) (v : World) → l.Behaves c r w v → Ensures l (f r) v Q)
      → Ensures l (perform c >>= f) w Q
  unfolding perform ◌>>=◌
  Ensures-perform w h next = record { at = (h, λ r v a. (next r v a).at) }

module _ {l : Logic} {A B : Type 0} (f : Result A → Program B) {Q : Post B} (P : Post A) where
  module _ (next : (r : Result A) (v : World) → P r v → Ensures l (f r) v Q) where
    Holds-attempt : (p : Program A) (w : World) → Holds l p w P → Holds l (attempt p >>= f) w Q
    unfolding attempt ◌>>=◌
    Holds-attempt (pure a) w h = (next _ w h).at
    Holds-attempt (throw e) w h = (next _ w h).at
    Holds-attempt (call c k) w h = (h.0, λ r v a. Holds-attempt (k r) v (h.1 r v a))

  pub Ensures-attempt :
      (p : Program A) (w : World)
      → Ensures l p w P
      → ((r : Result A) (v : World) → P r v → Ensures l (f r) v Q)
      → Ensures l (attempt p >>= f) w Q
  Ensures-attempt p w h next = record { at = Holds-attempt next p w h.at }

module _ {A : Type 0} {P Q : Post A} (m : (r : Result A) (v : World) → P r v → Q r v) where
  Holds-mono : (l : Logic) (p : Program A) (w : World) → Holds l p w P → Holds l p w Q
  Holds-mono l (pure a) w h = m _ w h
  Holds-mono l (throw e) w h = m _ w h
  Holds-mono l (call c k) w h = (h.0, λ r v a. Holds-mono l (k r) v (h.1 r v a))

  pub Ensures-mono : {l : Logic} (p : Program A) (w : World) → Ensures l p w P → Ensures l p w Q
  Ensures-mono {l} p w h = record { at = Holds-mono l p w h.at }
