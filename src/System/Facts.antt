-- ===== src/System/Facts.antt =====
-- Rules for programs that share the services, where what they know is that a transfer is stored.
use mathlib.Core.Path.{subst}
use delayed_wallet_transacti.Prelude.{◌≡◌, refl, sym, ◌∙◌, some, eq_refl}
use delayed_wallet_transacti.Prelude.Int.{ℤ}
use delayed_wallet_transacti.Prelude.Table.{lookup, lookup-insert}
use delayed_wallet_transacti.Models.{Transaction}
use delayed_wallet_transacti.Dynamo.{Db}
use delayed_wallet_transacti.Service.{World, Call, Reply}
use delayed_wallet_transacti.Service.Free.{IsFree}
use delayed_wallet_transacti.Program.{Program, ◌>>=◌, perform}
use delayed_wallet_transacti.Program.Ensures.{Ensures, Ensures-mono, Ensures-bind}
use delayed_wallet_transacti.Program.Issues.{Issues, Issues-perform}
use delayed_wallet_transacti.Program.Shared.{shared, Always, Done, Ensures-Always, Ensures-Future}
use delayed_wallet_transacti.Api.{Json}
use delayed_wallet_transacti.Store.CreateTransaction.Atomic.{Created}
use delayed_wallet_transacti.System.{Known, Invariance}
use delayed_wallet_transacti.System.Knowledge.{Known-later}
use delayed_wallet_transacti.System.Calls.{discipline, free-Always}

pub Created-Known : (tx : Transaction) (d e : Db) → Created tx d e → Known tx e
Created-Known tx d e c = record {
  stored = tx;
  found = rw c.result (rw (lookup-insert, eq_refl));
  same_from = refl;
  same_to = refl;
  same_amount = refl;
}

-- The same transfer under the same id.
pub Known-same :
    (x tx : Transaction) (d : Db)
    → (x.id ≡ tx.id)
      × (x.from_user_id ≡ tx.from_user_id)
      × (x.to_user_id ≡ tx.to_user_id)
      × (x.amount ≡ tx.amount)
    → Known tx d
    → Known x d
Known-same x tx d (id, from, to, amount) k = record {
  stored = k.stored;
  found = subst (λ j. lookup j d.transactions ≡ some k.stored) (sym id) k.found;
  same_from = k.same_from ∙ sym from;
  same_to = k.same_to ∙ sym to;
  same_amount = k.same_amount ∙ sym amount;
}

module _ (json : Json) {Fit : ℤ → Type 0} {R : Db → Db → Type 0} (i : Invariance Fit R) where
  module _ {A : Type 0} where
    -- A program that knows nothing.
    pub Ensures-unaware :
        (p : Program A) (w : World)
        → Issues (Always (discipline json i)) p
        → Ensures (shared (discipline json i)) p w Done
    Ensures-unaware p w h =
        Ensures-mono (λ r v f. tt) p w (Ensures-Always (discipline json i) p w h)

  module _ {A B : Type 0} (f : A → Program B) where
    -- What one part of a program knows outlasts another part, whatever others do meanwhile.
    pub Ensures-then :
        (K : Db → Type 0)
        (stable : (w v : World) → (discipline json i).Future w v → K w.db → K v.db) (p : Program A)
        (w : World)
        → Ensures (shared (discipline json i)) p w Done
        → K w.db
        → ((a : A) (v : World) → K v.db → Ensures (shared (discipline json i)) (f a) v Done)
        → Ensures (shared (discipline json i)) (p >>= f) w Done
    Ensures-then K stable p w h k next =
        Ensures-bind f (λ r v. (discipline json i).Future w v) p w
          (Ensures-Future (discipline json i) p w h) (λ a v later. next a v (stable w v later k))
          (λ e v later. tt)

  module _ (tx : Transaction) {A B : Type 0} (f : A → Program B) where
    pub Ensures-knowing :
        (p : Program A) (w : World)
        → Issues (Always (discipline json i)) p
        → Known tx w.db
        → ((a : A) (v : World) → Known tx v.db → Ensures (shared (discipline json i)) (f a) v Done)
        → Ensures (shared (discipline json i)) (p >>= f) w Done
    Ensures-knowing p w h =
        Ensures-then f (Known tx) (λ w v later. Known-later tx w.db v.db later.0) p w
          (Ensures-unaware p w h)

  module _ (tx : Transaction) (c : Call) (free : IsFree c) {B : Type 0}
      (f : Reply c → Program B) where
    -- A call that changes nothing.
    pub Ensures-asking :
        (w : World)
        → Known tx w.db
        → ((r : Reply c) (v : World)
            → Known tx v.db
            → Ensures (shared (discipline json i)) (f r) v Done)
        → Ensures (shared (discipline json i)) (perform c >>= f) w Done
    Ensures-asking w =
        Ensures-knowing tx f (perform c) w (Issues-perform c (free-Always json i c free))
