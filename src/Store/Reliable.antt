-- ===== src/Store/Reliable.antt =====
-- The store's methods on a reliable service: rules for their calls. Its children show that the
-- methods go through.

pub mod Create
pub mod Settle
pub mod Cancel
pub mod Funds
pub mod Pending
pub mod Transfer
use mathlib.Core.Path.{subst}
use delayed_wallet_transacti.Prelude.{String, ◌≡◌, refl, sym, ◌∙◌, ap, true, some, List, ◌∷◌}
use delayed_wallet_transacti.Prelude.Table.{lookup}
use delayed_wallet_transacti.Models.{Transaction, Wallet}
use delayed_wallet_transacti.Errors.{wrap}
use delayed_wallet_transacti.Dynamo.{Write, holds, all_hold, distinct_items}
use delayed_wallet_transacti.Service.{
  World, Call, Reply, Outcome, done, Service, Wrote, WriteAnswers, Transacted, TransactAnswers,
  new_uuid, get_wallet_item, get_transaction_item, write_item, transact_write_items,
}
use delayed_wallet_transacti.Service.Reliable.{Reliable, IsNotUuid}
use delayed_wallet_transacti.Program.{Program, ◌>>=◌, perform, wrapping}
use delayed_wallet_transacti.Program.Quiet.{IsQuiet, quiet_world}
use delayed_wallet_transacti.Program.Succeeds.{
  Succeeds, Succeeds-pure, Succeeds-perform, Succeeds-bind, Succeeds-wrapping, Succeeds-require,
  Succeeds-then_checked, Succeeds-item,
}
use delayed_wallet_transacti.Store.Codec.{AttributeValue, GoValue}
use delayed_wallet_transacti.Store.Wallets.{get_wallet}
use delayed_wallet_transacti.Store.CancelTransaction.{get_transaction}

-- Every value can be marshalled and read back.
pub record IsTotal (av : AttributeValue) : Type 0 where
  pub marshals : (v : GoValue) → av.marshals v ≡ true
  pub unmarshals : (v : GoValue) → av.unmarshals v ≡ true

module _ (svc : Service) (rel : Reliable svc) where
  -- The world as it stands, and the UUIDs to come.
  pub record Stands (w : World) (ids : List String) (s : svc.State) : Type 0 where
    pub here : svc.world s ≡ w
    pub ready : rel.Ready ids s

  module _ (w : World) (ids : List String) where
    quiet-Stands :
        (c : Call) (s : svc.State)
        → IsQuiet c
        → IsNotUuid c
        → Stands w ids s
        → Stands w ids (svc.perform c s).1
    quiet-Stands c s q n h = record {
      here = quiet_world c q _ _ _ (svc.obeys c s) ∙ h.here;
      ready = rel.stays ids c s n h.ready;
    }

    module _ {B : Type 0} (c : Call) (f : Reply c → Program B) {Q : B → svc.State → Type 0} where
      pub Succeeds-asks :
          (s : svc.State)
          → IsQuiet c
          → IsNotUuid c
          → Stands w ids s
          → ((r : Reply c) (t : svc.State) → Stands w ids t → Succeeds svc (f r) t Q)
          → Succeeds svc (perform c >>= f) s Q
      Succeeds-asks s q n h next = Succeeds-perform c f s (next _ _ (quiet-Stands c s q n h))

    module _ {B : Type 0} (f : String → Program B) {Q : B → svc.State → Type 0} where
      pub Succeeds-uuid :
          (id : String) (s : svc.State)
          → Stands w (id ∷ ids) s
          → ((t : svc.State) → Stands w ids t → Succeeds svc (f id) t Q)
          → Succeeds svc (perform new_uuid >>= f) s Q
      Succeeds-uuid id s h next =
          let (same, ready) = rel.issues id ids s h.ready in
          Succeeds-perform new_uuid f s (
            subst (λ i. Succeeds svc (f i) (svc.perform new_uuid s).1 Q) (sym same)
              (next _ (record {
                here =
                    quiet_world new_uuid tt (svc.perform new_uuid s).0 _ _ (svc.obeys new_uuid s)
                    ∙ h.here;
                ready = ready;
              })))

    module _ {B : Type 0} (f : Outcome (Unit {0}) → Program B) {Q : B → svc.State → Type 0} where
      pub Succeeds-transact :
          (xs : List Write) (s : svc.State)
          → Stands w ids s
          → distinct_items xs ≡ true
          → all_hold xs w.db ≡ true
          → ((t : svc.State)
              → Transacted xs w (svc.world t)
              → rel.Ready ids t
              → Succeeds svc (f (done tt)) t Q)
          → Succeeds svc (perform (transact_write_items xs) >>= f) s Q
      Succeeds-transact xs s h distinct hold next =
          let c = transact_write_items xs in
          let went =
            rel.prompt ids c s h.ready distinct (ap (λ u. all_hold xs u.db) h.here ∙ hold) in
          Succeeds-perform c f s (
            subst (λ r. Succeeds svc (f r) (svc.perform c s).1 Q) (sym went)
              (next _
                (subst (λ u. Transacted xs u (svc.world (svc.perform c s).1)) h.here
                  (subst (λ r. TransactAnswers xs r (svc.world s) (svc.world (svc.perform c s).1))
                    went (svc.obeys c s)))
                (rel.stays ids c s tt h.ready)))

      pub Succeeds-write :
          (x : Write) (s : svc.State)
          → Stands w ids s
          → holds x w.db ≡ true
          → ((t : svc.State)
              → Wrote x w (svc.world t)
              → rel.Ready ids t
              → Succeeds svc (f (done tt)) t Q)
          → Succeeds svc (perform (write_item x) >>= f) s Q
      Succeeds-write x s h hold next =
          let c = write_item x in
          let went = rel.prompt ids c s h.ready (ap (λ u. holds x u.db) h.here ∙ hold) in
          Succeeds-perform c f s (
            subst (λ r. Succeeds svc (f r) (svc.perform c s).1 Q) (sym went)
              (next _
                (subst (λ u. Wrote x u (svc.world (svc.perform c s).1)) h.here
                  (subst (λ r. WriteAnswers x r (svc.world s) (svc.world (svc.perform c s).1)) went
                    (svc.obeys c s)))
                (rel.stays ids c s tt h.ready)))

    module _ (av : AttributeValue) (total : IsTotal av) where
      pub get_wallet-Succeeds :
          (k : String) (x : Wallet) (s : svc.State)
          → Stands w ids s
          → lookup k w.db.wallets ≡ some x
          → Succeeds svc (get_wallet av k) s (λ y t. (y ≡ x) × Stands w ids t)
      unfolding get_wallet
      get_wallet-Succeeds k x s h found = Succeeds-require _ _ _ s (total.marshals _) (
          Succeeds-perform (get_wallet_item k) _ s (
            Succeeds-then_checked _ _ _ _ _ (rel.prompt ids (get_wallet_item k) s h.ready) (
              Succeeds-item _ _ _ x _ (ap (λ u. lookup k u.db.wallets) h.here ∙ found) (
                Succeeds-require _ _ _ _ (total.unmarshals _)
                  (Succeeds-pure x _ (refl, quiet-Stands (get_wallet_item k) s tt tt h))))))

      pub get_transaction-Succeeds :
          (k : String) (x : Transaction) (s : svc.State)
          → Stands w ids s
          → lookup k w.db.transactions ≡ some x
          → Succeeds svc (get_transaction av k) s (λ y t. (y ≡ x) × Stands w ids t)
      unfolding get_transaction
      get_transaction-Succeeds k x s h found = Succeeds-require _ _ _ s (total.marshals _) (
          Succeeds-perform (get_transaction_item k) _ s (
            Succeeds-then_checked _ _ _ _ _ (rel.prompt ids (get_transaction_item k) s h.ready) (
              Succeeds-item _ _ _ x _ (ap (λ u. lookup k u.db.transactions) h.here ∙ found) (
                Succeeds-require _ _ _ _ (total.unmarshals _)
                  (Succeeds-pure x _ (refl, quiet-Stands (get_transaction_item k) s tt tt h))))))

      module _ {A B : Type 0} (f : A → Program B) {Q : B → svc.State → Type 0} where
        -- A read whose error is wrapped, and the rest of the block.
        pub reads :
            (m : String) (p : Program A) (x : A) (s : svc.State)
            → Succeeds svc p s (λ y t. (y ≡ x) × Stands w ids t)
            → ((t : svc.State) → Stands w ids t → Succeeds svc (f x) t Q)
            → Succeeds svc (wrapping (wrap m) p >>= f) s Q
        reads m p x s h next =
            Succeeds-bind f _ _ s (Succeeds-wrapping svc _ (wrap m) p s h)
              λ y t (same, stands). subst (λ z. Succeeds svc (f z) t Q) (sym same) (next t stands)
