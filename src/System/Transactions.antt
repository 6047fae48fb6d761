-- ===== src/System/Transactions.antt =====
-- The methods of the store that move funds, among other processes.
use mathlib.Core.Path.{subst}
use delayed_wallet_transacti.Prelude.{
  String, ◌≡◌, refl, sym, ap, ◌∙◌, Bool, true, false, Option, some,
}
use delayed_wallet_transacti.Prelude.Int.{ℤ}
use delayed_wallet_transacti.Models.{Status, Transaction}
use delayed_wallet_transacti.Errors.{Error, wrap, errors_is, transaction_already_processing}
use delayed_wallet_transacti.Dynamo.{Db}
use delayed_wallet_transacti.Service.{
  World, Outcome, done, fault, Answers, time_now, new_uuid, get_transaction_item, write_item,
  transact_write_items,
}
use delayed_wallet_transacti.Program.{Result, ok, err, Program, perform, require, wrapping, ◌>>=◌}
use delayed_wallet_transacti.Program.Ensures.{
  Post, Ensures, Wrapped, Ensures-mono, Ensures-bind, Ensures-attempt, Ensures-perform,
  Ensures-require, Ensures-checked, Ensures-bind_checked, Ensures-item, Ensures-wrapping,
  Ensures-pure, Ensures-throw, Ensures-if,
}
use delayed_wallet_transacti.Program.Issues.{Issues, Issues-bind, Issues-perform, Issues-checked}
use delayed_wallet_transacti.Program.Shared.{shared, Always, Done, Ensures-Always}
use delayed_wallet_transacti.Api.{Json}
use delayed_wallet_transacti.Store.Codec.{AttributeValue}
use delayed_wallet_transacti.Store.Wallets.{get_wallet}
use delayed_wallet_transacti.Store.CreateTransaction.{creation, create_transaction}
use delayed_wallet_transacti.Store.CreateTransaction.Atomic.{creation-Created}
use delayed_wallet_transacti.Store.SettleTransaction.{
  lock, lock_error, acquire_transaction_lock, execute_settlement, after_lock, settle_transaction,
}
use delayed_wallet_transacti.Store.CancelTransaction.{get_transaction, cancel_transaction}
use delayed_wallet_transacti.Store.Guarded.{observed, get_wallet-Issues}
use delayed_wallet_transacti.System.{Known, Consistent, Invariance}
use delayed_wallet_transacti.System.Knowledge.{Known-later, Seen-Known}
use delayed_wallet_transacti.System.Calls.{
  discipline, free-Always, observes, lock-Always, creation-Sustains, settlement-Sustains,
  cancellation-Sustains,
}
use delayed_wallet_transacti.System.Facts.{
  Created-Known, Ensures-unaware, Ensures-knowing, Ensures-asking,
}

-- The transaction that a program returns is stored.
abbrev pub Returns_known : Post Transaction
Returns_known (ok tx) v = Known tx v.db
Returns_known (err e) v = Unit

module _ (json : Json) {Fit : ℤ → Type 0} {R : Db → Db → Type 0} (i : Invariance Fit R)
    (av : AttributeValue) where
  acquire-lock : (k : String) → Issues (Always (discipline json i)) (acquire_transaction_lock k)
  unfolding acquire_transaction_lock
  acquire-lock k =
      Issues-bind (perform (write_item (lock k))) _
        (Issues-perform (write_item (lock k)) (lock-Always json i k))
        (λ r. Issues-checked lock_error r)

  requires :
      {B : Type 0} (f : Unit {0} → Program B) (b : Bool) (e : Error) (w : World)
      → (b ≡ true → Ensures (shared (discipline json i)) (f tt) w Done)
      → Ensures (shared (discipline json i)) (require b e >>= f) w Done
  requires f b e w good = Ensures-require f b e w good tt

  created-Known :
      (tx : Transaction) (ver t : ℤ)
      → tx.status ≡ Status.reserved
      → (r : Outcome (Unit {0})) (u v : World)
      → Answers (transact_write_items (creation tx ver t)) r u v
      → {o : Unit {0}} → r ≡ done o
      → Known tx v.db
  created-Known tx ver t reserved (done _) u v a e =
      Created-Known tx u.db v.db (creation-Created tx ver t reserved u v a)
  created-Known tx ver t reserved (fault f) u v a e = cc

  pub create_transaction-Known :
      (given : Transaction) (w : World)
      → Fit given.amount
      → Ensures (shared (discipline json i)) (create_transaction av given) w Returns_known
  unfolding create_transaction
  create_transaction-Known given w fit =
      Ensures-bind _ Done _ w
        (Ensures-unaware json i _ w
          (search (observed, get_wallet-Issues, observes json i) depth 10))
        (λ sender v _.
          Ensures-perform time_now _ v (λ u _. free-Always json i time_now tt u)
            λ now v1 _.
              Ensures-perform new_uuid _ v1 (λ u _. free-Always json i new_uuid tt u)
                λ id v2 _.
                  Ensures-perform time_now _ v2 (λ u _. free-Always json i time_now tt u)
                    λ later v3 _.
                      Ensures-require _ _ _ v3
                        (λ _.
                          Ensures-require _ _ _ v3
                            (λ _.
                              Ensures-perform time_now _ v3
                                (λ u _. free-Always json i time_now tt u)
                                λ latest v4 _.
                                  Ensures-perform (transact_write_items _) _ v4
                                    (λ u _. creation-Sustains json i _ _ _ u refl fit)
                                    λ r v5 (u, _, _, a, _).
                                      Ensures-bind_checked _ _ r v5
                                        (λ o e.
                                          Ensures-pure _ v5 (created-Known _ _ _ refl r u v5 a e))
                                        (λ e _. tt))
                            tt)
                        tt)
        (λ e v _. tt)

  reads_wallet :
      (m k : String) → Issues (Always (discipline json i)) (wrapping (wrap m) (get_wallet av k))
  reads_wallet m k = search (observed, get_wallet-Issues, observes json i) depth 10

  execute_settlement-Done :
      (tx : Transaction) (w : World)
      → Known tx w.db
      → Ensures (shared (discipline json i)) (execute_settlement av tx) w Done
  unfolding execute_settlement
  execute_settlement-Done tx w known =
      Ensures-knowing json i tx _ _ w (reads_wallet _ _) known λ sender w1 k1.
        Ensures-knowing json i tx _ _ w1 (reads_wallet _ _) k1 λ receiver w2 k2.
          Ensures-asking json i tx time_now tt _ w2 k2 λ now w3 k3.
            Ensures-require _ _ _ w3
              (λ _. Ensures-asking json i tx new_uuid tt _ w3 k3 λ debit_id w4 k4.
                Ensures-asking json i tx new_uuid tt _ w4 k4 λ credit_id w5 k5.
                  requires _ _ _ w5 λ _. requires _ _ _ w5 λ _. requires _ _ _ w5 λ _.
                    requires _ _ _ w5 λ _. requires _ _ _ w5 λ _.
                      Ensures-asking json i tx time_now tt _ w5 k5 λ sent w6 k6.
                        Ensures-asking json i tx time_now tt _ w6 k6 λ received w7 k7.
                          Ensures-perform (transact_write_items _) _ w7
                            (λ u later.
                              settlement-Sustains json i tx _ u
                                (Known-later tx w7.db u.db later.0 k7))
                            λ r v _. Ensures-checked _ r v (λ _ _. tt) (λ _ _. tt))
              tt

  after_lock-Done :
      (tx : Transaction) (r : Result (Unit {0})) (w : World)
      → Known tx w.db
      → Ensures (shared (discipline json i)) (after_lock av tx r) w Done
  unfolding after_lock
  after_lock-Done tx (ok _) w known =
      Ensures-bind _ Done _ w (execute_settlement-Done tx w known) (λ _ v _. Ensures-pure true v tt)
        (λ e v _. tt)
  after_lock-Done tx (err e) w known =
      Ensures-if (errors_is e transaction_already_processing) _ _ w (λ _. Ensures-pure false w tt)
        (λ _. Ensures-throw _ w tt)

  -- A settlement of a stored transfer.
  pub settle_transaction-Done :
      (tx : Transaction) (w : World)
      → Known tx w.db
      → Ensures (shared (discipline json i)) (settle_transaction av tx) w Done
  unfolding settle_transaction
  settle_transaction-Done tx w known =
      Ensures-attempt _ (λ r v. (discipline json i).Future w v) _ w
        (Ensures-Always (discipline json i) _ w (acquire-lock tx.id))
        λ r v later. after_lock-Done tx r v (Known-later tx w.db v.db later.0 known)

  seen-Known :
      (k : String) (r : Outcome (Option Transaction)) (u v : World)
      → Consistent json u
      → Answers (get_transaction_item k) r u v
      → {x : Transaction} → r ≡ done (some x)
      → Known x v.db
  seen-Known k (done o) u v c (d, seen, read, same) {x} e =
      subst (λ z. Known x z.db) (sym same) (Seen-Known d u c k x seen (cc)).0
  seen-Known k (fault f) u v c a e = cc

  pub get_transaction-Known :
      (k : String) (w : World)
      → Ensures (shared (discipline json i)) (get_transaction av k) w Returns_known
  unfolding get_transaction
  get_transaction-Known k w =
      Ensures-require _ _ _ w
        (λ _.
          Ensures-perform (get_transaction_item k) _ w
            (λ u _. free-Always json i (get_transaction_item k) tt u)
            λ r v (u, _, sound, a, _).
              Ensures-bind_checked _ _ r v
                (λ o replied.
                  Ensures-item _ o _ v
                    (λ x found.
                      Ensures-require _ _ _ v
                        (λ _.
                          Ensures-pure x v (seen-Known k r u v sound a (replied ∙ ap done found)))
                        tt)
                    (λ _. tt))
                (λ e _. tt))
        tt

  wrapped_known :
      (m : String) (r : Result Transaction) (v : World)
      → Returns_known r v
      → Wrapped (wrap m) Returns_known r v
  wrapped_known m (ok x) v h = h
  wrapped_known m (err e) v h = h

  pub cancel_transaction-Done :
      (k : String) (w : World)
      → Ensures (shared (discipline json i)) (cancel_transaction av k) w Done
  unfolding cancel_transaction
  cancel_transaction-Done k w =
      Ensures-bind _ Returns_known _ w
        (Ensures-wrapping _ _ w (
          Ensures-mono (wrapped_known "failed to get transaction for cancellation") _ w
            (get_transaction-Known k w)))
        (λ tx w1 k1. requires _ _ _ w1 λ _.
          Ensures-knowing json i tx _ _ w1 (reads_wallet _ _) k1 λ sender w2 k2.
            Ensures-asking json i tx time_now tt _ w2 k2 λ now w3 k3. requires _ _ _ w3 λ _.
              requires _ _ _ w3 λ _. requires _ _ _ w3 λ _.
                Ensures-perform (transact_write_items _) _ w3
                  (λ u later.
                    cancellation-Sustains json i tx _ now u (Known-later tx w3.db u.db later.0 k3))
                  λ r v _. Ensures-checked _ r v (λ _ _. tt) (λ _ _. tt))
        (λ e v _. tt)
