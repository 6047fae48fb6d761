-- ===== src/Store/CancelTransaction/Reads.antt =====
-- What GetTransaction ensures: it changes nothing, and a transaction that it returns stood in the
-- table under the id.
use mathlib.Core.Path.{subst}
use delayed_wallet_transacti.Prelude.{String, ◌≡◌, refl, sym, ◌∙◌, ap, Option, some, false}
use delayed_wallet_transacti.Prelude.Table.{lookup}
use delayed_wallet_transacti.Models.{Transaction}
use delayed_wallet_transacti.Errors.{Error, Sentinel, wrap, errors_is}
use delayed_wallet_transacti.Dynamo.{Db}
use delayed_wallet_transacti.Service.{
  World, Seen, Outcome, done, fault, Answers, get_transaction_item,
}
use delayed_wallet_transacti.Program.{Result, ok, err, Program, wrapping, ◌>>=◌}
use delayed_wallet_transacti.Program.Ensures.{
  Post, Ensures, sequential, Wrapped, Ensures-mono, Ensures-bind, Ensures-wrapping, Ensures-pure,
  Ensures-require, Ensures-bind_checked, Ensures-item,
}
use delayed_wallet_transacti.Program.Quiet.{Ensures-quiet}
use delayed_wallet_transacti.Store.Codec.{AttributeValue}
use delayed_wallet_transacti.Store.CancelTransaction.{get_transaction}

abbrev pub TransactionRead : String → World → Post Transaction
TransactionRead k w (ok x) v = (v ≡ w) × (d : Db) × Seen d w × (lookup k d.transactions ≡ some x)
TransactionRead k w (err e) v = (v ≡ w) × ((s : Sentinel) → errors_is e s ≡ false)

seen_transaction :
    (k : String) (w : World) (r : Outcome (Option Transaction)) (x : Transaction)
    → Answers (get_transaction_item k) r w w
    → r ≡ done (some x)
    → TransactionRead k w (ok x) w
seen_transaction k w (done o) x (d, seen, read, same) e = (same, d, seen, cc)
seen_transaction k w (fault f) x a e = cc

module _ (av : AttributeValue) where
  pub get_transaction-Reads :
      (k : String) (w : World) → Ensures sequential (get_transaction av k) w (TransactionRead k w)
  unfolding get_transaction
  get_transaction-Reads k w =
      Ensures-require _ _ _ w
        (λ _. Ensures-quiet (get_transaction_item k) _ w tt λ r a.
          Ensures-bind_checked _ _ r w
            (λ o replied.
              Ensures-item _ o _ w
                (λ x found.
                  Ensures-require _ _ _ w
                    (λ _. Ensures-pure x w (seen_transaction k w r x a (replied ∙ ap done found)))
                    (refl, λ s. refl))
                (λ _. (refl, λ s. refl)))
            (λ e _. (refl, λ s. refl)))
        (refl, λ s. refl)

  read_wrapped :
      (m k : String) (w : World) (r : Result Transaction) (v : World)
      → TransactionRead k w r v
      → Wrapped (wrap m) (TransactionRead k w) r v
  read_wrapped m k w (ok x) v h = h
  read_wrapped m k w (err e) v h = h

  module _ {B : Type 0} (f : Transaction → Program B) {Q : Post B} where
    -- The rule for `tx, err := s.GetTransaction(…)` with the error wrapped and returned.
    pub Ensures-get_transaction :
        (m k : String) (w : World)
        → ((x : Transaction) (d : Db)
            → Seen d w
            → lookup k d.transactions ≡ some x
            → Ensures sequential (f x) w Q)
        → ((e : Error) → ((s : Sentinel) → errors_is e s ≡ false) → Q (err e) w)
        → Ensures sequential (wrapping (wrap m) (get_transaction av k) >>= f) w Q
    Ensures-get_transaction m k w found failed =
        Ensures-bind f (TransactionRead k w) _ w
          (Ensures-wrapping (wrap m) _ w
            (Ensures-mono (read_wrapped m k w) _ w (get_transaction-Reads k w)))
          (λ x v (same, d, seen, e).
            subst (λ u. Ensures sequential (f x) u Q) (sym same) (found x d seen e))
          (λ e v (same, none_of). subst (Q (err e)) (sym same) (failed e none_of))
