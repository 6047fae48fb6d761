-- ===== src/Store/Wallets/Reads.antt =====
-- What GetWallet ensures: it changes nothing, and a wallet that it returns stood in the table.
use mathlib.Core.Path.{subst}
use delayed_wallet_transacti.Prelude.{String, ◌≡◌, refl, sym, ◌∙◌, ap, Option, some, false}
use delayed_wallet_transacti.Prelude.Table.{lookup}
use delayed_wallet_transacti.Models.{Wallet}
use delayed_wallet_transacti.Errors.{Error, Sentinel, wrap, errors_is}
use delayed_wallet_transacti.Dynamo.{Db}
use delayed_wallet_transacti.Service.{World, Seen, Outcome, done, fault, Answers, get_wallet_item}
use delayed_wallet_transacti.Program.{Result, ok, err, Program, wrapping, ◌>>=◌}
use delayed_wallet_transacti.Program.Ensures.{
  Post, Ensures, sequential, Wrapped, Ensures-mono, Ensures-bind, Ensures-wrapping, Ensures-pure,
  Ensures-require, Ensures-perform, Ensures-bind_checked, Ensures-item,
}
use delayed_wallet_transacti.Store.Codec.{AttributeValue}
use delayed_wallet_transacti.Store.Wallets.{get_wallet}

abbrev pub WalletRead : String → World → Post Wallet
WalletRead k w (ok x) v = (v ≡ w) × (d : Db) × Seen d w × (lookup k d.wallets ≡ some x)
WalletRead k w (err e) v = (v ≡ w) × ((s : Sentinel) → errors_is e s ≡ false)

module _ (av : AttributeValue) where
  pub get_wallet-Reads :
      (k : String) (w : World) → Ensures sequential (get_wallet av k) w (WalletRead k w)
  unfolding get_wallet
  get_wallet-Reads k w =
      Ensures-require _ _ _ w
        (λ _. Ensures-perform (get_wallet_item k) _ w tt λ r v a.
          Ensures-bind_checked _ _ r v
            (λ o replied.
              Ensures-item _ o _ v
                (λ x found.
                  Ensures-require _ _ _ v
                    (λ _. Ensures-pure x v (seen_wallet r x v a (replied ∙ ap done found)))
                    (unchanged r v a, λ s. refl))
                (λ _. (unchanged r v a, λ s. refl)))
            (λ e _. (unchanged r v a, λ s. refl)))
        (refl, λ s. refl)
    where
      unchanged :
          (r : Outcome (Option Wallet)) (v : World) → Answers (get_wallet_item k) r w v → v ≡ w
      unchanged (done o) v a = a.3
      unchanged (fault e) v a = a

      seen_wallet :
          (r : Outcome (Option Wallet)) (x : Wallet) (v : World)
          → Answers (get_wallet_item k) r w v
          → r ≡ done (some x)
          → WalletRead k w (ok x) v
      seen_wallet (done o) x v (d, seen, read, same) e = (same, d, seen, cc)
      seen_wallet (fault f) x v a e = cc

  read_wrapped :
      (m : String) (k : String) (w : World) (r : Result Wallet) (v : World)
      → WalletRead k w r v
      → Wrapped (wrap m) (WalletRead k w) r v
  read_wrapped m k w (ok x) v h = h
  read_wrapped m k w (err e) v h = h

  module _ {B : Type 0} (f : Wallet → Program B) {Q : Post B} where
    -- The rule for `wallet, err := s.GetWallet(…)` with the error wrapped and returned.
    pub Ensures-get_wallet :
        (m : String) (k : String) (w : World)
        → ((x : Wallet) (d : Db)
            → Seen d w
            → lookup k d.wallets ≡ some x
            → Ensures sequential (f x) w Q)
        → ((e : Error) → ((s : Sentinel) → errors_is e s ≡ false) → Q (err e) w)
        → Ensures sequential (wrapping (wrap m) (get_wallet av k) >>= f) w Q
    Ensures-get_wallet m k w found failed =
        Ensures-bind f (WalletRead k w) _ w
          (Ensures-wrapping (wrap m) _ w
            (Ensures-mono (read_wrapped m k w) _ w (get_wallet-Reads k w)))
          (λ x v (same, d, seen, e).
            subst (λ u. Ensures sequential (f x) u Q) (sym same) (found x d seen e))
          (λ e v (same, none_of). subst (Q (err e)) (sym same) (failed e none_of))
