-- ===== src/Handlers/Transactions/Notifying.antt =====
-- POST /transactions/{transactionId}/notify-settlement, by its responses.
use mathlib.Core.Path.{subst}
use delayed_wallet_transacti.Prelude.{String, ◌≡◌, refl, sym, ap, ◌∙◌, ◌⊎◌, inl, inr, some}
use delayed_wallet_transacti.Prelude.Table.{lookup}
use delayed_wallet_transacti.Errors.{Error}
use delayed_wallet_transacti.Models.{Transaction, Wallet}
use delayed_wallet_transacti.Dynamo.{Db}
use delayed_wallet_transacti.Service.{Service, Seen}
use delayed_wallet_transacti.Program.{Result, ok, err, pure, attempt, ◌>>=◌, run}
use delayed_wallet_transacti.Program.Ensures.{run-Ensures}
use delayed_wallet_transacti.Program.Runs.{continued, run-bind, run-attempt}
use delayed_wallet_transacti.Api.{Response, Environment}
use delayed_wallet_transacti.Websockets.{publish}
use delayed_wallet_transacti.Store.Wallets.{get_wallet}
use delayed_wallet_transacti.Store.Wallets.Reads.{WalletRead, get_wallet-Reads}
use delayed_wallet_transacti.Store.CancelTransaction.{get_transaction}
use delayed_wallet_transacti.Store.CancelTransaction.Reads.{TransactionRead, get_transaction-Reads}
use delayed_wallet_transacti.Handlers.{status_only}
use delayed_wallet_transacti.Handlers.Transactions.{
  payment, notify, notify_found, notify_recipient, notify_settlement,
}

-- Publish was run, with the recipient's update. The transaction and the wallet that the update
-- tells of are what GetTransaction and GetWallet returned: they are stored, in the tables as they
-- stand or stood.
pub record Told (svc : Service) (env : Environment) (id : String) (s t : svc.State) : Type 0 where
  pub tx : Transaction
  pub tx_in : Db
  pub tx_seen : Seen tx_in (svc.world s)
  pub tx_found : lookup id tx_in.transactions ≡ some tx
  pub wallet : Wallet
  pub wallet_in : Db
  pub wallet_seen : Seen wallet_in (svc.world s)
  pub wallet_found : lookup tx.to_user_id wallet_in.wallets ≡ some wallet
  pub start : svc.State
  pub unchanged : svc.world start ≡ svc.world s
  pub published : t ≡ (run svc (publish env (payment tx wallet)) start).1

-- What the request did, by its status.
abbrev pub NotifyOutcome :
    (svc : Service) → Environment → String → svc.State → Result Response → svc.State → Type 0
NotifyOutcome svc env id s r t =
    let (read, after) = run svc (get_transaction env.attribute_value id) s in
    (resp : Response) × (r ≡ ok resp)
    × (((resp.status ≡ 204) × Told svc env id s t)
        ⊎ ((svc.world t ≡ svc.world s)
            × (((resp.status ≡ 404) × (e : Error) × (read ≡ err e))
                ⊎ ((resp.status ≡ 500)
                    × (tx : Transaction) × (e : Error) × (read ≡ ok tx)
                    × ((run svc (get_wallet env.attribute_value tx.to_user_id) after).0 ≡ err e)))))

module _ (svc : Service) (env : Environment) (id : String) (s : svc.State) where
  abbrev Answered : Result Response × svc.State → Type 0
  Answered q = NotifyOutcome svc env id s q.0 q.1

  told_run :
      (tx : Transaction) (x : Wallet) (u : svc.State)
      → run svc (notify_recipient env tx (ok x)) u
        ≡ (ok (status_only 204), (run svc (publish env (payment tx x)) u).1)
  unfolding notify_recipient notify run
  told_run tx x u =
      run-bind svc (attempt (publish env (payment tx x)) >>= λ _. pure tt)
        (λ _. pure (status_only 204)) u
      ∙ ap (continued svc λ _. pure (status_only 204))
          (run-attempt svc (publish env (payment tx x)) (λ _. pure tt) u)

  module _ (tx : Transaction) (after : svc.State)
      (read : run svc (get_transaction env.attribute_value id) s ≡ (ok tx, after))
      (same : svc.world after ≡ svc.world s) (d : Db) (seen : Seen d (svc.world s))
      (found : lookup id d.transactions ≡ some tx) where
    wallet-Answered :
        (r : Result Wallet) (u : svc.State)
        → run svc (get_wallet env.attribute_value tx.to_user_id) after ≡ (r, u)
        → WalletRead tx.to_user_id (svc.world after) r (svc.world u)
        → Answered (run svc (notify_recipient env tx r) u)
    unfolding notify_recipient run
    wallet-Answered (err e) u got (same_u, _) = (
      _,
      refl,
      inr (
        same_u ∙ same,
        inr (
          refl,
          tx,
          e,
          ap (λ q. q.0) read,
          ap (λ z. (run svc (get_wallet env.attribute_value tx.to_user_id) z).0)
                (ap (λ q. q.1) read)
              ∙ ap (λ q. q.0) got,
        ),
      ),
    )
    wallet-Answered (ok x) u got (same_u, e, seen_x, found_x) =
        subst Answered (sym (told_run tx x u)) (
          _,
          refl,
          inl (
            refl,
            record {
              tx = tx;
              tx_in = d;
              tx_seen = seen;
              tx_found = found;
              wallet = x;
              wallet_in = e;
              wallet_seen = subst (Seen e) same seen_x;
              wallet_found = found_x;
              start = u;
              unchanged = same_u ∙ same;
              published = refl;
            },
          ),
        )

  read-Answered :
      (r : Result Transaction) (after : svc.State)
      → run svc (get_transaction env.attribute_value id) s ≡ (r, after)
      → TransactionRead id (svc.world s) r (svc.world after)
      → Answered (run svc (notify_found env r) after)
  unfolding notify_found run
  read-Answered (err e) after read (same, _) =
      (_, refl, inr (same, inl (refl, e, ap (λ q. q.0) read)))
  read-Answered (ok tx) after read (same, d, seen, found) =
      let wallet = get_wallet env.attribute_value tx.to_user_id in
      subst Answered (sym (run-attempt svc wallet (notify_recipient env tx) after)) (
        wallet-Answered tx after read same d seen found (run svc wallet after).0
          (run svc wallet after).1 refl
          (run-Ensures svc (WalletRead tx.to_user_id (svc.world after)) wallet after
            (get_wallet-Reads env.attribute_value tx.to_user_id (svc.world after))))

module _ (svc : Service) (env : Environment) where
  -- POST /transactions/{transactionId}/notify-settlement always answers, whatever the services
  -- answer. 404 means that GetTransaction returned an error for the id, 500 that it returned a
  -- transaction and GetWallet an error for its recipient; then nothing has changed. 204 means that
  -- a transaction is stored under the id and a wallet for its recipient, in the tables as they
  -- stand or stood before an earlier write, and that the request ends as a run of Publish, on the
  -- update that tells of them, from a state in which nothing had changed yet.
  pub notify_settlement-Outcome :
      (id : String) (s : svc.State)
      → let (r, t) = run svc (notify_settlement env id) s in NotifyOutcome svc env id s r t
  unfolding notify_settlement
  notify_settlement-Outcome id s =
      let read = get_transaction env.attribute_value id in
      subst (λ q. NotifyOutcome svc env id s q.0 q.1)
        (sym (run-attempt svc read (notify_found env) s))
        (read-Answered svc env id s (run svc read s).0 (run svc read s).1 refl (
          run-Ensures svc (TransactionRead id (svc.world s)) read s
            (get_transaction-Reads env.attribute_value id (svc.world s))))
