-- ===== src/Handlers/Transactions/Scheduling.antt =====
-- POST /transactions, from its body to its response.
use mathlib.Core.Path.{subst}
use delayed_wallet_transacti.Prelude.{◌≡◌, refl, sym, ◌∙◌, ◌⊎◌, inl, inr}
use delayed_wallet_transacti.Models.{Transaction}
use delayed_wallet_transacti.Dynamo.{Db}
use delayed_wallet_transacti.Service.{Service}
use delayed_wallet_transacti.Service.Free.{free-Stays, send-Stays}
use delayed_wallet_transacti.Program.{Result, ok, err}
use delayed_wallet_transacti.Program.Ensures.{Post, Ensures}
use delayed_wallet_transacti.Program.Schedule.{Guarantee, Keeps}
use delayed_wallet_transacti.Api.{NewTransaction, Response, transaction, Environment}
use delayed_wallet_transacti.Api.Mapping.{to_api_transaction, to_domain_new_transaction}
use delayed_wallet_transacti.Store.CreateTransaction.Atomic.{Created, SameRequest}
use delayed_wallet_transacti.Store.Guarded.{Observes, Sends}
use delayed_wallet_transacti.Handlers.{http_error, failed, respond_json}
use delayed_wallet_transacti.Transfers.Rules.{write-Keeps}

-- All tables but that of the connections are the same.
pub record SameFunds (d e : Db) : Type 0 where
  pub wallets : e.wallets ≡ d.wallets
  pub transactions : e.transactions ≡ d.transactions
  pub ledger : e.ledger ≡ d.ledger

pub same_funds : (d : Db) → SameFunds d d
same_funds d = record { wallets = refl; transactions = refl; ledger = refl }

abbrev pub funds_stay : Guarantee
funds_stay = record {
  Rel = λ w v. SameFunds w.db v.db;
  same = λ w. same_funds w.db;
  after = λ u v w p q. record {
    wallets = q.wallets ∙ p.wallets;
    transactions = q.transactions ∙ p.transactions;
    ledger = q.ledger ∙ p.ledger;
  };
}

pub observes : Observes (Keeps funds_stay)
observes = record {
  free = λ c f _ r w v a. subst (SameFunds w.db) (sym (free-Stays c f r w v a).0) (same_funds w.db);
  connects = λ k pk t. write-Keeps funds_stay _ λ w u h.
      subst (λ v. SameFunds w.db v.db) (sym h.result)
        (record { wallets = refl; transactions = refl; ledger = refl });
  disconnects = λ k. write-Keeps funds_stay _ λ w u h.
      subst (λ v. SameFunds w.db v.db) (sym h.result)
        (record { wallets = refl; transactions = refl; ledger = refl });
}

pub sending : Sends (Keeps funds_stay)
sending = record {
  observes = observes;
  sends = λ q b n r w v a. elim (send-Stays q b n r w v a) [
    | inl same ↦ subst (λ u. SameFunds w.db u.db) (sym same) (same_funds w.db)
    | inr next ↦ subst (λ u. SameFunds w.db u.db) (sym next) (same_funds w.db)
  ];
}

-- The transaction was created, and it is what the response shows; messages may have been sent and
-- connections that are gone removed.
pub record Accepted (env : Environment) (new : NewTransaction) (resp : Response) (d e : Db)
    : Type 0 where
  pub tx : Transaction
  pub response : resp ≡ respond_json env 201 (transaction (to_api_transaction tx))
  pub request : SameRequest (to_domain_new_transaction new) tx
  pub stored : Db
  pub created : Created tx d stored
  pub rest : SameFunds stored e

-- The store reported ErrInsufficientFunds: nothing was done.
pub record Rejected (resp : Response) (d e : Db) : Type 0 where
  pub response : resp ≡ http_error "Insufficient funds" 422
  pub nothing : e ≡ d

-- Another error: the transaction may have been created all the same.
pub record Failed (new : NewTransaction) (resp : Response) (d e : Db) : Type 0 where
  pub response : resp.status ≡ 500
  pub either :
      (e ≡ d)
      ⊎ ((tx : Transaction) × Created tx d e × SameRequest (to_domain_new_transaction new) tx)

abbrev pub ScheduleOutcome : Environment → Result NewTransaction → Db → Post Response
ScheduleOutcome env decoded d (err e) v = ⊥
ScheduleOutcome env (err e) d (ok resp) v =
    (resp ≡ http_error (failed env "Invalid request body" e) 400) × (v.db ≡ d)
ScheduleOutcome env (ok new) d (ok resp) v =
    Accepted env new resp d v.db ⊎ (Rejected resp d v.db ⊎ Failed new resp d v.db)
