-- ===== src/Transfers/Journey.antt =====
-- A transfer from the request to the API, over the queue, to its settlement by the lambda, on a
-- reliable service.
pub mod Same
pub mod Settles
pub mod Cancels
use mathlib.Core.Path.{subst}
use delayed_wallet_transacti.Prelude.{
  String, ◌≡◌, refl, sym, ap, ◌∙◌, ◌≢◌, inl, inr, Bool, true, false, Option, none, some, List, [],
  ◌∷◌, ◌==◌, ◌||◌, not, arith, eq_iff,
}
use delayed_wallet_transacti.Prelude.Int.{ℤ}
use delayed_wallet_transacti.Prelude.Table.{lookup}
use delayed_wallet_transacti.Models.{Transaction, Wallet}
use delayed_wallet_transacti.Errors.{Error}
use delayed_wallet_transacti.Dynamo.{Db}
use delayed_wallet_transacti.Service.{
  World, Call, Service, Wrote, SentBody, Outcome, done, Answers, send_message,
}
use delayed_wallet_transacti.Service.Free.{free-Stays}
use delayed_wallet_transacti.Service.Reliable.{Reliable, IsNotUuid}
use delayed_wallet_transacti.Program.{Result, ok, err, Program, perform, ◌>>=◌}
use delayed_wallet_transacti.Program.Schedule.{Guarantee, Keeps}
use delayed_wallet_transacti.Program.Issues.{Issues}
use delayed_wallet_transacti.Program.Succeeds.{
  Succeeds, Succeeds-pure, Succeeds-perform, Succeeds-bind, Succeeds-attempt, Succeeds-checked,
  Succeeds-require, Succeeds-item, Succeeds-mono,
}
use delayed_wallet_transacti.Program.Aside.{Minor, Passed, Succeeds-aside}
use delayed_wallet_transacti.Store.Guarded.{Observes, get_wallet-Issues}
use delayed_wallet_transacti.Store.Reliable.{IsTotal, Stands}
use delayed_wallet_transacti.Store.Reliable.Create.{Opened, create_transaction-Succeeds}
use delayed_wallet_transacti.Store.Reliable.Settle.{FreshPair}
use delayed_wallet_transacti.Store.Reliable.Funds.{Funds, HasStatus}
use delayed_wallet_transacti.Store.Reliable.Pending.{Pending, Arrived, Names}
use delayed_wallet_transacti.Store.Reliable.Transfer.{
  Affordable, Delivered, names, request-Pending, settle-Delivered,
}
use delayed_wallet_transacti.Api.{
  ApiTransaction, NewTransaction, Json, Response, Environment, transaction,
}
use delayed_wallet_transacti.Api.Mapping.{to_api_transaction, to_domain_new_transaction}
use delayed_wallet_transacti.Scheduler.{bad_delay, whole_seconds, schedule_transaction}
use delayed_wallet_transacti.Handlers.{respond_json}
use delayed_wallet_transacti.Handlers.Transactions.{
  delay_of, notify, notify_sender, after_create, schedule_decoded, schedule_transaction_request,
}
use delayed_wallet_transacti.Handlers.Transactions.Scheduling.{SameFunds, same_funds}
use delayed_wallet_transacti.Lambdas.{
  Next, continue, notify_api, after_settle, handle_message, handle_settlement_request,
}
use delayed_wallet_transacti.Transfers.Rules.{write-Keeps}
use delayed_wallet_transacti.Transfers.Processes.{publish-Issues, notify_api-Issues}

-- The funds and the queue are as they were.
pub record SameTransfers (w v : World) : Type 0 where
  pub funds : SameFunds w.db v.db
  pub sent : v.sent ≡ w.sent

pub same_after : (c d e : Db) → SameFunds c d → SameFunds d e → SameFunds c e
same_after c d e p q = record {
  wallets = q.wallets ∙ p.wallets;
  transactions = q.transactions ∙ p.transactions;
  ledger = q.ledger ∙ p.ledger;
}

abbrev pub transfers_stay : Guarantee
transfers_stay = record {
  Rel = SameTransfers;
  same = λ w. record { funds = same_funds w.db; sent = refl };
  after = λ u v w p q. record {
    funds = same_after u.db v.db w.db p.funds q.funds;
    sent = q.sent ∙ p.sent;
  };
}

pub connecting : Observes (Keeps transfers_stay)
connecting = record {
  free = λ c f n r w v a.
      let (db, _, sent) = free-Stays c f r w v a in
      record { funds = subst (SameFunds w.db) (sym db) (same_funds w.db); sent = sent };
  connects = λ k pk t. write-Keeps transfers_stay _ λ w v h.
      subst (SameTransfers w) (sym h.result) (record {
        funds = record { wallets = refl; transactions = refl; ledger = refl };
        sent = refl;
      });
  disconnects = λ k. write-Keeps transfers_stay _ λ w v h.
      subst (SameTransfers w) (sym h.result) (record {
        funds = record { wallets = refl; transactions = refl; ledger = refl };
        sent = refl;
      });
}

module _ (svc : Service) (rel : Reliable svc) where
  -- None of these calls asks for a UUID.
  pub minor : (g : Guarantee) → Observes (Keeps g) → Observes (Minor svc rel g)
  minor g observes = record {
    free = λ c f n. (n, observes.free c f n);
    connects = λ k pk t. (tt, observes.connects k pk t);
    disconnects = λ k. (tt, observes.disconnects k);
  }

-- `encoding/json` writes any transaction with this id, these parties and this amount, and reads
-- from it one that names the same.
abbrev pub Carries : Json → (id from to : String) → ℤ → Type 0
Carries json id from to amount =
    (tx : ApiTransaction)
    → tx.id ≡ id
    → tx.from_user_id ≡ from
    → tx.to_user_id ≡ to
    → tx.amount ≡ amount
    → (body : String) × (x : Transaction) × (json.marshal_transaction tx ≡ some body)
      × (json.unmarshal_transaction body ≡ some x)
      × Names x id from to amount

module _ (svc : Service) (rel : Reliable svc) (env : Environment) where
  -- One message more is on the queue, and nothing else has changed.
  pub record Queued (body : String) (ids : List String) (w : World) (t : svc.State) : Type 0 where
    pub funds : SameFunds w.db (svc.world t).db
    pub on_queue : SentBody body (svc.world t).sent
    pub ready : rel.Ready ids t

  queued :
      (q body : String) (n : ℤ) (ids : List String) (w : World) {t : svc.State}
      → svc.world t ≡ record w { sent = (q, body, n) ∷ w.sent }
      → rel.Ready ids t
      → Queued body ids w t
  queued q body n ids w e ready = record {
    funds = subst (λ v. SameFunds w.db v.db) (sym e) (same_funds w.db);
    on_queue = subst (λ v. SentBody body v.sent) (sym e) (inl refl);
    ready = ready;
  }

  schedule-Succeeds :
      (tx : ApiTransaction) (delay : ℤ) (body : String) (ids : List String) (s : svc.State)
      → env.json.marshal_transaction tx ≡ some body
      → bad_delay delay ≡ false
      → rel.Ready ids s
      → Succeeds svc (schedule_transaction env tx delay) s (λ _ t. Queued body ids (svc.world s) t)
  unfolding schedule_transaction
  schedule-Succeeds tx delay body ids s encoded timely ready =
      let c = send_message env.queue_url body (whole_seconds delay) in
      let went = rel.prompt ids c s ready in
      Succeeds-item _ _ _ body s encoded (
        Succeeds-require _ _ _ s (ap not timely) (
          Succeeds-perform c _ s (
            Succeeds-checked _ _ tt _ went (
              queued _ _ _ _ _
                (subst (λ r. Answers c r (svc.world s) (svc.world (svc.perform c s).1)) went
                  (svc.obeys c s))
                (rel.stays ids c s tt ready)))))

  pub notify_sender-Succeeds :
      (g : Guarantee)
      → Observes (Keeps g)
      → (tx : Transaction) (r : Result Wallet) (ids : List String) (s : svc.State) → rel.Ready ids s
      → Succeeds svc (notify_sender env tx r) s (λ _ t. Passed svc rel g ids (svc.world s) t)
  unfolding notify_sender notify
  notify_sender-Succeeds g observes tx (err e) ids s ready =
      Succeeds-pure tt s (ready, g.same (svc.world s))
  notify_sender-Succeeds g observes tx (ok x) ids s ready =
      Succeeds-aside svc rel g ids _ _ s (publish-Issues (minor svc rel g observes) env _) ready
        λ r t passed. Succeeds-pure tt t passed

  pub after_create-Succeeds :
      (new : NewTransaction) (tx : Transaction) (body : String) (ids : List String) (s : svc.State)
      → env.json.marshal_transaction (to_api_transaction tx) ≡ some body
      → bad_delay (delay_of new.delay_seconds) ≡ false
      → rel.Ready ids s
      → Succeeds svc (after_create env new (ok tx)) s (λ resp t.
        (resp ≡ respond_json env 201 (transaction (to_api_transaction tx)))
        × Queued body ids (svc.world s) t)
  unfolding after_create
  after_create-Succeeds new tx body ids s encoded timely ready =
      Succeeds-bind _ (λ _ t. Queued body ids (svc.world s) t) _ s
        (Succeeds-attempt _ _ _ s (schedule-Succeeds _ _ body ids s encoded timely ready)
          λ _ t q. Succeeds-pure tt t q)
        λ _ t q.
          Succeeds-aside svc rel transfers_stay ids _ _ t
            (get_wallet-Issues (minor svc rel transfers_stay connecting) env.attribute_value _)
            q.ready
            λ r u (ready_u, same_u).
              Succeeds-bind _ _ _ u
                (notify_sender-Succeeds transfers_stay connecting tx r ids u ready_u)
                λ _ v (ready_v, same_v).
                  let all = transfers_stay.after _ _ _ same_u same_v in
                  Succeeds-pure _ v (
                    refl,
                    record {
                      funds = same_after _ _ _ q.funds all.funds;
                      on_queue = subst (SentBody body) (sym all.sent) q.on_queue;
                      ready = ready_v;
                    },
                  )
