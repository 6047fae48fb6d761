-- ===== src/System/Requests.antt =====
-- The requests and the settlement lambda, among other processes.
use mathlib.Core.Path.{subst}
use delayed_wallet_transacti.Prelude.{
  String, ◌≡◌, refl, sym, ◌||◌, ◌==◌, Option, none, some, List, [], ◌∷◌, All,
}
use delayed_wallet_transacti.Prelude.Int.{ℤ}
use delayed_wallet_transacti.Models.{Transaction}
use delayed_wallet_transacti.Errors.{errors_is, insufficient_funds}
use delayed_wallet_transacti.Dynamo.{Db}
use delayed_wallet_transacti.Service.{World, SentBody, receive_messages, send_message}
use delayed_wallet_transacti.Program.{Result, ok, err, Program, pure, attempt, ◌>>=◌}
use delayed_wallet_transacti.Program.Ensures.{
  Ensures, Ensures-bind, Ensures-attempt, Ensures-perform, Ensures-require, Ensures-checked,
  Ensures-item, Ensures-pure, Ensures-if,
}
use delayed_wallet_transacti.Program.Shared.{shared, Done}
use delayed_wallet_transacti.Api.{NewTransaction, Environment}
use delayed_wallet_transacti.Api.Mapping.{to_api_transaction}
use delayed_wallet_transacti.Scheduler.{schedule_transaction}
use delayed_wallet_transacti.Handlers.Transactions.{
  after_create, schedule_decoded, cancel_transaction_by_id,
}
use delayed_wallet_transacti.Lambdas.{
  Next, continue, return, handle_message, next_or_return, handle_settlement_request,
  settle_delivered,
}
use delayed_wallet_transacti.Store.SettleTransaction.{settle_transaction}
use delayed_wallet_transacti.Store.Guarded.{observed, get_wallet-Issues}
use delayed_wallet_transacti.Transfers.Processes.{notify_sender-Issues, after_settle-Issues}
use delayed_wallet_transacti.System.{Known, IsGenuine, Consistent, IsFaithful, Invariance}
use delayed_wallet_transacti.System.Knowledge.{Known-later, IsGenuine-later}
use delayed_wallet_transacti.System.Calls.{discipline, free-Always, observes, send-Sustains}
use delayed_wallet_transacti.System.Facts.{Known-same, Ensures-unaware, Ensures-then}
use delayed_wallet_transacti.System.Transactions.{
  Returns_known, create_transaction-Known, settle_transaction-Done, cancel_transaction-Done,
}

module _ (env : Environment) {Fit : ℤ → Type 0} {R : Db → Db → Type 0} (i : Invariance Fit R)
    (faithful : IsFaithful env.json) where
  sent-IsGenuine :
      (tx : Transaction) (body : String) (d : Db)
      → env.json.marshal_transaction (to_api_transaction tx) ≡ some body
      → Known tx d
      → IsGenuine env.json d body
  sent-IsGenuine tx body d m known x u =
      Known-same x tx d (faithful.reads_back (to_api_transaction tx) body x m u) known

  pub schedule_transaction-Done :
      (tx : Transaction) (delay : ℤ) (w : World)
      → Known tx w.db
      → Ensures
          (shared (discipline env.json i))
          (schedule_transaction env (to_api_transaction tx) delay)
          w
          Done
  unfolding schedule_transaction
  schedule_transaction-Done tx delay w known =
      Ensures-item _ _ _ w
        (λ body m.
          Ensures-require _ _ _ w
            (λ _.
              Ensures-perform (send_message _ _ _) _ w
                (λ u later.
                  send-Sustains env.json i _ body _ u
                    (sent-IsGenuine tx body u.db m (Known-later tx w.db u.db later.0 known)))
                λ r v _. Ensures-checked _ r v (λ _ _. tt) (λ _ _. tt))
            tt)
        (λ _. tt)

  -- The error is dropped.
  pub dropped :
      (p : Program (Unit {0})) (w : World)
      → Ensures (shared (discipline env.json i)) p w Done
      → Ensures (shared (discipline env.json i)) (attempt p >>= λ _. pure tt) w Done
  dropped p w h = Ensures-attempt _ Done p w h λ r v _. Ensures-pure tt v tt

  after_create-Done :
      (new : NewTransaction) (r : Result Transaction) (w : World)
      → Returns_known r w
      → Ensures (shared (discipline env.json i)) (after_create env new r) w Done
  unfolding after_create
  after_create-Done new (err e) w h =
      Ensures-if (errors_is e insufficient_funds) _ _ w (λ _. Ensures-pure _ w tt)
        (λ _. Ensures-pure _ w tt)
  after_create-Done new (ok tx) w known =
      Ensures-bind _ Done _ w (dropped _ w (schedule_transaction-Done tx _ w known))
        (λ _ v _. Ensures-unaware env.json i _ v (
          search (observed, get_wallet-Issues, notify_sender-Issues, observes env.json i) depth 20))
        (λ e v _. tt)

  pub schedule_decoded-Done :
      (decoded : Result NewTransaction) (w : World)
      → ((new : NewTransaction) → decoded ≡ ok new → Fit new.amount)
      → Ensures (shared (discipline env.json i)) (schedule_decoded env decoded) w Done
  unfolding schedule_decoded
  schedule_decoded-Done (err e) w fit = Ensures-pure _ w tt
  schedule_decoded-Done (ok new) w fit =
      Ensures-attempt _ Returns_known _ w
        (create_transaction-Known env.json i env.attribute_value _ w (fit new refl))
        λ r v known. after_create-Done new r v known

  pub cancel_by_id-Done :
      (k : String) (w : World)
      → Ensures (shared (discipline env.json i)) (cancel_transaction_by_id env k) w Done
  unfolding cancel_transaction_by_id
  cancel_by_id-Done k w =
      Ensures-attempt _ Done _ w (cancel_transaction-Done env.json i env.attribute_value k w)
        λ r v _. Ensures-pure _ v tt

  handle_message-Done :
      (o : Option Transaction) (w : World)
      → ((x : Transaction) → o ≡ some x → Known x w.db)
      → Ensures (shared (discipline env.json i)) (handle_message env o) w Done
  unfolding handle_message
  handle_message-Done none w h = Ensures-pure continue w tt
  handle_message-Done (some x) w h =
      Ensures-if ((x.from_user_id == "") || (x.to_user_id == "")) _ _ w
        (λ _. Ensures-pure continue w tt)
        (λ _.
          Ensures-attempt _ Done (settle_transaction env.attribute_value x) w
            (settle_transaction-Done env.json i env.attribute_value x w (h x refl))
            λ r v _.
              Ensures-unaware env.json i _ v (after_settle-Issues (observes env.json i) env x r))

  next-Done :
      (p : Program (Unit {0})) (n : Next) (w : World)
      → Ensures (shared (discipline env.json i)) p w Done
      → Ensures (shared (discipline env.json i)) (next_or_return env p n) w Done
  next-Done p continue w h = h
  next-Done p return w h = Ensures-pure tt w tt

  All-IsGenuine-later :
      (bs : List String) (w v : World)
      → (discipline env.json i).Future w v
      → All (IsGenuine env.json w.db) bs
      → All (IsGenuine env.json v.db) bs
  All-IsGenuine-later [] w v later h = tt
  All-IsGenuine-later (b ∷ bs) w v later h =
      (IsGenuine-later env.json w.db v.db b later.0 h.0, All-IsGenuine-later bs w v later h.1)

  settlement_request-Done :
      (bs : List String) (w : World)
      → All (IsGenuine env.json w.db) bs
      → Ensures (shared (discipline env.json i)) (handle_settlement_request env bs) w Done
  unfolding handle_settlement_request
  settlement_request-Done [] w h = Ensures-pure tt w tt
  settlement_request-Done (b ∷ bs) w h =
      let rest = settlement_request-Done bs in
      Ensures-then env.json i _ (λ d. All (IsGenuine env.json d) bs) (All-IsGenuine-later bs) _ w
        (handle_message-Done _ w h.0) h.1 λ n v genuine. next-Done _ n v (rest v genuine)

  delivered-IsGenuine :
      (bs : List String) (u : World)
      → Consistent env.json u
      → All (λ b. SentBody b u.sent) bs
      → All (IsGenuine env.json u.db) bs
  delivered-IsGenuine [] u c h = tt
  delivered-IsGenuine (b ∷ bs) u c h = (c.genuine b h.0, delivered-IsGenuine bs u c h.1)

  pub settle_delivered-Done :
      (w : World) → Ensures (shared (discipline env.json i)) (settle_delivered env) w Done
  unfolding settle_delivered
  settle_delivered-Done w =
      Ensures-perform receive_messages _ w (λ u _. free-Always env.json i receive_messages tt u)
        λ bs v (u, _, c, (delivered, same), _). settlement_request-Done bs v (
          subst (λ z. All (IsGenuine env.json z.db) bs) (sym same)
            (delivered-IsGenuine bs u c delivered))
