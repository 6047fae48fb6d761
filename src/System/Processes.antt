-- ===== src/System/Processes.antt =====
-- All processes at once: the world stays consistent, and an invariance holds.
use mathlib.Core.Path.{subst}
use delayed_wallet_transacti.Prelude.{ℕ, true, String, ◌≡◌, sym, List, [], ◌∷◌, All, map}
use delayed_wallet_transacti.Prelude.Int.{ℤ, pos}
use delayed_wallet_transacti.Models.{Status, Instant, Transaction}
use delayed_wallet_transacti.Dynamo.{Db}
use delayed_wallet_transacti.Models.Dates.{text_before}
use delayed_wallet_transacti.Service.{
  World, FromSeen, InIndex, Service, Outcome, done, fault, Answers, time_now, new_uuid,
  query_status_before,
}
use delayed_wallet_transacti.Program.{ok, err, Program, perform}
use delayed_wallet_transacti.Program.Issues.{Issues-perform}
use delayed_wallet_transacti.Program.Ensures.{
  Post, Ensures, Ensures-bind, Ensures-perform, Ensures-require, Ensures-bind_checked, Ensures-pure,
}
use delayed_wallet_transacti.Program.Shared.{shared, Done, interleave-Sound}
use delayed_wallet_transacti.Api.{NewTransaction, Environment}
use delayed_wallet_transacti.Handlers.Transactions.{schedule_transaction_request}
use delayed_wallet_transacti.Lambdas.{reschedule_each, handle_reconciliation_request}
use delayed_wallet_transacti.Store.Queries.{get_stuck_transactions}
use delayed_wallet_transacti.Transfers.{
  Task, post_transaction, get_transaction, delete_transaction, post_notify_settlement,
  get_user_transactions, get_ledger, get_wallets, get_wallet, connect, disconnect, client_message,
  local_socket, logged, behind_logger, settlement_delivery, settlement_lambda,
  reconciliation_lambda, quietly, task_program, transfers,
}
use delayed_wallet_transacti.Transfers.Processes.{
  get_by_id-Issues, notify_settlement-Issues, list_request-Issues, ledger_request-Issues,
  serve_http-Issues, wallets_request-Issues, wallet_request-Issues, connect-Issues,
  disconnect-Issues, default-Issues,
}
use delayed_wallet_transacti.System.{Known, Consistent, IsFaithful, Invariance}
use delayed_wallet_transacti.System.Knowledge.{Known-later, Seen-Known}
use delayed_wallet_transacti.System.Calls.{discipline, free-Always, observes}
use delayed_wallet_transacti.System.Facts.{Ensures-unaware, Ensures-then}
use delayed_wallet_transacti.System.Requests.{
  schedule_transaction-Done, dropped, schedule_decoded-Done, cancel_by_id-Done,
  settle_delivered-Done,
}

-- The settlement lambda is started by the queue only.
abbrev pub IsDelivered : Task → Type 0
IsDelivered (settlement_lambda bodies) = ⊥
IsDelivered (logged t) = IsDelivered t
IsDelivered _ = Unit

-- The amount of every request that is accepted as JSON is fit.
abbrev pub Accepts : Environment → (ℤ → Type 0) → Type 0
Accepts env Fit =
    (body : String) (new : NewTransaction)
    → env.json.decode_new_transaction body ≡ ok new
    → Fit new.amount

-- The transactions that a program returns are stored.
abbrev Returns_all_known : Post (List Transaction)
Returns_all_known (ok xs) v = All (λ x. Known x v.db) xs
Returns_all_known (err e) v = Unit

module _ (env : Environment) {Fit : ℤ → Type 0} {R : Db → Db → Type 0} (i : Invariance Fit R)
    (faithful : IsFaithful env.json) (accepts : Accepts env Fit) where
  page-Known :
      (u : World) (xs : List Transaction) (t : Instant)
      → Consistent env.json u
      → FromSeen
          (InIndex (λ y. (y.status ≡ Status.reserved) × (text_before y.created_at t ≡ true)))
          u
          xs
      → All (λ x. Known x u.db) xs
  page-Known u [] t c h = tt
  page-Known u (x ∷ xs) t c ((d, seen, held), more) =
      ((Seen-Known d u c x.id x seen held.0).0, page-Known u xs t c more)

  found-Known :
      (t : Instant) (r : Outcome (List Transaction)) (u v : World)
      → Consistent env.json u
      → Answers (query_status_before Status.reserved t) r u v
      → {xs : List Transaction} → r ≡ done xs
      → All (λ x. Known x v.db) xs
  found-Known t (done ys) u v c (items, same) {xs} e =
      subst (All (λ x. Known x v.db)) (done_same xs e)
        (subst (λ z. All (λ x. Known x z.db) ys) (sym same) (page-Known u ys t c items))
    where
      done_same : (xs : List Transaction) → done ys ≡ done xs → ys ≡ xs
      done_same xs e = cc
  found-Known t (fault f) u v c a e = cc

  get_stuck-Known :
      (age : ℕ) (w : World)
      → Ensures
          (shared (discipline env.json i))
          (get_stuck_transactions env.attribute_value age)
          w
          Returns_all_known
  unfolding get_stuck_transactions
  get_stuck-Known age w =
      Ensures-perform time_now _ w (λ u _. free-Always env.json i time_now tt u)
        λ now w1 _.
          Ensures-require _ _ _ w1
            (λ _.
              Ensures-perform (query_status_before Status.reserved _) _ w1
                (λ u _. free-Always env.json i (query_status_before Status.reserved _) tt u)
                λ r v (u, _, c, a, _).
                  Ensures-bind_checked _ _ r v
                    (λ xs e.
                      Ensures-require _ _ _ v (λ _. Ensures-pure xs v (found-Known _ r u v c a e))
                        tt)
                    (λ e _. tt))
            tt

  All-later :
      (xs : List Transaction) (w v : World)
      → (discipline env.json i).Future w v
      → All (λ x. Known x w.db) xs
      → All (λ x. Known x v.db) xs
  All-later [] w v later h = tt
  All-later (x ∷ xs) w v later h = (Known-later x w.db v.db later.0 h.0, All-later xs w v later h.1)

  reschedule-Done :
      (xs : List Transaction) (w : World)
      → All (λ x. Known x w.db) xs
      → Ensures (shared (discipline env.json i)) (reschedule_each env xs) w Done
  unfolding reschedule_each
  reschedule-Done [] w h = Ensures-pure tt w tt
  reschedule-Done (x ∷ xs) w h =
      let rest = reschedule-Done xs in
      Ensures-then env.json i _ (λ d. All (λ y. Known y d) xs) (All-later xs) _ w
        (dropped env i faithful _ w (schedule_transaction-Done env i faithful x (pos 0) w h.0)) h.1
        λ _ v known. rest v known

  reconciliation-Done :
      (w : World)
      → Ensures (shared (discipline env.json i)) (handle_reconciliation_request env) w Done
  unfolding handle_reconciliation_request
  reconciliation-Done w =
      Ensures-bind _ Returns_all_known _ w (get_stuck-Known _ w)
        (λ xs v known. reschedule-Done xs v known) (λ e v _. tt)

  schedule_request-Done :
      (body : String) (w : World)
      → Ensures (shared (discipline env.json i)) (schedule_transaction_request env body) w Done
  unfolding schedule_transaction_request
  schedule_request-Done body w = schedule_decoded-Done env i faithful _ w (accepts body)

  quiet-Done :
      {A : Type 0} (p : Program A) (w : World)
      → Ensures (shared (discipline env.json i)) p w Done
      → Ensures (shared (discipline env.json i)) (quietly p) w Done
  quiet-Done p w h = Ensures-bind _ Done p w h (λ a v _. Ensures-pure tt v tt) (λ e v _. tt)

  clock-Done : (w : World) → Ensures (shared (discipline env.json i)) (perform time_now) w Done
  clock-Done w =
      Ensures-unaware env.json i _ w (Issues-perform time_now (free-Always env.json i time_now tt))

  logged-Done :
      (p : Program (Unit {0})) (w : World)
      → ((v : World) → Ensures (shared (discipline env.json i)) p v Done)
      → Ensures (shared (discipline env.json i)) (behind_logger p) w Done
  logged-Done p w h =
      Ensures-bind _ Done (perform time_now) w (clock-Done w)
        (λ _ v _.
          Ensures-bind _ Done p v (h v)
            (λ _ u _.
              Ensures-bind _ Done (perform time_now) u (clock-Done u)
                (λ _ z _. Ensures-pure tt z tt) (λ e z _. tt))
            (λ e u _. tt))
        (λ e v _. tt)

  task-Done :
      (t : Task) (w : World)
      → IsDelivered t
      → Ensures (shared (discipline env.json i)) (task_program env t) w Done
  unfolding task_program
  task-Done (post_transaction b) w d = quiet-Done _ w (schedule_request-Done b w)
  task-Done (get_transaction k) w d =
      quiet-Done _ w (Ensures-unaware env.json i _ w (get_by_id-Issues (observes env.json i) env k))
  task-Done (delete_transaction k) w d = quiet-Done _ w (cancel_by_id-Done env i faithful k w)
  task-Done (post_notify_settlement k) w d =
      quiet-Done _ w
        (Ensures-unaware env.json i _ w (notify_settlement-Issues (observes env.json i) env k))
  task-Done (get_user_transactions k) w d =
      quiet-Done _ w
        (Ensures-unaware env.json i _ w (list_request-Issues (observes env.json i) env k))
  task-Done (get_ledger n) w d =
      quiet-Done _ w
        (Ensures-unaware env.json i _ w (ledger_request-Issues (observes env.json i) env n))
  task-Done get_wallets w d =
      quiet-Done _ w
        (Ensures-unaware env.json i _ w (wallets_request-Issues (observes env.json i) env))
  task-Done (get_wallet k) w d =
      quiet-Done _ w
        (Ensures-unaware env.json i _ w (wallet_request-Issues (observes env.json i) env k))
  task-Done (connect k) w d =
      quiet-Done _ w (Ensures-unaware env.json i _ w (connect-Issues (observes env.json i) env k))
  task-Done (disconnect k) w d =
      quiet-Done _ w
        (Ensures-unaware env.json i _ w (disconnect-Issues (observes env.json i) env k))
  task-Done client_message w d =
      quiet-Done _ w (Ensures-unaware env.json i _ w (default-Issues (observes env.json i) env))
  task-Done (local_socket c) w d = quiet-Done _ w (
      Ensures-unaware env.json i _ w
        (serve_http-Issues (observes env.json i) (free-Always env.json i new_uuid tt) env c))
  task-Done (logged t) w d = logged-Done _ w (λ v. task-Done t v d)
  task-Done settlement_delivery w d = settle_delivered-Done env i faithful w
  task-Done (settlement_lambda bs) w d = elim d [ ]
  task-Done reconciliation_lambda w d = reconciliation-Done w

  tasks-Done :
      (ts : List Task) (w : World)
      → All IsDelivered ts
      → All (λ p. Ensures (shared (discipline env.json i)) p w Done) (map (task_program env) ts)
  tasks-Done [] w h = tt
  tasks-Done (t ∷ ts) w h = (task-Done t w h.0, tasks-Done ts w h.1)

  pub processes-Rel :
      (svc : Service) (schedule : List ℕ) (tasks : List Task) (s : svc.State)
      → All IsDelivered tasks
      → Consistent env.json (svc.world s)
      → R (svc.world s).db (transfers svc env schedule tasks s)
  unfolding transfers
  processes-Rel svc schedule tasks s delivered c =
      (interleave-Sound svc (discipline env.json i) schedule _ s c
        (tasks-Done tasks (svc.world s) delivered)).1.1
