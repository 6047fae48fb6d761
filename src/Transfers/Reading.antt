-- ===== src/Transfers/Reading.antt =====
-- The requests that only read, and the WebSocket events.
use delayed_wallet_transacti.Prelude.{sym, ℕ, List, [], ◌∷◌, All, map}
use mathlib.Core.Path.{subst}
use delayed_wallet_transacti.Service.{Service, new_uuid}
use delayed_wallet_transacti.Program.Issues.{Issues}
use delayed_wallet_transacti.Program.Schedule.{Keeps, interleave-Rel}
use delayed_wallet_transacti.Store.Guarded.{observed, admits_time_now}
use delayed_wallet_transacti.Api.{Environment}
use delayed_wallet_transacti.Handlers.Transactions.Scheduling.{
  SameFunds, same_funds, funds_stay, observes,
}
use delayed_wallet_transacti.Transfers.{
  Task, post_transaction, get_transaction, delete_transaction, post_notify_settlement,
  get_user_transactions, get_ledger, get_wallets, get_wallet, connect, disconnect, client_message,
  local_socket, logged, settlement_delivery, settlement_lambda, reconciliation_lambda, task_program,
  transfers,
}
use delayed_wallet_transacti.Transfers.Processes.{
  get_by_id-Issues, notify_settlement-Issues, list_request-Issues, ledger_request-Issues,
  serve_http-Issues, behind_logger-Issues, wallets_request-Issues, wallet_request-Issues,
  connect-Issues, disconnect-Issues, default-Issues,
}

-- No request to move funds, and no lambda run.
abbrev pub IsReading : Task → Type 0
IsReading (post_transaction _) = ⊥
IsReading (delete_transaction _) = ⊥
IsReading settlement_delivery = ⊥
IsReading (settlement_lambda _) = ⊥
IsReading reconciliation_lambda = ⊥
IsReading (logged t) = IsReading t
IsReading _ = Unit

uuid-Keeps : Keeps funds_stay new_uuid
uuid-Keeps r w v a = subst (λ u. SameFunds w.db u.db) (sym a) (same_funds w.db)

module _ (env : Environment) where
  reader-Issues : (t : Task) → IsReading t → Issues (Keeps funds_stay) (task_program env t)
  unfolding task_program
  reader-Issues (get_transaction k) r = search (observed, observes, get_by_id-Issues) depth 10
  reader-Issues (post_notify_settlement k) r =
      search (observed, observes, notify_settlement-Issues) depth 10
  reader-Issues (get_user_transactions k) r =
      search (observed, observes, list_request-Issues) depth 10
  reader-Issues (get_ledger n) r = search (observed, observes, ledger_request-Issues) depth 10
  reader-Issues get_wallets r = search (observed, observes, wallets_request-Issues) depth 10
  reader-Issues (get_wallet k) r = search (observed, observes, wallet_request-Issues) depth 10
  reader-Issues (connect k) r = search (observed, observes, connect-Issues) depth 10
  reader-Issues (disconnect k) r = search (observed, observes, disconnect-Issues) depth 10
  reader-Issues client_message r = search (observed, observes, default-Issues) depth 10
  reader-Issues (local_socket c) r =
      search (observed, observes, serve_http-Issues observes uuid-Keeps env) depth 10
  reader-Issues (logged t) r = behind_logger-Issues (admits_time_now observes) _ (reader-Issues t r)
  reader-Issues (post_transaction _) r = elim r [ ]
  reader-Issues (delete_transaction _) r = elim r [ ]
  reader-Issues settlement_delivery r = elim r [ ]
  reader-Issues (settlement_lambda _) r = elim r [ ]
  reader-Issues reconciliation_lambda r = elim r [ ]

  readers-Issues :
      (ts : List Task)
      → All IsReading ts
      → All (λ p. Issues (Keeps funds_stay) p) (map (task_program env) ts)
  readers-Issues [] h = tt
  readers-Issues (t ∷ ts) h = (reader-Issues t h.0, readers-Issues ts h.1)

  -- The GET requests, the notifications of settlements and the events of the WebSocket, in any
  -- number and any interleaving, with any faults of the services, leave the wallets, the
  -- transactions and the ledger as they are.
  pub transfers-Reading :
      (svc : Service) (schedule : List ℕ) (tasks : List Task) (s : svc.State)
      → All IsReading tasks
      → SameFunds (svc.world s).db (transfers svc env schedule tasks s)
  unfolding transfers
  transfers-Reading svc schedule tasks s reading =
      interleave-Rel svc funds_stay schedule _ s (readers-Issues tasks reading)
