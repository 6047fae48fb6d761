-- ===== src/Tests/Listing.antt =====
-- Requests that list items, and notifications, on the small bank.
use delayed_wallet_transacti.Prelude.{◌≡◌, refl, true, List, [], ◌∷◌, map}
use delayed_wallet_transacti.Prelude.Int.{pos}
use delayed_wallet_transacti.Prelude.Table.{lookup}
use delayed_wallet_transacti.Models.{Status, Wallet, ttl_from}
use delayed_wallet_transacti.Service.{done, scan_wallets, query_from_user}
use delayed_wallet_transacti.Service.Pages.{item_page}
use delayed_wallet_transacti.Service.Memory.{memory, memory_call}
use delayed_wallet_transacti.Program.{run, ok}
use delayed_wallet_transacti.Api.{transactions, wallets}
use delayed_wallet_transacti.Api.Mapping.{to_api_transaction, to_api_wallet}
use delayed_wallet_transacti.Handlers.{respond_json}
use delayed_wallet_transacti.Store.Wallets.{list_wallets}
use delayed_wallet_transacti.Store.Queries.{list_transactions_by_user_id}
use delayed_wallet_transacti.Store.Queries.Reads.{FromUser, StoredWallet}
use delayed_wallet_transacti.Handlers.Transactions.{list_transactions_request, notify_settlement}
use delayed_wallet_transacti.Handlers.Transactions.Notifying.{
  NotifyOutcome, notify_settlement-Outcome,
}
use delayed_wallet_transacti.Handlers.Wallets.{list_wallets_request}
use delayed_wallet_transacti.Handlers.Listing.{
  ListOutcome, ShowsTransactions, ShowsWallets, list_transactions_request-Outcome,
  list_wallets_request-Outcome,
}
use delayed_wallet_transacti.Tests.{process, reserved_rent, bank, machine, wallet_of, rent_message}

abbrev bank_wallets : List Wallet
bank_wallets = wallet_of "alice" (pos 100) ∷ wallet_of "bob" (pos 50) ∷ []

-- The scan finds both wallets, and the query Alice's one transaction.
lists_both : (memory.perform scan_wallets bank).0 ≡ done bank_wallets
unfolding memory_call item_page lookup
lists_both = refl

shows_both :
    (run memory (list_wallets_request process) bank).0
    ≡ ok (respond_json process 200 (wallets (map to_api_wallet bank_wallets)))
unfolding machine list_wallets_request list_wallets item_page
shows_both = refl

shows_rent :
    ((run memory (list_transactions_request process "alice") reserved_rent).0)
    ≡ ok (
        respond_json process 200 (
          transactions (
            to_api_transaction (record rent_message {
              status = Status.reserved;
              created_at = bank.clock;
              updated_at = bank.clock;
              ttl = ttl_from bank.clock;
            })
            ∷ [])))
unfolding machine reserved_rent list_transactions_request list_transactions_by_user_id item_page
shows_rent = refl

list_transactions_request-Outcome_example :
    let (reply, _) = memory.perform (query_from_user "alice") reserved_rent in
    let (r, m) = run memory (list_transactions_request process "alice") reserved_rent in
    ListOutcome
      (FromUser "alice")
      (λ xs. true)
      (ShowsTransactions process)
      reserved_rent.contents
      reply
      r
      m.contents
list_transactions_request-Outcome_example =
    list_transactions_request-Outcome memory process "alice" reserved_rent

list_wallets_request-Outcome_example :
    let (reply, _) = memory.perform scan_wallets reserved_rent in
    let (r, m) = run memory (list_wallets_request process) reserved_rent in
    ListOutcome StoredWallet
      (λ ws. true)
      (ShowsWallets process)
      reserved_rent.contents
      reply
      r
      m.contents
list_wallets_request-Outcome_example = list_wallets_request-Outcome memory process reserved_rent

notify_settlement-Outcome_example :
    let (r, m) = run memory (notify_settlement process "t1") reserved_rent in
    NotifyOutcome memory process "t1" reserved_rent r m
notify_settlement-Outcome_example = notify_settlement-Outcome memory process "t1" reserved_rent
