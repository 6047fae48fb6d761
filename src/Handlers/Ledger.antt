-- ===== src/Handlers/Ledger.antt =====
-- pkg/handlers/ledger/ledger.go.
use delayed_wallet_transacti.Prelude.{Option, none, some, List, map}
use delayed_wallet_transacti.Prelude.Int.{ℤ, pos}
use delayed_wallet_transacti.Models.{LedgerEntry}
use delayed_wallet_transacti.Program.{Result, ok, err, Program, pure, attempt, ◌>>=◌}
use delayed_wallet_transacti.Api.{Response, entries, Environment}
use delayed_wallet_transacti.Api.Mapping.{to_api_ledger_entry}
use delayed_wallet_transacti.Store.Queries.{list_ledger_entries}
use delayed_wallet_transacti.Handlers.{http_error, failed, respond_json}

abbrev pub limit_of : Option ℤ → ℤ
limit_of none = pos 20
limit_of (some n) = n

module _ (env : Environment) where
  abbrev pub ledger_response : Result (List LedgerEntry) → Response
  ledger_response (ok es) = respond_json env 200 (entries (map to_api_ledger_entry es))
  ledger_response (err e) = http_error (failed env "Failed to retrieve ledger entries" e) 500

  unfoldable pub list_ledger_entries_request : Option ℤ → Program Response
  list_ledger_entries_request limit = do
    found ← attempt (list_ledger_entries env.attribute_value (limit_of limit))
    pure (ledger_response found)
