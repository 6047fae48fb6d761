-- ===== src/Handlers/Listing.antt =====
-- GET /users/{userId}/transactions, GET /wallets and GET /ledger, by their responses and by the
-- reply to the one query of each.
use mathlib.Core.List.{Perm}
use delayed_wallet_transacti.Prelude.{String, ◌≡◌, refl, ◌⊎◌, inl, inr, Bool, Option, List, map}
use delayed_wallet_transacti.Prelude.Int.{ℤ}
use delayed_wallet_transacti.Models.{Transaction, Wallet, LedgerEntry}
use delayed_wallet_transacti.Errors.{Error, Fault}
use delayed_wallet_transacti.Dynamo.{Db}
use delayed_wallet_transacti.Service.{
  World, Service, FromSeen, Outcome, done, fault, Answers, scan_wallets, query_from_user,
  query_ledger_latest,
}
use delayed_wallet_transacti.Program.{
  Result, ok, err, pure, attempt, checked, require, perform, ◌>>=◌, run,
}
use delayed_wallet_transacti.Program.Ensures.{
  Post, Ensures, sequential, Ensures-attempt, Ensures-pure,
}
use delayed_wallet_transacti.Program.Runs.{run-reply}
use delayed_wallet_transacti.Api.{Response, Environment, transactions, wallets, entries}
use delayed_wallet_transacti.Api.Mapping.{to_api_transaction, to_api_wallet, to_api_ledger_entry}
use delayed_wallet_transacti.Store.Codec
use delayed_wallet_transacti.Store.Wallets.{list_wallets}
use delayed_wallet_transacti.Store.Queries.{list_ledger_entries, list_transactions_by_user_id}
use delayed_wallet_transacti.Store.Queries.Reads.{
  Listed, Unread, Page, reads_page, FromUser, StoredWallet, StoredEntry,
}
use delayed_wallet_transacti.Handlers.{respond_json}
use delayed_wallet_transacti.Handlers.Transactions.{list_response, list_transactions_request}
use delayed_wallet_transacti.Handlers.Wallets.{sort_newest, wallets_response, list_wallets_request}
use delayed_wallet_transacti.Handlers.Wallets.Order.{IsNewestFirst, sort_newest-Sorts}
use delayed_wallet_transacti.Handlers.Ledger.{
  limit_of, ledger_response, list_ledger_entries_request,
}

module _ {A : Type 0} (Good : A → Db → Type 0) (readable : List A → Bool)
    (Shows : List A → Response → Type 0) (w : World) where
  -- Nothing has changed. The response shows just the items of the query's reply, each good in the
  -- tables as they stand or stood; or it is a 500, and the reply is of no use.
  abbrev pub ListOutcome : Outcome (List A) → Post Response
  ListOutcome reply (err e) v = ⊥
  ListOutcome reply (ok resp) v =
      (v ≡ w)
      × (((xs : List A) × (reply ≡ done xs) × FromSeen Good w xs × Shows xs resp)
          ⊎ ((resp.status ≡ 500) × Unread Good readable w reply))

  module _ (answer : Result (List A) → Response) (shows : (xs : List A) → Shows xs (answer (ok xs)))
      (fails : (e : Error) → (answer (err e)).status ≡ 500) where
    answered :
        (reply : Outcome (List A)) (r : Result (List A)) (v : World)
        → Page Good readable w reply r v
        → ListOutcome reply (ok (answer r)) v
    answered reply (ok xs) v (same, replied, good) = (same, inl (xs, replied, good, shows xs))
    answered reply (err e) v (same, unread) = (same, inr (fails e, unread))

    answer-ListOutcome :
        (g : Fault → Error) (e : Error) (reply : Outcome (List A)) (v : World)
        → Listed Good readable w reply v
        → Ensures sequential
            (attempt (checked g reply >>= λ items. require (readable items) e >>= λ _. pure items)
              >>= λ r. pure (answer r))
            v
            (ListOutcome reply)
    answer-ListOutcome g e reply v h =
        Ensures-attempt _ (Page Good readable w reply) _ v
          (reads_page Good readable w g e reply v h)
          λ r u q. Ensures-pure _ u (answered reply r u q)

module _ (env : Environment) where
  abbrev pub ShowsTransactions : List Transaction → Response → Type 0
  ShowsTransactions txs resp =
      resp ≡ respond_json env 200 (transactions (map to_api_transaction txs))

  -- Every wallet, the newest first.
  abbrev pub ShowsWallets : List Wallet → Response → Type 0
  ShowsWallets ws resp =
      (sorted : List Wallet) × IsNewestFirst sorted
      × Perm sorted ws
      × (resp ≡ respond_json env 200 (wallets (map to_api_wallet sorted)))

  abbrev pub ShowsEntries : List LedgerEntry → Response → Type 0
  ShowsEntries es resp = resp ≡ respond_json env 200 (entries (map to_api_ledger_entry es))

module _ (svc : Service) (env : Environment) where
  wallets-Listed :
      (w : World) (r : Outcome (List Wallet)) (v : World)
      → Answers scan_wallets r w v
      → Listed StoredWallet (λ ws. env.attribute_value.unmarshals (Codec.wallets ws)) w r v
  wallets-Listed w (done xs) v a = a
  wallets-Listed w (fault e) v a = a

  transactions-Listed :
      (user_id : String) (w : World) (r : Outcome (List Transaction)) (v : World)
      → Answers (query_from_user user_id) r w v
      → Listed
          (FromUser user_id)
          (λ xs. env.attribute_value.unmarshals (Codec.transactions xs))
          w
          r
          v
  transactions-Listed user_id w (done xs) v a = a
  transactions-Listed user_id w (fault e) v a = a

  entries-Listed :
      (limit : ℤ) (w : World) (r : Outcome (List LedgerEntry)) (v : World)
      → Answers (query_ledger_latest "LEDGER_ENTRIES" limit) r w v
      → Listed StoredEntry (λ es. env.attribute_value.unmarshals (Codec.entries es)) w r v
  entries-Listed limit w (done xs) v a = a
  entries-Listed limit w (fault e) v a = a

  -- The list of a user's transactions, whatever the services answer: the request changes nothing
  -- and always answers. It is a 200 with just the transactions of the reply to its query of the
  -- index from_user_id-index, in their order: the user is the sender of each, and each is stored,
  -- in the table as it stands or stood before an earlier write. Or it is a 500, and the query
  -- failed or its items cannot be unmarshalled.
  pub list_transactions_request-Outcome :
      (user_id : String) (s : svc.State)
      → let (reply, _) = svc.perform (query_from_user user_id) s in
        let (r, t) = run svc (list_transactions_request env user_id) s in
        ListOutcome
          (FromUser user_id)
          (λ xs. env.attribute_value.unmarshals (Codec.transactions xs))
          (ShowsTransactions env)
          (svc.world s)
          reply
          r
          (svc.world t)
  unfolding list_transactions_request list_transactions_by_user_id perform attempt ◌>>=◌
  list_transactions_request-Outcome user_id s =
      run-reply svc (query_from_user user_id) _
        (ListOutcome (FromUser user_id) _ (ShowsTransactions env) (svc.world s))
        (list_transactions_request env user_id) s refl
        λ r v a.
          answer-ListOutcome _ _ _ _ (list_response env) (λ xs. refl) (λ e. refl) _ _ r v
            (transactions-Listed user_id _ r v a)

  -- The list of wallets, whatever the services answer: the request changes nothing and always
  -- answers. It is a 200 with just the wallets of the reply to its scan of the table, each as
  -- often as it is there, but sorted, the newest first: each is stored, in the table as it stands
  -- or stood before an earlier write. Or it is a 500, and the scan failed or its items cannot be
  -- unmarshalled.
  pub list_wallets_request-Outcome :
      (s : svc.State)
      → let (reply, _) = svc.perform scan_wallets s in
        let (r, t) = run svc (list_wallets_request env) s in
        ListOutcome StoredWallet
          (λ ws. env.attribute_value.unmarshals (Codec.wallets ws))
          (ShowsWallets env)
          (svc.world s)
          reply
          r
          (svc.world t)
  unfolding list_wallets_request list_wallets perform attempt ◌>>=◌
  list_wallets_request-Outcome s =
      run-reply svc scan_wallets _ (ListOutcome StoredWallet _ (ShowsWallets env) (svc.world s))
        (list_wallets_request env) s refl
        λ r v a.
          answer-ListOutcome _ _ _ _ (wallets_response env)
            (λ ws.
              let (newest, same) = sort_newest-Sorts ws in (sort_newest ws, newest, same, refl))
            (λ e. refl) _ _ r v (wallets-Listed _ r v a)

  -- The list of ledger entries, whatever the services answer: the request changes nothing and
  -- always answers. It is a 200 with just the entries of the reply to its query, in their order:
  -- each is stored, in the table as it stands or stood before an earlier write. Or it is a 500,
  -- and the query failed or its items cannot be unmarshalled.
  pub list_ledger_entries_request-Outcome :
      (limit : Option ℤ) (s : svc.State)
      → let (reply, _) = svc.perform (query_ledger_latest "LEDGER_ENTRIES" (limit_of limit)) s in
        let (r, t) = run svc (list_ledger_entries_request env limit) s in
        ListOutcome StoredEntry
          (λ es. env.attribute_value.unmarshals (Codec.entries es))
          (ShowsEntries env)
          (svc.world s)
          reply
          r
          (svc.world t)
  unfolding list_ledger_entries_request list_ledger_entries perform attempt ◌>>=◌
  list_ledger_entries_request-Outcome limit s =
      run-reply svc (query_ledger_latest "LEDGER_ENTRIES" _) _
        (ListOutcome StoredEntry _ (ShowsEntries env) (svc.world s))
        (list_ledger_entries_request env limit) s refl
        λ r v a.
          answer-ListOutcome _ _ _ _ (ledger_response env) (λ xs. refl) (λ e. refl) _ _ r v
            (entries-Listed (limit_of limit) _ r v a)
