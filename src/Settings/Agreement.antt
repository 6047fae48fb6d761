-- ===== src/Settings/Agreement.antt =====
-- Where the processes' settings agree with each other, and where they do not.
use mathlib.Core.Logic.{◌↔◌}
use mathlib.Core.Path.{subst}
use delayed_wallet_transacti.Errors.{Error}
use delayed_wallet_transacti.Prelude.{
  true, false, String, ◌≡◌, refl, sym, ap, ◌∙◌, ◌≢◌, Option, none, some, Bool, if◌then◌else◌, arith,
  ◌==◌, eq_iff,
}
use delayed_wallet_transacti.Program.{Result, ok, err}
use delayed_wallet_transacti.Settings.{
  Variables, value_or, new_store, new_sqs_scheduler, getenv, ApiProcess, SettlementProcess,
  ReconciliationProcess, api_store, start_api, start_settlement, with_queue, start_reconciliation,
}

-- The API's default is used by no lambda.
value_or-same :
    (fallback : String) (o : Option String)
    → fallback ≢ ""
    → (value_or fallback o ≡ value_or "" o) ↔ (o ≢ none)
value_or-same fallback none ne = ((λ same _. ne same), λ absent. elim (absent refl) [ ])
value_or-same fallback (some v) ne = ((λ _. cc), λ _. refl)

-- The API and a lambda have the same table if and only if its variable is set.
abbrev SameTable : Variables → String → String → String → Type 0
SameTable variables key ours theirs = (ours ≡ theirs) ↔ (variables key ≢ none)

pub record Agree (variables : Variables) (a : ApiProcess) (s : SettlementProcess)
    (r : ReconciliationProcess) : Type 0 where
  pub transactions :
      SameTable variables "DYNAMODB_TRANSACTIONS_TABLE_NAME" a.store.transactions_table_name
        s.store.transactions_table_name
  pub wallets :
      SameTable variables "DYNAMODB_WALLETS_TABLE_NAME" a.store.wallets_table_name
        s.store.wallets_table_name
  pub ledger :
      SameTable variables "DYNAMODB_LEDGER_TABLE_NAME" a.store.ledger_table_name
        s.store.ledger_table_name
  pub between_lambdas : s.store.transactions_table_name ≡ r.store.transactions_table_name
  pub queue : a.scheduler ≡ r.scheduler
  pub queue_known : r.scheduler.queue_url ≢ ""
  pub publishes_to : (a.publisher.store ≡ a.store) × (a.publisher.conn_manager ≡ a.store)

if-inv :
    {A : Type 0} (b : Bool) (e : Error) (x a : A)
    → (if b then err e else ok x) ≡ ok a
    → (b ≡ false) × (x ≡ a)
if-inv true e x a h = cc
if-inv false e x a h = (refl, cc)

with_queue-inv :
    (variables : Variables) (url : String) (r : ReconciliationProcess)
    → with_queue variables url ≡ ok r
    → (url ≢ "")
      × (r.scheduler.queue_url ≡ url)
      × (r.store.transactions_table_name ≡ getenv variables "DYNAMODB_TRANSACTIONS_TABLE_NAME")
with_queue-inv variables url r h =
    let (other, same) = if-inv (url == "") _ _ r h in
    (
      ground (arith, eq_iff url "", other),
      ap (λ (p : ReconciliationProcess). p.scheduler.queue_url) (sym same),
      ap (λ (p : ReconciliationProcess). p.store.transactions_table_name) (sym same),
    )

start_reconciliation-inv :
    (variables : Variables) (c : Result (Unit {0})) (r : ReconciliationProcess)
    → start_reconciliation variables c ≡ ok r
    → with_queue variables (getenv variables "SQS_QUEUE_URL") ≡ ok r
start_reconciliation-inv variables (err e) r h = cc
start_reconciliation-inv variables (ok _) r h = h

-- What the processes are, if they start.
abbrev pub the_api : Variables → ApiProcess
the_api variables =
    let store = api_store (ok tt) (ok tt) variables in
    record {
      store = store;
      scheduler = record { queue_url = getenv variables "SQS_QUEUE_URL" };
      publisher = record {
        store = store;
        conn_manager = store;
        base_endpoint = getenv variables "WEBSOCKET_API_ENDPOINT";
      };
    }

start_api-inv :
    (c p : Result (Unit {0})) (variables : Variables) (a : ApiProcess)
    → start_api c p variables ≡ ok a
    → the_api variables ≡ a
start_api-inv (err e) p variables a h = cc
start_api-inv (ok _) (err e) variables a h = cc
start_api-inv (ok _) (ok _) variables a h = cc

abbrev pub the_settlement : Variables → SettlementProcess
the_settlement variables = record {
  store =
      new_store (getenv variables "DYNAMODB_TRANSACTIONS_TABLE_NAME")
        (getenv variables "DYNAMODB_WALLETS_TABLE_NAME")
        (getenv variables "DYNAMODB_LEDGER_TABLE_NAME") "";
  api_base_url = getenv variables "API_BASE_URL";
}

start_settlement-inv :
    (variables : Variables) (c : Result (Unit {0})) (s : SettlementProcess)
    → start_settlement variables c ≡ ok s
    → the_settlement variables ≡ s
start_settlement-inv variables (err e) s h = cc
start_settlement-inv variables (ok _) s h = cc

module _ (variables : Variables) where
  SameTable-default :
      (key fallback ours theirs : String)
      → fallback ≢ ""
      → ours ≡ value_or fallback (variables key)
      → theirs ≡ getenv variables key
      → SameTable variables key ours theirs
  SameTable-default key fallback ours theirs ne o t =
      rw (o, t) (value_or-same fallback (variables key) ne)

  -- If the three processes start with the same variables, then the API and the settlement lambda
  -- have the same table of transactions if and only if its variable is set, and so for the table
  -- of wallets and for that of the ledger. The two lambdas have the same table of transactions in
  -- any case, and the reconciliation lambda sends to the queue of the API, which then is known.
  -- The API's publisher reads the API's store.
  pub started-Agree :
      (configs : Result (Unit {0}) × Result (Unit {0}) × Result (Unit {0}) × Result (Unit {0}))
      (a : ApiProcess) (s : SettlementProcess) (r : ReconciliationProcess)
      → start_api (configs.0) (configs.1) variables ≡ ok a
      → start_settlement variables (configs.2) ≡ ok s
      → start_reconciliation variables (configs.3) ≡ ok r
      → Agree variables a s r
  started-Agree configs a s r starts_a starts_s starts_r =
      let of_a = start_api-inv (configs.0) (configs.1) variables a starts_a in
      let of_s = start_settlement-inv variables (configs.2) s starts_s in
      let (known, url, of_r) =
        with_queue-inv variables _ r (start_reconciliation-inv variables (configs.3) r starts_r) in
      record {
        transactions =
            SameTable-default _ "Transactions" _ _ (ground (arith, eq_iff "Transactions" ""))
              (ap (λ (x : ApiProcess). x.store.transactions_table_name) (sym of_a))
              (ap (λ (x : SettlementProcess). x.store.transactions_table_name) (sym of_s));
        wallets =
            SameTable-default _ "Wallets" _ _ (ground (arith, eq_iff "Wallets" ""))
              (ap (λ (x : ApiProcess). x.store.wallets_table_name) (sym of_a))
              (ap (λ (x : SettlementProcess). x.store.wallets_table_name) (sym of_s));
        ledger =
            SameTable-default _ "LedgerEntries" _ _ (ground (arith, eq_iff "LedgerEntries" ""))
              (ap (λ (x : ApiProcess). x.store.ledger_table_name) (sym of_a))
              (ap (λ (x : SettlementProcess). x.store.ledger_table_name) (sym of_s));
        between_lambdas =
            ap (λ (x : SettlementProcess). x.store.transactions_table_name) (sym of_s) ∙ sym of_r;
        queue = ap ApiProcess.scheduler (sym of_a) ∙ ap new_sqs_scheduler (sym url);
        queue_known = λ empty. known (sym url ∙ empty);
        publishes_to =
            subst
              (λ (x : ApiProcess).
                (x.publisher.store ≡ x.store) × (x.publisher.conn_manager ≡ x.store))
              of_a (refl, refl);
      }
