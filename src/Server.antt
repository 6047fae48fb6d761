-- ===== src/Server.antt =====
-- pkg/api/server.gen.go: the interface that the API's handlers implement, its routes, and what each
-- route does with a request before its handler has it. The router (go-chi/chi) and the readers of
-- parameters (oapi-codegen/runtime) are parameters. `Handler` is called with no base URL, no
-- middlewares and no error handler of its own.
pub mod Routing
use Prim.Native.String
use delayed_wallet_transacti.Prelude.{
  ℕ, String, Bool, Option, none, some, List, [], ◌∷◌, if◌then◌else◌,
}
use delayed_wallet_transacti.Prelude.Int.{ℤ}
use delayed_wallet_transacti.Prelude.Table.{lookup}
use delayed_wallet_transacti.Errors.{Error, error_text}
use delayed_wallet_transacti.Program.{Result, ok, err, Program, pure}
use delayed_wallet_transacti.Api.{Response, Environment}
use delayed_wallet_transacti.Handlers.{http_error, status_only}

-- What answers the requests. A path's parameter and the body are texts; `limit` may be missing.
pub record ServerInterface : Type 0 where
  pub list_ledger_entries : (limit : Option ℤ) → Program Response
  pub schedule_transaction : (body : String) → Program Response
  pub cancel_transaction_by_id : (transaction_id : String) → Program Response
  pub get_transaction_by_id : (transaction_id : String) → Program Response
  pub notify_settlement : (transaction_id : String) → Program Response
  pub list_transactions_by_user_id : (user_id : String) → Program Response
  pub list_wallets : Program Response
  pub create_wallet : (body : String) → Program Response
  pub delete_wallet : (user_id : String) → Program Response
  pub get_wallet_by_user_id : (user_id : String) → Program Response

abbrev not_implemented : Program Response
not_implemented = pure (status_only 501)

-- `Unimplemented`
abbrev pub unimplemented : ServerInterface
unimplemented = record {
  list_ledger_entries = λ limit. not_implemented;
  schedule_transaction = λ body. not_implemented;
  cancel_transaction_by_id = λ transaction_id. not_implemented;
  get_transaction_by_id = λ transaction_id. not_implemented;
  notify_settlement = λ transaction_id. not_implemented;
  list_transactions_by_user_id = λ user_id. not_implemented;
  list_wallets = not_implemented;
  create_wallet = λ body. not_implemented;
  delete_wallet = λ user_id. not_implemented;
  get_wallet_by_user_id = λ user_id. not_implemented;
}

-- The methods of `ServerInterface`.
pub data Operation : Type 0 where
  list_ledger_entries : Operation
  schedule_transaction : Operation
  cancel_transaction_by_id : Operation
  get_transaction_by_id : Operation
  notify_settlement : Operation
  list_transactions_by_user_id : Operation
  list_wallets : Operation
  create_wallet : Operation
  delete_wallet : Operation
  get_wallet_by_user_id : Operation

-- A part of a pattern between two slashes.
pub data Segment : Type 0 where
  literal : String → Segment
  parameter : (name : String) → Segment

pub record Route : Type 0 where
  pub method : String
  pub pattern : List Segment
  pub operation : Operation

abbrev pub route : String → List Segment → Operation → Route
route m p o = record { method = m; pattern = p; operation = o }

-- In the order in which `HandlerWithOptions` registers them.
abbrev pub routes : List Route
routes =
    route "GET" (literal "ledger" ∷ []) Operation.list_ledger_entries
    ∷ route "POST" (literal "transactions" ∷ []) Operation.schedule_transaction
    ∷ route "DELETE" (literal "transactions" ∷ parameter "transactionId" ∷ [])
        Operation.cancel_transaction_by_id
    ∷ route "GET" (literal "transactions" ∷ parameter "transactionId" ∷ [])
        Operation.get_transaction_by_id
    ∷ route "POST"
        (literal "transactions" ∷ parameter "transactionId" ∷ literal "notify-settlement" ∷ [])
        Operation.notify_settlement
    ∷ route "GET" (literal "users" ∷ parameter "userId" ∷ literal "transactions" ∷ [])
        Operation.list_transactions_by_user_id
    ∷ route "GET" (literal "wallets" ∷ []) Operation.list_wallets
    ∷ route "POST" (literal "wallets" ∷ []) Operation.create_wallet
    ∷ route "DELETE" (literal "wallets" ∷ parameter "userId" ∷ []) Operation.delete_wallet
    ∷ route "GET" (literal "wallets" ∷ parameter "userId" ∷ []) Operation.get_wallet_by_user_id
    ∷ []

pub record HttpRequest : Type 0 where
  pub method : String
  pub path : List String  -- between the slashes
  pub query : String
  pub body : String
  pub remote_addr : String

abbrev pub Params : Type 0
Params = List (String × String)

-- What chi and the runtime package do: the route that chi chooses, with the values of its
-- parameters, or else chi's own response; and a parameter's value, read as what it stands for.
pub record Web : Type 0 where
  pub choose : List Route → (method : String) → List String → Option (Route × Params)
  pub unrouted : HttpRequest → Response
  pub bind_string : String → Result String
  pub bind_uuid : String → Result String
  pub bind_limit : (query : String) → Result (Option ℤ)

-- `chi.URLParam`
abbrev pub url_param : String → Params → String
url_param name values = value_or_empty (lookup name values)
  where
    value_or_empty : Option String → String
    value_or_empty none = ""
    value_or_empty (some v) = v

module _ (web : Web) (env : Environment) where
  -- `InvalidParamFormatError`, as its `Error` method prints it.
  abbrev pub invalid_param_format : String → Error → String
  invalid_param_format name e =
      String.◌++◌ "Invalid format for parameter "
        (String.◌++◌ name (String.◌++◌ ": " (error_text env.fault_text e)))

  -- A parameter that cannot be read is answered by the error handler.
  abbrev pub bound : {A : Type 0} → String → Result A → (A → Program Response) → Program Response
  bound name (ok a) handler = handler a
  bound name (err e) handler = pure (http_error (invalid_param_format name e) 400)

  -- `ServerInterfaceWrapper`: each method reads its parameter and calls the handler.
  module _ (si : ServerInterface) (values : Params) (r : HttpRequest) where
    abbrev pub wrap_list_ledger_entries : Program Response
    wrap_list_ledger_entries = bound "limit" (web.bind_limit r.query) si.list_ledger_entries

    abbrev pub wrap_schedule_transaction : Program Response
    wrap_schedule_transaction = si.schedule_transaction r.body

    abbrev pub wrap_cancel_transaction_by_id : Program Response
    wrap_cancel_transaction_by_id =
        bound "transactionId" (web.bind_string (url_param "transactionId" values))
          si.cancel_transaction_by_id

    abbrev pub wrap_get_transaction_by_id : Program Response
    wrap_get_transaction_by_id =
        bound "transactionId" (web.bind_string (url_param "transactionId" values))
          si.get_transaction_by_id

    abbrev pub wrap_notify_settlement : Program Response
    wrap_notify_settlement =
        bound "transactionId" (web.bind_uuid (url_param "transactionId" values))
          si.notify_settlement

    abbrev pub wrap_list_transactions_by_user_id : Program Response
    wrap_list_transactions_by_user_id =
        bound "userId" (web.bind_string (url_param "userId" values)) si.list_transactions_by_user_id

    abbrev pub wrap_list_wallets : Program Response
    wrap_list_wallets = si.list_wallets

    abbrev pub wrap_create_wallet : Program Response
    wrap_create_wallet = si.create_wallet r.body

    abbrev pub wrap_delete_wallet : Program Response
    wrap_delete_wallet =
        bound "userId" (web.bind_string (url_param "userId" values)) si.delete_wallet

    abbrev pub wrap_get_wallet_by_user_id : Program Response
    wrap_get_wallet_by_user_id =
        bound "userId" (web.bind_string (url_param "userId" values)) si.get_wallet_by_user_id

    -- The method that a route was registered with.
    abbrev pub serve_operation : Operation → Program Response
    serve_operation list_ledger_entries = wrap_list_ledger_entries
    serve_operation schedule_transaction = wrap_schedule_transaction
    serve_operation cancel_transaction_by_id = wrap_cancel_transaction_by_id
    serve_operation get_transaction_by_id = wrap_get_transaction_by_id
    serve_operation notify_settlement = wrap_notify_settlement
    serve_operation list_transactions_by_user_id = wrap_list_transactions_by_user_id
    serve_operation list_wallets = wrap_list_wallets
    serve_operation create_wallet = wrap_create_wallet
    serve_operation delete_wallet = wrap_delete_wallet
    serve_operation get_wallet_by_user_id = wrap_get_wallet_by_user_id

  module _ (si : ServerInterface) where
    -- The request, by the route that was chosen for it.
    abbrev pub serve_chosen : Option (Route × Params) → HttpRequest → Program Response
    serve_chosen none r = pure (web.unrouted r)
    serve_chosen (some (chosen, values)) r = serve_operation si values r chosen.operation

    -- `Handler`
    unfoldable pub serve_api : HttpRequest → Program Response
    serve_api r = serve_chosen (web.choose routes r.method r.path) r
