-- ===== src/App/Jobs.antt =====
-- What each event of the API's lambda stands for: the table of the API's routes by their methods
-- and patterns, and of the WebSocket events by their route keys.
use Prim.Native.String
use delayed_wallet_transacti.Prelude.{
  String, Option, none, some, List, [], ◌∷◌, ◌==◌, if◌then◌else◌,
}
use delayed_wallet_transacti.Program.{Result, ok, err, Program, pure}
use delayed_wallet_transacti.Api.{Response, Environment}
use delayed_wallet_transacti.Handlers.Wallets.{create_wallet_request, delete_wallet_request}
use delayed_wallet_transacti.Server.{
  Web, Params, Segment, literal, parameter, Route, routes, HttpRequest, url_param,
}
use delayed_wallet_transacti.App.Http.{
  Endpoint, health, api, local_websocket, documentation, document, Front,
}
use delayed_wallet_transacti.App.{WebsocketRequest}
use delayed_wallet_transacti.Transfers.{
  Task, post_transaction, get_transaction, delete_transaction, post_notify_settlement,
  get_user_transactions, get_ledger, get_wallets, get_wallet, connect, disconnect, client_message,
  local_socket, quietly, task_program, behind_logger,
}

-- A task of the system, a change of the wallets, or an answer without any call; `logged` is one of
-- them behind the logger.
pub data Job : Type 0 where
  task : Task → Job
  create : (body : String) → Job
  delete : (user_id : String) → Job
  answer : Job
  logged : Job → Job

abbrev pub job_program : Environment → Job → Program (Unit {0})
job_program env (task t) = task_program env t
job_program env (create body) = quietly (create_wallet_request env body)
job_program env (delete user_id) = quietly (delete_wallet_request env user_id)
job_program env answer = pure tt
job_program env (logged job) = behind_logger (job_program env job)

-- A method and a pattern, as in `DELETE /transactions/{transactionId}`.
abbrev segment_text : Segment → String
segment_text (literal name) = String.◌++◌ "/" name
segment_text (parameter name) = String.◌++◌ "/{" (String.◌++◌ name "}")

abbrev pattern_text : List Segment → String
pattern_text [] = ""
pattern_text (s ∷ ss) = String.◌++◌ (segment_text s) (pattern_text ss)

abbrev pub route_text : Route → String
route_text r = String.◌++◌ r.method (String.◌++◌ " " (pattern_text r.pattern))

-- A parameter that cannot be read is answered without any call.
abbrev pub reading : {A : Type 0} → Result A → (A → Job) → Job
reading (ok a) job = job a
reading (err e) job = answer

module _ (web : Web) (r : HttpRequest) where
  -- The API: what is done for a request on a route, with the values of its parameters.
  abbrev pub documented_job : (route : String) → Params → Job
  documented_job route values =
      if route == "GET /ledger"
      then reading (web.bind_limit r.query) (λ n. task (get_ledger n))
      else if route == "POST /transactions"
      then task (post_transaction r.body)
      else if route == "DELETE /transactions/{transactionId}"
      then reading (web.bind_string (url_param "transactionId" values))
          (λ id. task (delete_transaction id))
      else if route == "GET /transactions/{transactionId}"
      then reading (web.bind_string (url_param "transactionId" values))
          (λ id. task (get_transaction id))
      else if route == "POST /transactions/{transactionId}/notify-settlement"
      then reading (web.bind_uuid (url_param "transactionId" values))
          (λ id. task (post_notify_settlement id))
      else if route == "GET /users/{userId}/transactions"
      then reading (web.bind_string (url_param "userId" values))
          (λ user_id. task (get_user_transactions user_id))
      else if route == "GET /wallets"
      then task get_wallets
      else if route == "POST /wallets"
      then create r.body
      else if route == "DELETE /wallets/{userId}"
      then reading (web.bind_string (url_param "userId" values)) (λ user_id. delete user_id)
      else if route == "GET /wallets/{userId}"
      then reading (web.bind_string (url_param "userId" values))
          (λ user_id. task (get_wallet user_id))
      else answer

  abbrev pub chosen_job : Option (Route × Params) → Job
  chosen_job none = answer
  chosen_job (some (chosen, values)) = documented_job (route_text chosen) values

  module _ (front : Front) where
    -- Only the API and the local WebSocket endpoint call services.
    abbrev pub endpoint_job : Option Endpoint → Job
    endpoint_job (some api) = chosen_job (web.choose routes r.method r.path)
    endpoint_job (some local_websocket) = task (local_socket (front.upgrade r))
    endpoint_job (some health) = answer
    endpoint_job (some documentation) = answer
    endpoint_job (some (document spec)) = answer
    endpoint_job none = answer

    -- A preflight request does not reach the logger.
    abbrev pub request_job : (registered : Option String) → Option Response → Job
    request_job registered (some response) = answer
    request_job registered none = logged (endpoint_job (front.choose registered r))

module _ (web : Web) (front : Front) (registered : Option String) where
  abbrev pub http_job : Result HttpRequest → Job
  http_job (err e) = answer
  http_job (ok r) = request_job web r front registered (front.preflight r)

  -- An event is a WebSocket event if it has a route key, and an HTTP request if not.
  abbrev pub event_job : Result WebsocketRequest → Result HttpRequest → Job
  event_job (err e) next = http_job next
  event_job (ok r) next =
      if r.route_key == ""
      then http_job next
      else if r.route_key == "$connect"
      then task (connect r.connection_id)
      else if r.route_key == "$disconnect"
      then task (disconnect r.connection_id)
      else task client_message
