-- ===== src/App.antt =====
-- The entry point of cmd/app/main.go: `NewCombinedHandler`, which tells the WebSocket events from
-- the HTTP requests. The events of aws-lambda-go, and their JSON, are parameters; so is the HTTP
-- handler, as in the code.
pub mod Processes
pub mod Http
pub mod Jobs
use delayed_wallet_transacti.Prelude.{ℕ, String, Option, ◌==◌, if◌then◌else◌}
use delayed_wallet_transacti.Errors.{Error}
use delayed_wallet_transacti.Program.{Result, ok, err, Program, pure, ◌>>=◌}
use delayed_wallet_transacti.Api.{Response, Environment}
use delayed_wallet_transacti.Websockets.{handle_connect, handle_disconnect, handle_default}
use delayed_wallet_transacti.Server.{HttpRequest}

-- What is read of an `events.APIGatewayWebsocketProxyRequest`.
pub record WebsocketRequest : Type 0 where
  pub route_key : String
  pub connection_id : String

-- The JSON of the events.
pub record EventJson : Type 0 where
  pub websocket_request : String → Result WebsocketRequest
  pub http_request : String → Result HttpRequest

-- What the lambda answers.
pub data Answer : Type 0 where
  websocket : ℕ × Option Error → Answer
  http : Response → Answer
  failed : Error → Answer

module _ (events : EventJson) (env : Environment)
    (http_handler : HttpRequest → Program Response) where
  -- The switch on the route key.
  abbrev pub handle_event : WebsocketRequest → Program (ℕ × Option Error)
  handle_event r =
      if r.route_key == "$connect"
      then handle_connect env r.connection_id
      else if r.route_key == "$disconnect"
      then handle_disconnect env r.connection_id
      else handle_default env

  -- Not a WebSocket event.
  abbrev pub proxy : Result HttpRequest → Program Answer
  proxy (err e) = pure (failed e)
  proxy (ok r) = http_handler r >>= λ answer. pure (http answer)

  abbrev pub dispatch : Result WebsocketRequest → Result HttpRequest → Program Answer
  dispatch (err _) next = proxy next
  dispatch (ok r) next =
      if r.route_key == "" then proxy next else handle_event r >>= λ answer. pure (websocket answer)

  unfoldable pub combined_handler : String → Program Answer
  combined_handler request =
      dispatch (events.websocket_request request) (events.http_request request)
