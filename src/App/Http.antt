-- ===== src/App/Http.antt =====
-- The HTTP handler that `main` of cmd/app/main.go builds: the middlewares and the routes beside
-- those of the API. What other packages do is a parameter: chi's choice among the routes, rs/cors,
-- which answers preflight requests itself, gorilla/websocket's upgrade, the file of the API's
-- document, which stays as it is, and the pages of swgui. A request for the pages registers a
-- route for the document: the router's state is the document that is registered, if any. chi's
-- Recoverer acts on panics only, and there are none here.
use delayed_wallet_transacti.Prelude.{List, [], ◌∷◌, ℕ, String, Option, none, some}
use delayed_wallet_transacti.Program.{Result, ok, err, Program, pure, ◌>>=◌}
use delayed_wallet_transacti.Api.{text, Response, Environment}
use delayed_wallet_transacti.Handlers.{http_error}
use delayed_wallet_transacti.Handlers.Api.{api_handler}
use delayed_wallet_transacti.Middleware.{structured_logger}
use delayed_wallet_transacti.Server.{HttpRequest, Web, serve_api}
use delayed_wallet_transacti.Websockets.Local.{Client, Ended, serve_http}

-- What is registered on the router.
pub data Endpoint : Type 0 where
  health : Endpoint  -- GET /health
  api : Endpoint  -- mounted on /
  local_websocket : Endpoint  -- GET /ws
  documentation : Endpoint  -- GET /docs/*
  document : (spec : String) → Endpoint  -- GET /docs/openapi.yaml, once it is registered

pub record Front : Type 0 where
  pub choose : (registered : Option String) → HttpRequest → Option Endpoint
  pub not_found : HttpRequest → Response
  pub preflight : HttpRequest → Option Response
  pub upgrade : HttpRequest → Result Client
  pub hijacked : Ended → Response
  pub bytes_written : Response → ℕ
  pub read_spec : Result String
  pub swagger_page : (spec : String) → HttpRequest → Response

module _ (front : Front) (web : Web) (env : Environment) where
  abbrev pub health_response : Response
  health_response = record { status = 200; body = text "{\"status\":\"ok\"}\n" }

  abbrev pub documentation_response : Result String → HttpRequest → Response
  documentation_response (err e) r = http_error "Failed to read OpenAPI spec" 500
  documentation_response (ok spec) r = front.swagger_page spec r

  abbrev pub serve_endpoint : Option Endpoint → HttpRequest → Program Response
  serve_endpoint none r = pure (front.not_found r)
  serve_endpoint (some health) r = pure health_response
  serve_endpoint (some api) r = serve_api web env (api_handler env) r
  serve_endpoint (some local_websocket) r =
      serve_http env (front.upgrade r) >>= λ ended. pure (front.hijacked ended)
  serve_endpoint (some documentation) r = pure (documentation_response front.read_spec r)
  serve_endpoint (some (document spec)) r = pure (record { status = 200; body = text spec })

  -- The router below the middlewares.
  unfoldable pub routed : (registered : Option String) → HttpRequest → Program Response
  routed registered r = serve_endpoint (front.choose registered r) r

  abbrev pub unless_preflight :
      (registered : Option String) → Option Response → HttpRequest → Program Response
  unless_preflight registered (some response) r = pure response
  unless_preflight registered none r =
      structured_logger front.bytes_written (routed registered) r >>= λ (response, _). pure response

  -- The whole handler: cors, then the logger, then the routes.
  unfoldable pub http_handler : (registered : Option String) → HttpRequest → Program Response
  http_handler registered r = unless_preflight registered (front.preflight r) r

  -- The document that is registered after a request.
  abbrev registers : Option String → Option Endpoint → Result String → Option String
  registers registered (some documentation) (ok spec) = some spec
  registers registered _ _ = registered

  abbrev pub registered_after :
      (registered : Option String) → Option Response → HttpRequest → Option String
  registered_after registered (some response) r = registered
  registered_after registered none r =
      registers registered (front.choose registered r) front.read_spec

  -- The requests that a process serves, one after the other, each with the document that the ones
  -- before it have registered.
  unfoldable pub serve_all :
      (registered : Option String) → List HttpRequest → Program (List Response)
  serve_all registered [] = pure []
  serve_all registered (r ∷ rs) =
      let rest = serve_all (registered_after registered (front.preflight r) r) rs in
      http_handler registered r >>= λ response. rest >>= λ responses. pure (response ∷ responses)
