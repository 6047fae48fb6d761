-- ===== src/App/Processes.antt =====
-- What the API's lambda does with an event, as a process of those that run side by side.
use delayed_wallet_transacti.Prelude.{
  String, ◌≡◌, refl, sym, ap, ◌∙◌, inl, inr, Option, none, some, List, [], ◌∷◌, All, Bool-cases,
  ◌==◌,
}
use mathlib.Core.Path.{fun_ext, subst}
use delayed_wallet_transacti.Program.{Result, ok, err, Program, pure, throw, call, perform, ◌>>=◌}
use delayed_wallet_transacti.Api.{Response, Environment}
use delayed_wallet_transacti.Handlers.Api.{api_handler}
use delayed_wallet_transacti.Server.{
  Web, Params, Route, routes, HttpRequest, bound, serve_operation, serve_chosen, serve_api,
}
use delayed_wallet_transacti.Server.Routing.{OneOf, IsFitting}
use delayed_wallet_transacti.Models.{Instant}
use delayed_wallet_transacti.Service.{time_now}
use delayed_wallet_transacti.Middleware.{structured_logger}
use delayed_wallet_transacti.Websockets.Local.{serve_http}
use delayed_wallet_transacti.App.Http.{
  Endpoint, health, api, local_websocket, documentation, document, Front, serve_endpoint, routed,
  unless_preflight, http_handler,
}
use delayed_wallet_transacti.App.{EventJson, WebsocketRequest, proxy, dispatch, combined_handler}
use delayed_wallet_transacti.App.Jobs.{
  Job, task, delete, job_program, route_text, reading, documented_job, chosen_job, endpoint_job,
  request_job, http_job, event_job,
}
use delayed_wallet_transacti.Transfers.{
  get_transaction, delete_transaction, post_notify_settlement, get_user_transactions, get_ledger,
  get_wallet, quietly, task_program, behind_logger,
}

-- What is done with the answer makes no call.
quietly_then :
    {A B : Type 0} (f : A → B) (p : Program A) → quietly (p >>= λ a. pure (f a)) ≡ quietly p
unfolding ◌>>=◌
quietly_then f (pure a) = refl
quietly_then f (throw e) = refl
quietly_then f (call c k) = ap (call c) (fun_ext λ r. quietly_then f (k r))

-- The log's record and the answer make no call.
logger_then :
    {A L : Type 0} (l : A → Instant → L) (q : Program A)
    → quietly ((q >>= λ x. perform time_now >>= λ stop. pure (x, l x stop)) >>= λ (x, _). pure x)
      ≡ (quietly q >>= λ _. perform time_now >>= λ _. pure tt)
unfolding ◌>>=◌ perform
logger_then l (pure x) = refl
logger_then l (throw e) = refl
logger_then l (call c k) = ap (call c) (fun_ext λ r. logger_then l (k r))

module _ (web : Web) (env : Environment) where
  bound-reading :
      {A : Type 0} (name : String) (r : Result A) (h : A → Program Response) (job : A → Job)
      → ((a : A) → quietly (h a) ≡ job_program env (job a))
      → quietly (bound web env name r h) ≡ job_program env (reading r job)
  unfolding ◌>>=◌
  bound-reading name (ok a) h job same = same a
  bound-reading name (err e) h job same = refl

  module _ (values : Params) (r : HttpRequest) where
    -- The operation of a route does what the route is documented to do.
    abbrev AsDocumented : Route → Type 0
    AsDocumented s =
        quietly (serve_operation web env (api_handler env) values r s.operation)
        ≡ job_program env (documented_job web r (route_text s) values)

    routes-AsDocumented : All AsDocumented routes
    unfolding task_program
    routes-AsDocumented = (
      bound-reading _ _ _ (λ n. task (get_ledger n)) λ n. refl,
      (
        refl,
        (
          bound-reading _ _ _ (λ k. task (delete_transaction k)) λ k. refl,
          (
            bound-reading _ _ _ (λ k. task (get_transaction k)) λ k. refl,
            (
              bound-reading _ _ _ (λ k. task (post_notify_settlement k)) λ k. refl,
              (
                bound-reading _ _ _ (λ k. task (get_user_transactions k)) λ k. refl,
                (
                  refl,
                  (
                    refl,
                    (
                      bound-reading _ _ _ (λ k. delete k) λ k. refl,
                      (bound-reading _ _ _ (λ k. task (get_wallet k)) λ k. refl, tt),
                    ),
                  ),
                ),
              ),
            ),
          ),
        ),
      ),
    )

  each_route : (P : Route → Type 0) (s : Route) (rs : List Route) → All P rs → OneOf s rs → P s
  each_route P s [] h one = elim one [ ]
  each_route P s (x ∷ rs) h (inl same) = subst P (sym same) h.0
  each_route P s (x ∷ rs) h (inr one) = each_route P s rs h.1 one

  module _ (is : IsFitting web) where
    chosen-job :
        (o : Option (Route × Params)) (r : HttpRequest)
        → web.choose routes r.method r.path ≡ o
        → quietly (serve_chosen web env (api_handler env) o r)
          ≡ job_program env (chosen_job web r o)
    unfolding ◌>>=◌
    chosen-job none r e = refl
    chosen-job (some (chosen, values)) r e =
        each_route (AsDocumented values r) chosen routes (routes-AsDocumented values r)
          (is.fitting routes r.method r.path chosen values e).0

    module _ (front : Front) where
      endpoint-job :
          (o : Option Endpoint) (r : HttpRequest)
          → quietly (serve_endpoint front web env o r)
            ≡ job_program env (endpoint_job web r front o)
      unfolding ◌>>=◌ task_program serve_api
      endpoint-job none r = refl
      endpoint-job (some health) r = refl
      endpoint-job (some api) r = chosen-job (web.choose routes r.method r.path) r refl
      endpoint-job (some local_websocket) r =
          quietly_then front.hijacked (serve_http env (front.upgrade r))
      endpoint-job (some documentation) r = refl
      endpoint-job (some (document spec)) r = refl

      request-job :
          (d : Option String) (o : Option Response) (r : HttpRequest)
          → quietly (unless_preflight front web env d o r)
            ≡ job_program env (request_job web r front d o)
      unfolding ◌>>=◌ perform structured_logger routed
      request-job d (some response) r = refl
      request-job d none r =
          ap (call time_now) (fun_ext λ start. logger_then _ (routed front web env d r))
          ∙ ap behind_logger (endpoint-job (front.choose d r) r)

      module _ (events : EventJson) (d : Option String) where
        proxy-job :
            (next : Result HttpRequest)
            → quietly (proxy events env (http_handler front web env d) next)
              ≡ job_program env (http_job web front d next)
        unfolding ◌>>=◌ http_handler
        proxy-job (err e) = refl
        proxy-job (ok r) =
            quietly_then _ (unless_preflight front web env d (front.preflight r) r)
            ∙ request-job d (front.preflight r) r

        event-job :
            (ws : Result WebsocketRequest) (next : Result HttpRequest)
            → quietly (dispatch events env (http_handler front web env d) ws next)
              ≡ job_program env (event_job web front d ws next)
        unfolding task_program
        event-job (err e) next = proxy-job next
        event-job (ok r) next = elim (Bool-cases (r.route_key == "")) [
          | inl plain ↦ rw plain (proxy-job next)
          | inr event ↦ elim (Bool-cases (r.route_key == "$connect")) [
            | inl joins ↦ rw (event, joins) (quietly_then _ _)
            | inr other ↦ elim (Bool-cases (r.route_key == "$disconnect")) [
              | inl leaves ↦ rw (event, other, leaves) (quietly_then _ _)
              | inr message ↦ rw (event, other, message) (quietly_then _ _)
            ]
          ]
        ]

module _ (web : Web) (env : Environment) (events : EventJson) where
  -- If the API's router chooses one of the routes that fit a request, then a run of the API's
  -- lambda, with the whole HTTP handler that its process builds, is but for its answer what the
  -- table of jobs has for its event. The route keys $connect and $disconnect add and remove the
  -- connection of the event; an event with any other key, but the empty one, is a client's message.
  -- Any other event is an HTTP request: a preflight request, or an event that cannot be read, makes
  -- no call; all else is behind the logger. There a request that is routed to the API is the task,
  -- or the change of the wallets, for the method and the pattern of its route, with the body, the
  -- limit or the parameter of the request; one that is routed to /ws is the local WebSocket handler
  -- on the upgraded connection; and there is no call for a parameter that cannot be read, a request
  -- without a route, or any other endpoint.
  pub combined_handler-event_job :
      (front : Front) (registered : Option String) (request : String)
      → IsFitting web
      → quietly (combined_handler events env (http_handler front web env registered) request)
        ≡ job_program env (
            event_job web front registered
              (events.websocket_request request)
              (events.http_request request))
  unfolding combined_handler
  combined_handler-event_job front registered request is =
      event-job web env is front events registered (events.websocket_request request)
        (events.http_request request)
