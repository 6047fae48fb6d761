-- ===== src/Middleware/Transparent.antt =====
-- The logger changes neither what a handler answers nor what it does.
use delayed_wallet_transacti.Prelude.{ℕ, ◌≤◌, ◌<◌, ◌≡◌, refl, ◌⊎◌, inl, inr, Bool-cases, arith, leb}
use delayed_wallet_transacti.Service.{World, Service, time_now}
use delayed_wallet_transacti.Program.{ok, err, Program, run}
use delayed_wallet_transacti.Program.Ensures.{
  Post, Ensures, sequential, run-Ensures, Ensures-bind, Ensures-pure,
}
use delayed_wallet_transacti.Program.Quiet.{Ensures-quiet}
use delayed_wallet_transacti.Api.{Response}
use delayed_wallet_transacti.Server.{HttpRequest}
use delayed_wallet_transacti.Middleware.{error, info, LogRecord, log_record, structured_logger}

-- The record tells of the request and of its response; it is an error if and only if the response
-- is a server error.
pub record Describes (bytes_written : Response → ℕ) (r : HttpRequest) (response : Response)
    (l : LogRecord) : Type 0 where
  pub same_method : l.method ≡ r.method
  pub same_path : l.path ≡ r.path
  pub same_status : l.status ≡ response.status
  pub same_bytes : l.bytes ≡ bytes_written response
  pub by_status :
      ((l.level ≡ error) × (500 ≤ response.status)) ⊎ ((l.level ≡ info) × (response.status < 500))

-- What holds after the handler holds after the logged handler, and the record describes the answer.
abbrev pub Logged : (Response → ℕ) → HttpRequest → Post Response → Post (Response × LogRecord)
Logged bytes r Q (ok (response, l)) v = Q (ok response) v × Describes bytes r response l
Logged bytes r Q (err e) v = Q (err e) v

module _ (bytes_written : Response → ℕ) (r : HttpRequest) where
  log_record-Describes :
      (response : Response) (start stop : ℕ)
      → Describes bytes_written r response (log_record bytes_written r response start stop)
  log_record-Describes response start stop = record {
    same_method = refl;
    same_path = refl;
    same_status = refl;
    same_bytes = refl;
    by_status = elim (Bool-cases (leb 500 response.status)) [
      | inl bad ↦ inl (rw bad refl, ground arith)
      | inr fine ↦ inr (rw fine refl, ground arith)
    ];
  }

  logger-Logged :
      (next : HttpRequest → Program Response) (Q : Post Response) (w : World)
      → Ensures sequential (next r) w Q
      → Ensures sequential (structured_logger bytes_written next r) w (Logged bytes_written r Q)
  unfolding structured_logger
  logger-Logged next Q w h = Ensures-quiet time_now _ w tt λ start _.
      Ensures-bind _ Q _ w h
        (λ response v q.
          Ensures-quiet time_now _ v tt
            λ stop _. Ensures-pure _ v (q, log_record-Describes response start stop))
        (λ e v q. q)

-- Whatever is known to hold after a handler, for any services, still holds of the response and of
-- the world when the handler is logged, and the log's record tells the request's method and path
-- and the response's status and length, at the level of an error if and only if the status is 500
-- or more.
pub structured_logger-Logged :
    (bytes_written : Response → ℕ) (next : HttpRequest → Program Response) (r : HttpRequest)
    (Q : Post Response) (svc : Service) (s : svc.State)
    → Ensures sequential (next r) (svc.world s) Q
    → let (l, t) = run svc (structured_logger bytes_written next r) s in
      Logged bytes_written r Q l (svc.world t)
structured_logger-Logged bytes_written next r Q svc s h =
    run-Ensures svc (Logged bytes_written r Q) (structured_logger bytes_written next r) s
      (logger-Logged bytes_written r next Q (svc.world s) h)
