-- ===== src/Middleware.antt =====
-- pkg/middleware/logger.go. The log is what the handler of log/slog is given; the number of bytes
-- written is chi's to count.
pub mod Transparent
use delayed_wallet_transacti.Prelude.{ℕ, ◌-◌, String, List, leb, if◌then◌else◌}
use delayed_wallet_transacti.Models.{Instant}
use delayed_wallet_transacti.Service.{time_now}
use delayed_wallet_transacti.Program.{Program, pure, perform, ◌>>=◌}
use delayed_wallet_transacti.Api.{Response}
use delayed_wallet_transacti.Server.{HttpRequest}

pub data Level : Type 0 where
  error info : Level

-- A record of the log: its message, and the groups `request` and `response`.
pub record LogRecord : Type 0 where
  pub level : Level
  pub message : String
  pub method : String
  pub path : List String
  pub remote_addr : String
  pub status : ℕ
  pub bytes : ℕ
  pub latency : ℕ  -- nanoseconds of Go's monotonic clock, which does not run backwards

module _ (bytes_written : Response → ℕ) where
  abbrev pub log_record : HttpRequest → Response → (start stop : Instant) → LogRecord
  log_record r response start stop = record {
    level = if leb 500 response.status then error else info;
    message = if leb 500 response.status then "server error" else "request completed";
    method = r.method;
    path = r.path;
    remote_addr = r.remote_addr;
    status = response.status;
    bytes = bytes_written response;
    latency = stop - start;
  }

  unfoldable pub structured_logger :
      (HttpRequest → Program Response) → HttpRequest → Program (Response × LogRecord)
  structured_logger next r = do
    start ← perform time_now
    response ← next r
    stop ← perform time_now
    pure (response, log_record r response start stop)
