-- ===== src/Handlers.antt =====
-- pkg/handlers: the methods of `ApiHandler`. A handler is given the text of the request's body or
-- the parameters of its path, and answers with a status and a body.
pub mod Transactions
pub mod Wallets
pub mod Ledger
pub mod Api
pub mod Listing
use Prim.Native.String
use delayed_wallet_transacti.Prelude.{ℕ, String, if◌then◌else◌}
use delayed_wallet_transacti.Errors.{Error, error_text}
use delayed_wallet_transacti.Program.{Result, ok, err}
use delayed_wallet_transacti.Api.{Body, empty, text, Response, Environment}

-- `http.Error(w, msg, status)`
abbrev pub http_error : String → ℕ → Response
http_error msg status = record { status = status; body = text msg }

-- `w.WriteHeader(status)` alone
abbrev pub status_only : ℕ → Response
status_only status = record { status = status; body = empty }

module _ (env : Environment) where
  -- `fmt.Sprintf("…: %v", err)`
  abbrev pub failed : String → Error → String
  failed what e = String.◌++◌ what (String.◌++◌ ": " (error_text env.fault_text e))

  -- The header is written before the body is encoded, so that a failure keeps the status.
  abbrev json_body : Body → Result (Unit {0}) → Body
  json_body body (ok _) = body
  json_body body (err e) = text (failed "Failed to write response" e)

  abbrev pub respond_json : ℕ → Body → Response
  respond_json status body = record {
    status = status;
    body = json_body body (env.json.encodes body);
  }
