-- ===== src/Websockets/Local.antt =====
-- `ServeHTTP` of pkg/handlers/websockets/websockets.go: the WebSocket endpoint for local
-- development. The upgraded connection (gorilla/websocket) is a parameter: what each of its reads
-- returns.
pub mod Ends
use delayed_wallet_transacti.Prelude.{ℕ, zero, suc, ◌+◌, String, Option, none, some}
use delayed_wallet_transacti.Errors.{Error}
use delayed_wallet_transacti.Service.{new_uuid}
use delayed_wallet_transacti.Program.{Result, ok, err, Program, pure, perform, attempt, ◌>>=◌}
use delayed_wallet_transacti.Api.{Environment}
use delayed_wallet_transacti.Store.Connections.{add_connection, remove_connection}

-- A connection: the results of `ReadMessage` in turn, of which the first `rounds` are looked at.
pub record Client : Type 0 where
  pub read : ℕ → Result String
  pub rounds : ℕ

-- How the handler ended, or that the client is still connected after `rounds` reads.
pub data Ended : Type 0 where
  not_upgraded not_saved disconnected still_connected : Ended

-- The loop over `ReadMessage`, from the read `i` on: the error that ends it.
abbrev next_read : Result String → Option Error → Option Error
next_read (ok message) rest = rest
next_read (err e) rest = some e

unfoldable pub wait : (ℕ → Result String) → (fuel i : ℕ) → Option Error
wait read zero i = none
wait read (suc fuel) i = let rest = wait read fuel (i + 1) in next_read (read i) rest

module _ (env : Environment) where
  -- The deferred call, and the end of the function.
  unfoldable pub after_wait : String → Option Error → Program Ended
  after_wait connection_id none = pure still_connected
  after_wait connection_id (some e) =
      attempt (remove_connection env.attribute_value connection_id) >>= λ _. pure disconnected

  unfoldable pub after_add : Client → String → Result (Unit {0}) → Program Ended
  after_add client connection_id (err e) = pure not_saved
  after_add client connection_id (ok _) =
      after_wait connection_id (wait client.read client.rounds 0)

  unfoldable pub serve_http : Result Client → Program Ended
  serve_http (err e) = pure not_upgraded
  serve_http (ok client) = do
    connection_id ← perform new_uuid
    added ← attempt (add_connection env.attribute_value connection_id)
    after_add client connection_id added
