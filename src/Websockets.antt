-- ===== src/Websockets.antt =====
-- pkg/websockets/publisher.go, and the Lambda events of pkg/handlers/websockets/websockets.go.
pub mod Spread
pub mod Posting
pub mod Delivery
pub mod Local
use delayed_wallet_transacti.Prelude.{ℕ, String, List, [], ◌∷◌, Option, none, some, if◌then◌else◌}
use delayed_wallet_transacti.Errors.{Error, message, wrap, is_gone}
use delayed_wallet_transacti.Service.{Outcome, done, fault, post_to_connection}
use delayed_wallet_transacti.Program.{
  Result, ok, err, Program, pure, perform, attempt, wrapping, item_or, ◌>>=◌, ◌>>◌,
}
use delayed_wallet_transacti.Api.{WalletUpdate, Environment}
use delayed_wallet_transacti.Store.Connections.{
  add_connection, remove_connection, get_all_connections,
}

module _ (env : Environment) where
  -- A connection that is gone is removed; the failure to remove it, like any other failure to
  -- post, is only logged.
  unfoldable pub after_post : String → Outcome (Unit {0}) → Program (Unit {0})
  after_post connection_id (done _) = pure tt
  after_post connection_id (fault e) =
      if is_gone e
      then (attempt (remove_connection env.attribute_value connection_id) >>= λ _. pure tt)
      else pure tt

  unfoldable pub post_each : (payload : String) → List String → Program (Unit {0})
  post_each payload [] = pure tt
  post_each payload (connection_id ∷ rest) = do
    reply ← perform (post_to_connection connection_id payload)
    after_post connection_id reply
    post_each payload rest

  unfoldable pub publish : WalletUpdate → Program (Unit {0})
  publish update = do
    connection_ids ←
        wrapping (wrap "failed to get all connections") (get_all_connections env.attribute_value)
    payload ← item_or (env.json.marshal_update update) (message "failed to marshal message")
    post_each payload connection_ids

  -- The status code of the response, and the error that goes with it.
  abbrev event_response : Result (Unit {0}) → ℕ × Option Error
  event_response (ok _) = (200, none)
  event_response (err e) = (500, some e)

  unfoldable pub handle_connect : String → Program (ℕ × Option Error)
  handle_connect connection_id = do
    added ← attempt (add_connection env.attribute_value connection_id)
    pure (event_response added)

  unfoldable pub handle_disconnect : String → Program (ℕ × Option Error)
  handle_disconnect connection_id = do
    removed ← attempt (remove_connection env.attribute_value connection_id)
    pure (event_response removed)

  unfoldable pub handle_default : Program (ℕ × Option Error)
  handle_default = pure (200, none)
