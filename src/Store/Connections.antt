-- ===== src/Store/Connections.antt =====
-- pkg/storage/dynamodb/websockets.go.
use delayed_wallet_transacti.Prelude.{String, List, map}
use delayed_wallet_transacti.Models.{ttl_from}
use delayed_wallet_transacti.Errors.{message, wrap, aws}
use delayed_wallet_transacti.Dynamo.{update_connection, delete_connection}
use delayed_wallet_transacti.Service.{time_now, write_item, query_connections}
use delayed_wallet_transacti.Program.{Program, pure, perform, checked, require, ◌>>=◌, ◌>>◌}
use delayed_wallet_transacti.Store.Codec.{AttributeValue}
use delayed_wallet_transacti.Store.Codec

module _ (av : AttributeValue) where
  unfoldable pub add_connection : String → Program (Unit {0})
  add_connection connection_id = do
    require (av.marshals (Codec.key "connection_id" connection_id))
        (message "failed to marshal connection key")
    now ← perform time_now
    reply ← perform (write_item (update_connection connection_id "connections" (ttl_from now)))
    checked (λ e. wrap "failed to update item" (aws e)) reply

  unfoldable pub remove_connection : String → Program (Unit {0})
  remove_connection connection_id = do
    require (av.marshals (Codec.key "connection_id" connection_id))
        (message "failed to marshal connection key")
    reply ← perform (write_item (delete_connection connection_id))
    checked (λ e. wrap "failed to delete item" (aws e)) reply

  unfoldable pub get_all_connections : Program (List String)
  get_all_connections = do
    reply ← perform (query_connections "connections")
    items ← checked (λ e. wrap "failed to query connections table" (aws e)) reply
    require (av.unmarshals (Codec.connections items)) (message "failed to unmarshal connections")
    pure (map (λ c. c.connection_id) items)
