-- ===== src/Store/Wallets.antt =====
-- pkg/storage/dynamodb/wallets.go.
pub mod Reads
pub mod Outcome
use Prim.Native.String
use delayed_wallet_transacti.Prelude.{String, List, if◌then◌else◌}
use delayed_wallet_transacti.Models.{Wallet, ttl_from}
use delayed_wallet_transacti.Errors.{Error, Fault, message, wrap, aws, is_condition_failure}
use delayed_wallet_transacti.Dynamo.{put_wallet, Write, attribute_exists, attribute_not_exists}
use delayed_wallet_transacti.Service.{time_now, get_wallet_item, write_item, scan_wallets}
use delayed_wallet_transacti.Program.{
  Program, pure, perform, checked, require, item_or, ◌>>=◌, ◌>>◌,
}
use delayed_wallet_transacti.Store.Codec.{AttributeValue}
use delayed_wallet_transacti.Store.Codec

-- `fmt.Errorf("wallet for user ID %s …", userID)`
abbrev wallet_message : String → String → Error
wallet_message user_id what = message (String.◌++◌ "wallet for user ID " (String.◌++◌ user_id what))

abbrev create_wallet_error : String → Fault → Error
create_wallet_error user_id e =
    if is_condition_failure e
    then wallet_message user_id " already exists"
    else wrap "failed to create wallet in DynamoDB" (aws e)

abbrev delete_wallet_error : String → Fault → Error
delete_wallet_error user_id e =
    if is_condition_failure e
    then wallet_message user_id " not found"
    else wrap "failed to delete wallet from DynamoDB" (aws e)

module _ (av : AttributeValue) where
  unfoldable pub create_wallet : Wallet → Program Wallet
  create_wallet given = do
    now ← perform time_now
    let new = record given { ttl = ttl_from now }
    require (av.marshals (Codec.wallet new)) (message "failed to marshal wallet")
    reply ← perform (write_item (put_wallet new attribute_not_exists))
    checked (create_wallet_error given.user_id) reply
    pure new

  unfoldable pub delete_wallet : String → Program (Unit {0})
  delete_wallet user_id = do
    require (av.marshals (Codec.key "user_id" user_id))
        (message "failed to marshal wallet user ID for deletion")
    reply ← perform (write_item (Write.delete_wallet user_id attribute_exists))
    checked (delete_wallet_error user_id) reply

  unfoldable pub get_wallet : String → Program Wallet
  get_wallet user_id = do
    require (av.marshals (Codec.key "user_id" user_id)) (message "failed to marshal wallet user ID")
    reply ← perform (get_wallet_item user_id)
    item ← checked (λ e. wrap "failed to get wallet from DynamoDB" (aws e)) reply
    found ← item_or item (wallet_message user_id " not found")
    require (av.unmarshals (Codec.wallet found)) (message "failed to unmarshal wallet")
    pure found

  unfoldable pub list_wallets : Program (List Wallet)
  list_wallets = do
    reply ← perform scan_wallets
    items ← checked (λ e. wrap "failed to scan wallets table" (aws e)) reply
    require (av.unmarshals (Codec.wallets items)) (message "failed to unmarshal wallets")
    pure items
