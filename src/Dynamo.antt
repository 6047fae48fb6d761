-- ===== src/Dynamo.antt =====
-- The requests that pkg/storage/dynamodb sends to DynamoDB. DynamoDB itself is not part of the
-- repository: its documented meaning of conditions, update expressions and transactions stands in
-- the functions below, which only the hypotheses on the service (`Service`) use.
use delayed_wallet_transacti.Prelude.{
  String, Bool, true, false, ◌&&◌, not, Option, none, some, List, [], ◌∷◌, ◌==◌, all,
}
use delayed_wallet_transacti.Prelude.Int.{ℤ, ◌+ℤ◌, ◌-ℤ◌, leb_ℤ, eqb_ℤ}
use delayed_wallet_transacti.Prelude.Table.{Table, lookup, insert, erase}
use delayed_wallet_transacti.Models.{Status, same_status, Instant, Transaction, Wallet, LedgerEntry}

-- pkg/storage/dynamodb/websockets.go: a row of the connections table.
pub record WebSocketConnection : Type 0 where
  pub connection_id : String
  pub pk : String
  pub ttl : ℤ

-- The four tables of a `Store`, keyed by user_id, id, entry_id and connection_id.
pub record Db : Type 0 where
  pub wallets : Table Wallet
  pub transactions : Table Transaction
  pub ledger : Table LedgerEntry
  pub connections : Table WebSocketConnection

-- The numeric attributes of a wallet that expressions name.
pub data WalletAttr : Type 0 where
  balance reserved version ttl : WalletAttr

-- The right side of a SET action: `:v`, `path + :v` or `path - :v`.
pub data Operand : Type 0 where
  value : ℤ → Operand
  plus minus : WalletAttr → ℤ → Operand

pub data WalletSet : Type 0 where
  set : WalletAttr → Operand → WalletSet

pub data WalletCondition : Type 0 where
  attribute_exists attribute_not_exists : WalletCondition  -- of the key, user_id
  at_least : WalletAttr → ℤ → WalletCondition
  equals : WalletAttr → ℤ → WalletCondition
  both : WalletCondition → WalletCondition → WalletCondition

pub data TransactionSet : Type 0 where
  set_status : Status → TransactionSet
  set_updated_at : Instant → TransactionSet

pub data TransactionCondition : Type 0 where
  id_not_exists : TransactionCondition
  status_is : Status → TransactionCondition

-- A write of one item, alone or within TransactWriteItems.
pub data Write : Type 0 where
  update_wallet : String → List WalletSet → WalletCondition → Write
  put_wallet : Wallet → WalletCondition → Write
  delete_wallet : String → WalletCondition → Write
  update_transaction : String → List TransactionSet → TransactionCondition → Write
  put_transaction : Transaction → TransactionCondition → Write
  put_entry : LedgerEntry → Write  -- on attribute_not_exists(entry_id)
  update_connection : String → String → ℤ → Write  -- sets pk and ttl, on no condition
  delete_connection : String → Write

abbrev pub attr_of : WalletAttr → Wallet → ℤ
attr_of WalletAttr.balance w = w.balance
attr_of WalletAttr.reserved w = w.reserved
attr_of WalletAttr.version w = w.version
attr_of WalletAttr.ttl w = w.ttl

abbrev pub operand : Wallet → Operand → ℤ
operand w (value v) = v
operand w (plus a v) = attr_of a w +ℤ v
operand w (minus a v) = attr_of a w -ℤ v

abbrev pub assign : WalletAttr → ℤ → Wallet → Wallet
assign WalletAttr.balance v w = record w { balance = v }
assign WalletAttr.reserved v w = record w { reserved = v }
assign WalletAttr.version v w = record w { version = v }
assign WalletAttr.ttl v w = record w { ttl = v }

-- Every action of an update expression reads the item as it was before the update.
abbrev pub update : Wallet → List WalletSet → Wallet → Wallet
update old [] new = new
update old (set a o ∷ rest) new = update old rest (assign a (operand old o) new)

abbrev pub update_tx : List TransactionSet → Transaction → Transaction
update_tx [] t = t
update_tx (set_status s ∷ rest) t = update_tx rest (record t { status = s })
update_tx (set_updated_at i ∷ rest) t = update_tx rest (record t { updated_at = i })

-- A comparison with an attribute of a missing item is false.
abbrev pub wallet_holds : WalletCondition → Option Wallet → Bool
wallet_holds attribute_exists none = false
wallet_holds attribute_exists (some w) = true
wallet_holds attribute_not_exists none = true
wallet_holds attribute_not_exists (some w) = false
wallet_holds (at_least a v) none = false
wallet_holds (at_least a v) (some w) = leb_ℤ v (attr_of a w)
wallet_holds (equals a v) none = false
wallet_holds (equals a v) (some w) = eqb_ℤ (attr_of a w) v
wallet_holds (both p q) o = wallet_holds p o && wallet_holds q o

abbrev pub transaction_holds : TransactionCondition → Option Transaction → Bool
transaction_holds id_not_exists none = true
transaction_holds id_not_exists (some t) = false
transaction_holds (status_is s) none = false
transaction_holds (status_is s) (some t) = same_status t.status s

abbrev pub is_none {ℓ} : {A : Type ℓ} → Option A → Bool
is_none none = true
is_none (some a) = false

-- Whether the condition of a write holds.
abbrev pub holds : Write → Db → Bool
holds (update_wallet k _ c) d = wallet_holds c (lookup k d.wallets)
holds (put_wallet w c) d = wallet_holds c (lookup w.user_id d.wallets)
holds (delete_wallet k c) d = wallet_holds c (lookup k d.wallets)
holds (update_transaction k _ c) d = transaction_holds c (lookup k d.transactions)
holds (put_transaction t c) d = transaction_holds c (lookup t.id d.transactions)
holds (put_entry e) d = is_none (lookup e.entry_id d.ledger)
holds (update_connection _ _ _) d = true
holds (delete_connection _) d = true

abbrev pub rewrite_item {ℓ} : {V : Type ℓ} → Option V → String → (V → V) → Table V → Table V
rewrite_item none k f t = t
rewrite_item (some v) k f t = insert k (f v) t

abbrev pub update_item {ℓ} : {V : Type ℓ} → String → (V → V) → Table V → Table V
update_item k f t = rewrite_item (lookup k t) k f t

-- The effect of a write whose condition holds.
abbrev pub apply : Write → Db → Db
apply (update_wallet k sets _) d = record d {
  wallets = update_item k (λ w. update w sets w) d.wallets;
}
apply (put_wallet w _) d = record d { wallets = insert w.user_id w d.wallets }
apply (delete_wallet k _) d = record d { wallets = erase k d.wallets }
apply (update_transaction k sets _) d = record d {
  transactions = update_item k (update_tx sets) d.transactions;
}
apply (put_transaction t _) d = record d { transactions = insert t.id t d.transactions }
apply (put_entry e) d = record d { ledger = insert e.entry_id e d.ledger }
apply (update_connection k p t) d = record d {
  connections = insert k (record { connection_id = k; pk = p; ttl = t }) d.connections;
}
apply (delete_connection k) d = record d { connections = erase k d.connections }

abbrev pub apply_all : List Write → Db → Db
apply_all [] d = d
apply_all (w ∷ ws) d = apply_all ws (apply w d)

-- The item that a write names. TransactWriteItems refuses two writes of one item.
pub data Target : Type 0 where
  wallet_item transaction_item entry_item connection_item : String → Target

abbrev pub target : Write → Target
target (update_wallet k _ _) = wallet_item k
target (put_wallet w _) = wallet_item w.user_id
target (delete_wallet k _) = wallet_item k
target (update_transaction k _ _) = transaction_item k
target (put_transaction t _) = transaction_item t.id
target (put_entry e) = entry_item e.entry_id
target (update_connection k _ _) = connection_item k
target (delete_connection k) = connection_item k

abbrev pub same_target : Target → Target → Bool
same_target (wallet_item j) (wallet_item k) = j == k
same_target (transaction_item j) (transaction_item k) = j == k
same_target (entry_item j) (entry_item k) = j == k
same_target (connection_item j) (connection_item k) = j == k
same_target _ _ = false

abbrev pub distinct_items : List Write → Bool
distinct_items [] = true
distinct_items (w ∷ ws) = all (λ v. not (same_target (target w) (target v))) ws && distinct_items ws

abbrev pub all_hold : List Write → Db → Bool
all_hold ws d = all (λ w. holds w d) ws
