-- ===== src/System.antt =====
-- The processes of `Transfers` where the settlement lambda runs on what the queue delivers: then a
-- settlement is always that of a stored transaction, and more can be said of the accounts.
pub mod Knowledge
pub mod Calls
pub mod Facts
pub mod Transactions
pub mod Requests
pub mod Processes
pub mod Accounts
pub mod Solvency
pub mod Bank
use delayed_wallet_transacti.Prelude.{String, ◌≡◌, some, List, All}
use delayed_wallet_transacti.Prelude.Int.{ℤ}
use delayed_wallet_transacti.Prelude.Table.{Table, lookup}
use delayed_wallet_transacti.Models.{Transaction}
use delayed_wallet_transacti.Dynamo.{Db, WebSocketConnection}
use delayed_wallet_transacti.Service.{World, SentBody}
use delayed_wallet_transacti.Api.{ApiTransaction, Json}
use delayed_wallet_transacti.Store.CreateTransaction.Atomic.{Created}
use delayed_wallet_transacti.Store.SettleTransaction.Effects.{Locked, Settled}
use delayed_wallet_transacti.Store.CancelTransaction.Outcome.{Cancelled}
use delayed_wallet_transacti.Transfers.Forward.{Advances}

-- `encoding/json` reads back the transfer that it wrote.
pub record IsFaithful (json : Json) : Type 0 where
  pub reads_back :
      (tx : ApiTransaction) (body : String) (x : Transaction)
      → json.marshal_transaction tx ≡ some body
      → json.unmarshal_transaction body ≡ some x
      → (x.id ≡ tx.id)
        × (x.from_user_id ≡ tx.from_user_id)
        × (x.to_user_id ≡ tx.to_user_id)
        × (x.amount ≡ tx.amount)

-- A transaction is stored under its own id.
pub record Keyed (table : Table Transaction) : Type 0 where
  pub at : (k : String) (t : Transaction) → lookup k table ≡ some t → t.id ≡ k

-- The transfer is stored under its id.
pub record Known (tx : Transaction) (d : Db) : Type 0 where
  pub stored : Transaction
  pub found : lookup tx.id d.transactions ≡ some stored
  pub same_from : stored.from_user_id ≡ tx.from_user_id
  pub same_to : stored.to_user_id ≡ tx.to_user_id
  pub same_amount : stored.amount ≡ tx.amount

-- The transfer that the settlement lambda reads from the message is stored.
abbrev pub IsGenuine : Json → Db → String → Type 0
IsGenuine json d body = (x : Transaction) → json.unmarshal_transaction body ≡ some x → Known x d

-- Stale reads show earlier versions, and the queue holds messages for stored transactions only.
pub record Consistent (json : Json) (w : World) : Type 0 where
  pub keyed : Keyed w.db.transactions
  pub earlier : All (λ d. Advances d w.db) w.past
  pub genuine : (body : String) → SentBody body w.sent → IsGenuine json w.db body

-- What is to be shown of a relation on the tables. `Fit` is what the requests' amounts satisfy.
pub record Invariance (Fit : ℤ → Type 0) (R : Db → Db → Type 0) : Type 0 where
  pub same : (d : Db) → R d d
  pub after : (c d e : Db) → R c d → R d e → R c e
  pub created : (tx : Transaction) (d e : Db) → Fit tx.amount → Created tx d e → R d e
  pub locked : (k : String) (d e : Db) → Locked k d e → R d e
  pub settled : (tx : Transaction) (d e : Db) → Known tx d → Settled tx d e → R d e
  pub cancelled : (tx : Transaction) (d e : Db) → Known tx d → Cancelled tx d e → R d e
  pub connected : (d : Db) (cs : Table WebSocketConnection) → R d (record d { connections = cs })
