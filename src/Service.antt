-- ===== src/Service.antt =====
-- What the program calls and does not implement: DynamoDB, SQS, the API Gateway's management API,
-- plain HTTP, the clock and the UUID generator. A call has a reply; `Answers` states what the
-- documentation of the called service says of the reply and of what the call leaves behind.
pub mod Faults
pub mod Free
pub mod Pages
pub mod Memory
pub mod Reliable
use delayed_wallet_transacti.Prelude.{
  ℕ, String, Bool, true, false, ◌≡◌, ◌⊎◌, Option, none, some, List, [], ◌∷◌, All,
}
use delayed_wallet_transacti.Prelude.Int.{ℤ}
use delayed_wallet_transacti.Prelude.Table.{lookup}
use delayed_wallet_transacti.Models.Dates.{text_before}
use delayed_wallet_transacti.Models.{Status, Instant, Transaction, Wallet, LedgerEntry}
use delayed_wallet_transacti.Errors.{
  ReasonCode, no_reason, conditional_check_failed, other_reason, Fault,
  conditional_check_failed_exception, transaction_canceled_exception, gone_exception, other_fault,
}
use delayed_wallet_transacti.Dynamo.{
  Db, WebSocketConnection, Write, holds, apply, apply_all, all_hold, distinct_items,
}

-- The result of a client call: `(out, nil)` or `(nil, err)`.
pub data Outcome (A : Type 0) : Type 0 where
  done : A → Outcome A
  fault : Fault → Outcome A

pub data Call : Type 0 where
  time_now new_uuid : Call
  receive_messages : Call  -- what starts the settlement lambda: a batch of messages of its queue
  get_wallet_item get_transaction_item : String → Call
  write_item : Write → Call  -- PutItem, UpdateItem, DeleteItem
  transact_write_items : List Write → Call
  scan_wallets : Call
  query_status_before : Status → Instant → Call  -- index status-created_at-index
  query_from_user : String → Call  -- index from_user_id-index
  query_ledger_latest : String → ℤ → Call  -- index gsi1pk-timestamp-index, with a Limit
  query_connections : String → Call  -- index pk-index
  send_message : (queue_url body : String) (delay_seconds : ℤ) → Call
  post_to_connection : (connection_id payload : String) → Call
  http_post : (url : String) → Call

abbrev pub Reply : Call → Type 0
Reply time_now = Instant
Reply new_uuid = String
Reply receive_messages = List String
Reply (get_wallet_item _) = Outcome (Option Wallet)
Reply (get_transaction_item _) = Outcome (Option Transaction)
Reply (write_item _) = Outcome (Unit {0})
Reply (transact_write_items _) = Outcome (Unit {0})
Reply scan_wallets = Outcome (List Wallet)
Reply (query_status_before _ _) = Outcome (List Transaction)
Reply (query_from_user _) = Outcome (List Transaction)
Reply (query_ledger_latest _ _) = Outcome (List LedgerEntry)
Reply (query_connections _) = Outcome (List WebSocketConnection)
Reply (send_message _ _ _) = Outcome (Unit {0})
Reply (post_to_connection _ _) = Outcome (Unit {0})
Reply (http_post _) = Outcome ℕ

-- What the calls act on: the tables, the tables as they were before each earlier write (a read
-- with no ConsistentRead may still see those), the messages on the queue, those pushed to
-- WebSocket clients, and the URLs posted to.
pub record World : Type 0 where
  pub db : Db
  pub past : List Db
  pub sent : List (String × String × ℤ)
  pub pushed : List (String × String)
  pub posted : List String

abbrev pub Among : Db → List Db → Type 0
Among d [] = ⊥
Among d (e ∷ es) = (d ≡ e) ⊎ Among d es

-- The tables now, or as they were.
abbrev pub Seen : Db → World → Type 0
Seen d w = Among d (w.db ∷ w.past)

-- Items of one page of a query or a scan, each as it stands in its table or as it stood: a page is
-- no snapshot, and its items may have been read at different times.
abbrev pub FromSeen : {A : Type 0} → (A → Db → Type 0) → World → List A → Type 0
FromSeen Good w xs = All (λ x. (d : Db) × Seen d w × Good x d) xs

abbrev pub commit : Db → World → World
commit d w = record w { db = d; past = w.db ∷ w.past }

-- Each reason explains its write: the code ConditionalCheckFailed stands at a write whose
-- condition does not hold.
abbrev pub Explains : List ReasonCode → List Write → Db → Type 0
Explains [] [] d = Unit
Explains (conditional_check_failed ∷ codes) (w ∷ ws) d = (holds w d ≡ false) × Explains codes ws d
Explains (no_reason ∷ codes) (w ∷ ws) d = Explains codes ws d
Explains (other_reason _ ∷ codes) (w ∷ ws) d = Explains codes ws d
Explains _ _ d = ⊥

-- The write of one item went through.
pub record Wrote (x : Write) (w w' : World) : Type 0 where
  pub condition : holds x w.db ≡ true
  pub result : w' ≡ commit (apply x w.db) w

-- A transaction is all or nothing, and names no item twice.
pub record Transacted (xs : List Write) (w w' : World) : Type 0 where
  pub distinct : distinct_items xs ≡ true
  pub conditions : all_hold xs w.db ≡ true
  pub result : w' ≡ commit (apply_all xs w.db) w

-- A fault without more is no proof that nothing was written: the reply may have been lost.
abbrev pub WriteAnswers : Write → Outcome (Unit {0}) → World → World → Type 0
WriteAnswers x (done _) w w' = Wrote x w w'
WriteAnswers x (fault conditional_check_failed_exception) w w' = (holds x w.db ≡ false) × (w' ≡ w)
WriteAnswers x (fault _) w w' = (w' ≡ w) ⊎ Wrote x w w'

abbrev pub TransactAnswers : List Write → Outcome (Unit {0}) → World → World → Type 0
TransactAnswers xs (done _) w w' = Transacted xs w w'
TransactAnswers xs (fault (transaction_canceled_exception codes)) w w' =
    Explains codes xs w.db × (w' ≡ w)
TransactAnswers xs (fault _) w w' = (w' ≡ w) ⊎ Transacted xs w w'

-- An item of a query: in the table as it was seen, and matching the key condition.
abbrev pub InIndex : (Transaction → Type 0) → Transaction → Db → Type 0
InIndex Matching x d = (lookup x.id d.transactions ≡ some x) × Matching x

-- A connection of the table; the query for them asks for the ids only.
abbrev pub Connected : String → Db → Type 0
Connected k d = (c : WebSocketConnection) × (lookup k d.connections ≡ some c)

-- The body of a message that was sent.
abbrev pub SentBody : String → List (String × String × ℤ) → Type 0
SentBody b [] = ⊥
SentBody b ((_, c, _) ∷ rest) = (b ≡ c) ⊎ SentBody b rest

-- The documented behaviour of every call: its reply, the world before and the world after.
abbrev pub Answers : (c : Call) → Reply c → World → World → Type 0
Answers time_now r w w' = w' ≡ w
Answers new_uuid r w w' = w' ≡ w
-- SQS delivers what was sent, in any order and any number of times.
Answers receive_messages r w w' = All (λ b. SentBody b w.sent) r × (w' ≡ w)
Answers (get_wallet_item k) (done o) w w' =
    (d : Db) × Seen d w × (o ≡ lookup k d.wallets) × (w' ≡ w)
Answers (get_wallet_item k) (fault _) w w' = w' ≡ w
Answers (get_transaction_item k) (done o) w w' =
    (d : Db) × Seen d w × (o ≡ lookup k d.transactions) × (w' ≡ w)
Answers (get_transaction_item k) (fault _) w w' = w' ≡ w
Answers (write_item x) r w w' = WriteAnswers x r w w'
Answers (transact_write_items xs) r w w' = TransactAnswers xs r w w'
Answers scan_wallets (done ws) w w' =
    FromSeen (λ v d. lookup v.user_id d.wallets ≡ some v) w ws × (w' ≡ w)
Answers scan_wallets (fault _) w w' = w' ≡ w
Answers (query_status_before s t) (done xs) w w' =
    FromSeen (InIndex (λ y. (y.status ≡ s) × (text_before y.created_at t ≡ true))) w xs × (w' ≡ w)
Answers (query_status_before s t) (fault _) w w' = w' ≡ w
Answers (query_from_user u) (done xs) w w' =
    FromSeen (InIndex (λ y. y.from_user_id ≡ u)) w xs × (w' ≡ w)
Answers (query_from_user u) (fault _) w w' = w' ≡ w
Answers (query_ledger_latest pk n) (done es) w w' =
    FromSeen (λ e d. lookup e.entry_id d.ledger ≡ some e) w es × (w' ≡ w)
Answers (query_ledger_latest pk n) (fault _) w w' = w' ≡ w
Answers (query_connections pk) (done cs) w w' =
    FromSeen (λ c. Connected c.connection_id) w cs × (w' ≡ w)
Answers (query_connections pk) (fault _) w w' = w' ≡ w
Answers (send_message q b n) (done _) w w' = w' ≡ record w { sent = (q, b, n) ∷ w.sent }
Answers (send_message q b n) (fault _) w w' =
    (w' ≡ w) ⊎ (w' ≡ record w { sent = (q, b, n) ∷ w.sent })
Answers (post_to_connection k p) (done _) w w' = w' ≡ record w { pushed = (k, p) ∷ w.pushed }
Answers (post_to_connection k p) (fault gone_exception) w w' = w' ≡ w
Answers (post_to_connection k p) (fault _) w w' =
    (w' ≡ w) ⊎ (w' ≡ record w { pushed = (k, p) ∷ w.pushed })
Answers (http_post u) (done _) w w' = w' ≡ record w { posted = u ∷ w.posted }
Answers (http_post u) (fault _) w w' = (w' ≡ w) ⊎ (w' ≡ record w { posted = u ∷ w.posted })

-- The services behind the program's clients: any that behave as documented. `State` may hold
-- more than the world, such as what decides which calls fail.
pub record Service : Type 1 where
  pub State : Type 0
  pub world : State → World
  pub perform : (c : Call) → State → Reply c × State
  pub obeys : (c : Call) (s : State) → Answers c (perform c s).0 (world s) (world (perform c s).1)
