-- ===== src/Lib.antt =====
-- A verification of the delayed wallet transactions service.
--
-- The program: an HTTP API and two lambdas over four DynamoDB tables, an SQS queue and a WebSocket
-- gateway. A request to transfer funds reserves the amount in the sender's wallet and stores a
-- transaction (pkg/storage/dynamodb/create_transaction.go); a message on the queue later has it
-- settled (settle_transaction.go); until then it may be cancelled (cancel_transaction.go).
--
-- How it is modelled. A Go function that calls services is a `Program` (Program.antt): a tree of
-- calls, each with what is done on every reply, and with Go's errors as its way to fail
-- (Errors.antt; pkg/storage/errors.go). `run` runs it on a `Service`. DynamoDB and the other
-- services are not part of the repository: a `Service` is any state with any answers that satisfy
-- `Answers` (Service.antt), which says what their documentation promises. TransactWriteItems is all
-- or nothing and refuses two writes of one item; a conditional write goes through only if its
-- condition holds; a call may fail at any time, and a failed write may have been applied, since the
-- reply can get lost; a read may be stale. The requests that the code builds, its condition and
-- update expressions among them, are data (Dynamo.antt), one constructor for each form that occurs.
-- A program is a finite tree, so `run` always ends. One loop needs fuel, that of `ServeHTTP` over the
-- reads of a WebSocket: the number of reads that are looked at, which is enough if one of them fails.
--
--   Models.antt               pkg/models/models.go; Dates: the texts of times, as they are compared
--   Errors.antt               pkg/storage/errors.go, and errors.Is, errors.As, fmt.Errorf
--   Dynamo.antt               the requests of pkg/storage/dynamodb, and the tables (store.go)
--   Service.antt              the calls, the replies, the world; Faults: what a fault leaves open;
--                             Free: the calls that write and send nothing; Memory and Pages: a
--                             service in memory, for runs; Reliable: a service that does not fail
--   Program.antt              programs; Ensures: a program logic; Quiet: its rule for reads;
--                             Issues: the calls a program may make; Schedule: many programs at
--                             once; Shared: what a program ensures while others run;
--                             Succeeds: programs that end without an error; Aside: parts
--                             whose outcome does not matter; Runs: the run of a block, and a run by
--                             the reply to its first call
--   Store/Wallets.antt        pkg/storage/dynamodb/wallets.go; Reads: what GetWallet ensures; Outcome
--   Store/CreateTransaction   create_transaction.go; Atomic: all its branches
--   Store/SettleTransaction   settle_transaction.go; Effects and Outcome: all its branches; Late
--   Store/CancelTransaction   get_transaction.go, cancel_transaction.go; Reads and Outcome
--   Store/Queries.antt        list_transactions.go; Reads: what it ensures, and ListWallets
--   Store/Connections.antt    websockets.go
--   Store/Guarded.antt        the calls of these methods
--   Store/Reliable.antt       these methods on a service that does not fail: Create, Settle, Cancel;
--                             Funds and Pending: what becomes of the users' funds; Transfer: from
--                             request to end
--   Storage.antt              pkg/storage: the interfaces of the data layer, and the store as it
--                             satisfies them
--   Api.antt                  pkg/api/server.gen.go, pkg/websockets/models.go; what is left to
--                             encoding/json and the environment; Mapping: pkg/mapping/mapping.go
--   Scheduler.antt            pkg/scheduler/sqs.go; Delays: what is sent
--   Websockets.antt           pkg/websockets/publisher.go, pkg/handlers/websockets/websockets.go;
--                             Spread, Posting and Delivery: whom Publish reaches; Local: `ServeHTTP`
--   Handlers.antt             pkg/handlers: Transactions, Wallets, Ledger; Scheduling: the
--                             branches of POST /transactions; Answers: those of DELETE and GET of
--                             a transaction, and of POST and DELETE of a wallet; Order: of the
--                             wallets listed; Listing: the requests that list items; Notifying: the
--                             one after a settlement; Api: pkg/handlers/handlers.go
--   Server.antt               pkg/api/server.gen.go: the interface, its wrapper and the routes;
--                             Routing: that no two routes clash
--   Middleware.antt           pkg/middleware/logger.go; Transparent: what it keeps
--   App.antt                  cmd/app/main.go, NewCombinedHandler; Http: the middlewares and routes of
--                             `main`; Jobs: the table of what each event stands for; Processes: that
--                             the handler keeps to it
--   Settings.antt             the settings that `main` of cmd/app/main.go and the `init` functions of
--                             the lambdas read, and the constructors that take them; Agreement
--   Lambdas.antt              cmd/settlement_lambda/main.go, cmd/reconciliation_lambda/main.go;
--                             Redelivery: messages that come too late; Reconciliation: what is sent
--   Transfers.antt            any number of requests, events and lambda runs at once (CreateWallet
--                             and DeleteWallet aside); Processes: their calls; Rules: a relation
--                             that each write keeps to holds across any schedule; Funds, Forward,
--                             Ledger: such relations; Reading: the requests that only read;
--                             Journey: one transfer from the API over the queue to the lambda, or
--                             to its DELETE
--   System.antt               all processes with the queue between them, so that the settlement
--                             lambda runs on messages that were sent; Calls, Facts, Transactions,
--                             Requests and Processes: no process breaks this; Accounts: reserved
--                             funds; Solvency: balances; Bank: an abstract bank, which Bank/Refinement
--                             shows the tables to be
--   Tests.antt                runs on a small bank, and the theorems at concrete inputs; Requests,
--                             Processes, Reliable, Journey, Redelivery, Listing, Events
--                             and Http: those of the handlers, of all processes at once, of whole
--                             transfers, of late messages, of lists, of the API's lambda, and of its HTTP handler
--
-- Bounds. Go's int64 amounts are integers here: DynamoDB computes with exact decimals, and the code
-- itself does no arithmetic on them except where a module says so. Times are nanoseconds since Go's
-- zero time. The four table names of a `Store` are taken to name four different tables. Whether
-- `attributevalue` can marshal a value is a parameter; what it reads back is what it wrote.
--
-- The results on System.antt take the queue to be the settlement lambda's only source of messages,
-- and `encoding/json` to read an id, the two parties and an amount back as they were written
-- (`IsFaithful`); stale reads and redelivered or reordered messages are allowed for.
--
-- A scan or a query returns any page of items that match, each as it stands or stood before some
-- earlier write: a page is no snapshot. DynamoDB compares creation times as the texts that
-- `attributevalue` writes, in RFC3339Nano; the instants are taken to be in UTC, in years of four
-- digits. `encoding/json` is a parameter. `sort.Slice` leaves
-- the order of equal elements open; the sort here keeps it.
--
-- Not modelled: what is logged elsewhere than in the middleware; the expiry of items by their ttl
-- attribute, which DynamoDB does on its own; mocks and tests; in pkg/api/server.gen.go the error
-- types that no route uses and the mounting on another router; the web client. chi, which chooses
-- the route, the binding of a route's parameters, rs/cors, gorilla/websocket and swgui are
-- parameters.
mod Tests
pub mod Api
pub mod App
pub mod Dynamo
pub mod Errors
pub mod Handlers
pub mod Lambdas
pub mod Middleware
pub mod Models
pub mod Prelude
pub mod Program
pub mod Scheduler
pub mod Server
pub mod Service
pub mod Settings
pub mod Storage
pub mod Store
pub mod System
pub mod Transfers
pub mod Websockets
