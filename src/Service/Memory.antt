-- ===== src/Service/Memory.antt =====
-- A service that behaves as documented: the tables in memory, a clock that stands still, and UUIDs
-- from a list. Reads are up to date. Scans and
-- queries are answered with all items that match, but those for the ledger and for transactions
-- of another status than RESERVED, which fail; any other call fails only where the documentation
-- has it fail.
use delayed_wallet_transacti.Prelude.{
  String, ◌≡◌, refl, inl, inr, Bool, true, false, List, [], ◌∷◌, Bool-cases, if◌then◌else◌, ◌==◌,
  ◌&&◌, eq_iff, some, arith,
}
use delayed_wallet_transacti.Prelude.Table.{lookup}
use delayed_wallet_transacti.Models.{Status, Instant, Transaction, Wallet}
use delayed_wallet_transacti.Models.Dates.{text_before}
use delayed_wallet_transacti.Errors.{
  ReasonCode, no_reason, conditional_check_failed, conditional_check_failed_exception,
  transaction_canceled_exception, other_fault,
}
use delayed_wallet_transacti.Dynamo.{Db, Write, holds, apply, apply_all, all_hold, distinct_items}
use delayed_wallet_transacti.Service.{
  receive_messages, FromSeen, InIndex, Call, Reply, Outcome, done, fault, World, commit, Explains,
  Answers, WriteAnswers, TransactAnswers, Service, time_now, new_uuid, get_wallet_item,
  get_transaction_item, write_item, transact_write_items, scan_wallets, query_status_before,
  query_from_user, query_ledger_latest, query_connections, send_message, post_to_connection,
  http_post,
}
use delayed_wallet_transacti.Service.Pages.{
  item_page, item_page-FromSeen, is_reserved, is_reserved-eq, bodies, bodies-SentBody,
  connection_page, connection_page-FromSeen,
}

pub record Memory : Type 0 where
  pub contents : World
  pub clock : Instant
  pub uuids : List String

abbrev next_uuid : List String → String × List String
next_uuid [] = ("", [])
next_uuid (u ∷ us) = (u, us)

unfoldable pub reasons : List Write → Db → List ReasonCode
reasons [] d = []
reasons (x ∷ xs) d = (if holds x d then no_reason else conditional_check_failed) ∷ reasons xs d

reasons-Explains : (xs : List Write) (d : Db) → Explains (reasons xs d) xs d
unfolding reasons
reasons-Explains [] d = tt
reasons-Explains (x ∷ xs) d = elim (Bool-cases (holds x d)) [
  | inl yes_case ↦ rw yes_case (reasons-Explains xs d)
  | inr no_case ↦ rw no_case (no_case, reasons-Explains xs d)
]

unfoldable pub write_reply : Bool → Write → World → Outcome (Unit {0}) × World
write_reply true x w = (done tt, commit (apply x w.db) w)
write_reply false x w = (fault conditional_check_failed_exception, w)

unfoldable pub transact_reply :
    (distinct hold : Bool) → List Write → World → Outcome (Unit {0}) × World
unfolding reasons
transact_reply true true xs w = (done tt, commit (apply_all xs w.db) w)
transact_reply true false xs w = (fault (transaction_canceled_exception (reasons xs w.db)), w)
transact_reply false _ xs w = (fault (other_fault "ValidationException"), w)

write-Answers :
    (x : Write) (w : World) (b : Bool)
    → holds x w.db ≡ b
    → WriteAnswers x (write_reply b x w).0 w (write_reply b x w).1
unfolding write_reply
write-Answers x w true h = record { condition = h; result = refl }
write-Answers x w false h = (h, refl)

transact-Answers :
    (xs : List Write) (w : World) (b c : Bool)
    → distinct_items xs ≡ b
    → all_hold xs w.db ≡ c
    → TransactAnswers xs (transact_reply b c xs w).0 w (transact_reply b c xs w).1
unfolding transact_reply
transact-Answers xs w true true h k = record { distinct = h; conditions = k; result = refl }
transact-Answers xs w true false h k = (reasons-Explains xs w.db, refl)
transact-Answers xs w false _ h k = inl refl

abbrev wallet_page : World → List Wallet
wallet_page w = item_page (λ x. x.user_id) (λ _. true) w.db.wallets w.db.wallets

abbrev sender_page : String → World → List Transaction
sender_page u w =
    item_page (λ x. x.id) (λ x. x.from_user_id == u) w.db.transactions w.db.transactions

abbrev stuck_page : Instant → World → List Transaction
stuck_page t w =
    item_page (λ x. x.id) (λ x. is_reserved x.status && text_before x.created_at t)
      w.db.transactions w.db.transactions

wallet_page-FromSeen :
    (w : World) → FromSeen (λ v d. lookup v.user_id d.wallets ≡ some v) w (wallet_page w)
wallet_page-FromSeen w = item_page-FromSeen _ _ _ w _ (λ x found _. found) _

sender_page-FromSeen :
    (u : String) (w : World) → FromSeen (InIndex (λ y. y.from_user_id ≡ u)) w (sender_page u w)
sender_page-FromSeen u w =
    item_page-FromSeen _ _ _ w _ (λ x found same. (found, (eq_iff x.from_user_id u).0 same)) _

stuck_page-FromSeen :
    (t : Instant) (w : World)
    → FromSeen
        (InIndex (λ y. (y.status ≡ Status.reserved) × (text_before y.created_at t ≡ true)))
        w
        (stuck_page t w)
stuck_page-FromSeen t w =
    item_page-FromSeen _ _ _ w _
      (λ x found h. (found, (is_reserved-eq x.status (ground arith), ground arith))) _

unfoldable pub memory_call : (c : Call) → Memory → Reply c × Memory
unfolding write_reply transact_reply item_page bodies connection_page
memory_call time_now m = (m.clock, m)
memory_call receive_messages m = (bodies m.contents.sent, m)
memory_call new_uuid m = let (u, us) = next_uuid m.uuids in (u, record m { uuids = us })
memory_call (get_wallet_item k) m = (done (lookup k m.contents.db.wallets), m)
memory_call (get_transaction_item k) m = (done (lookup k m.contents.db.transactions), m)
memory_call (write_item x) m =
    let (r, w) = write_reply (holds x m.contents.db) x m.contents in (r, record m { contents = w })
memory_call (transact_write_items xs) m =
    let (r, w) = transact_reply (distinct_items xs) (all_hold xs m.contents.db) xs m.contents in
    (r, record m { contents = w })
memory_call scan_wallets m = (done (wallet_page m.contents), m)
memory_call (query_status_before Status.reserved t) m = (done (stuck_page t m.contents), m)
memory_call (query_status_before _ _) m = (fault (other_fault "ResourceNotFoundException"), m)
memory_call (query_from_user u) m = (done (sender_page u m.contents), m)
memory_call (query_ledger_latest _ _) m = (fault (other_fault "ResourceNotFoundException"), m)
memory_call (query_connections _) m =
    (done (connection_page m.contents.db.connections m.contents.db.connections), m)
memory_call (send_message q b n) m =
    (done tt, record m { contents = record m.contents { sent = (q, b, n) ∷ m.contents.sent } })
memory_call (post_to_connection k p) m =
    (done tt, record m { contents = record m.contents { pushed = (k, p) ∷ m.contents.pushed } })
memory_call (http_post u) m =
    (done 204, record m { contents = record m.contents { posted = u ∷ m.contents.posted } })

pub memory_call-Answers :
    (c : Call) (m : Memory) → Answers c (memory_call c m).0 m.contents (memory_call c m).1.contents
unfolding memory_call
memory_call-Answers time_now m = refl
memory_call-Answers new_uuid m = refl
memory_call-Answers receive_messages m = (bodies-SentBody m.contents.sent, refl)
memory_call-Answers (get_wallet_item k) m = (m.contents.db, inl refl, refl, refl)
memory_call-Answers (get_transaction_item k) m = (m.contents.db, inl refl, refl, refl)
memory_call-Answers (write_item x) m = write-Answers x m.contents _ refl
memory_call-Answers (transact_write_items xs) m = transact-Answers xs m.contents _ _ refl refl
memory_call-Answers scan_wallets m = (wallet_page-FromSeen m.contents, refl)
memory_call-Answers (query_status_before Status.reserved t) m =
    (stuck_page-FromSeen t m.contents, refl)
memory_call-Answers (query_status_before Status.working t) m = refl
memory_call-Answers (query_status_before Status.approved t) m = refl
memory_call-Answers (query_status_before Status.completed t) m = refl
memory_call-Answers (query_status_before Status.cancelled t) m = refl
memory_call-Answers (query_status_before (Status.other u) t) m = refl
memory_call-Answers (query_from_user u) m = (sender_page-FromSeen u m.contents, refl)
memory_call-Answers (query_ledger_latest _ _) m = refl
memory_call-Answers (query_connections _) m = (connection_page-FromSeen m.contents _, refl)
memory_call-Answers (send_message q b n) m = refl
memory_call-Answers (post_to_connection k p) m = refl
memory_call-Answers (http_post u) m = refl

abbrev pub memory : Service
memory = record {
  State = Memory;
  world = λ m. m.contents;
  perform = memory_call;
  obeys = memory_call-Answers;
}
