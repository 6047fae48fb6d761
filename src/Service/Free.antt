-- ===== src/Service/Free.antt =====
-- Calls that touch neither the tables nor the queue, and what they and send_message leave of the
-- world.
use delayed_wallet_transacti.Prelude.{String, ◌≡◌, refl, ap, ◌∙◌, ◌⊎◌, inl, inr, ◌∷◌}
use delayed_wallet_transacti.Prelude.Int.{ℤ}
use delayed_wallet_transacti.Errors.{
  gone_exception, conditional_check_failed_exception, transaction_canceled_exception, other_fault,
}
use delayed_wallet_transacti.Service.{
  Call, Reply, Answers, World, done, fault, time_now, new_uuid, receive_messages, get_wallet_item,
  get_transaction_item, write_item, transact_write_items, scan_wallets, query_status_before,
  query_from_user, query_ledger_latest, query_connections, send_message, post_to_connection,
  http_post,
}

abbrev pub IsFree : Call → Type 0
IsFree (write_item _) = ⊥
IsFree (transact_write_items _) = ⊥
IsFree (send_message _ _ _) = ⊥
IsFree _ = Unit

-- The tables and the queue are as they were.
abbrev pub Stays : World → World → Type 0
Stays w v = (v.db ≡ w.db) × (v.past ≡ w.past) × (v.sent ≡ w.sent)

unchanged : {w v : World} → v ≡ w → Stays w v
unchanged e = (ap World.db e, ap World.past e, ap World.sent e)

either_way : {w v u : World} → (v ≡ w) ⊎ (v ≡ u) → Stays w u → Stays w v
either_way (inl same) t = unchanged same
either_way (inr next) t =
    (ap World.db next ∙ t.0, ap World.past next ∙ t.1, ap World.sent next ∙ t.2)

pub free-Stays : (c : Call) → IsFree c → (r : Reply c) (w v : World) → Answers c r w v → Stays w v
free-Stays time_now f r w v a = unchanged a
free-Stays new_uuid f r w v a = unchanged a
free-Stays receive_messages f r w v a = unchanged a.1
free-Stays (get_wallet_item k) f (done o) w v a = unchanged a.3
free-Stays (get_wallet_item k) f (fault e) w v a = unchanged a
free-Stays (get_transaction_item k) f (done o) w v a = unchanged a.3
free-Stays (get_transaction_item k) f (fault e) w v a = unchanged a
free-Stays (write_item x) f r w v a = elim f [ ]
free-Stays (transact_write_items xs) f r w v a = elim f [ ]
free-Stays scan_wallets f (done o) w v a = unchanged a.1
free-Stays scan_wallets f (fault e) w v a = unchanged a
free-Stays (query_status_before s t) f (done o) w v a = unchanged a.1
free-Stays (query_status_before s t) f (fault e) w v a = unchanged a
free-Stays (query_from_user k) f (done o) w v a = unchanged a.1
free-Stays (query_from_user k) f (fault e) w v a = unchanged a
free-Stays (query_ledger_latest k n) f (done o) w v a = unchanged a.1
free-Stays (query_ledger_latest k n) f (fault e) w v a = unchanged a
free-Stays (query_connections k) f (done o) w v a = unchanged a.1
free-Stays (query_connections k) f (fault e) w v a = unchanged a
free-Stays (send_message q b n) f r w v a = elim f [ ]
free-Stays (post_to_connection k p) f (done o) w v a =
    (ap World.db a, ap World.past a, ap World.sent a)
free-Stays (post_to_connection k p) f (fault gone_exception) w v a = unchanged a
free-Stays (post_to_connection k p) f (fault conditional_check_failed_exception) w v a =
    either_way a (refl, refl, refl)
free-Stays (post_to_connection k p) f (fault (transaction_canceled_exception _)) w v a =
    either_way a (refl, refl, refl)
free-Stays (post_to_connection k p) f (fault (other_fault _)) w v a =
    either_way a (refl, refl, refl)
free-Stays (http_post u) f (done o) w v a = (ap World.db a, ap World.past a, ap World.sent a)
free-Stays (http_post u) f (fault e) w v a = either_way a (refl, refl, refl)

-- A message was sent, or nothing has changed.
pub send-Stays :
    (q b : String) (n : ℤ) (r : Reply (send_message q b n)) (w v : World)
    → Answers (send_message q b n) r w v
    → (v ≡ w) ⊎ (v ≡ record w { sent = (q, b, n) ∷ w.sent })
send-Stays q b n (done o) w v a = inr a
send-Stays q b n (fault e) w v a = a
