-- ===== src/Tests/Reliable.antt =====
-- Transfers from beginning to end on the small bank, whose services answer promptly.
use mathlib.Core.Path.{subst, sym}
use delayed_wallet_transacti.Prelude.{String, ◌≡◌, refl, true, List, [], ◌∷◌, arith, eq_iff}
use delayed_wallet_transacti.Prelude.Int.{pos}
use delayed_wallet_transacti.Prelude.Table.{lookup}
use delayed_wallet_transacti.Models.{Status}
use delayed_wallet_transacti.Service.{
  Call, time_now, new_uuid, receive_messages, get_wallet_item, get_transaction_item, write_item,
  transact_write_items, scan_wallets, query_status_before, query_from_user, query_ledger_latest,
  query_connections, send_message, post_to_connection, http_post,
}
use delayed_wallet_transacti.Service.Memory.{
  Memory, memory, memory_call, write_reply, transact_reply,
}
use delayed_wallet_transacti.Service.Reliable.{Reliable, Prompt, IsNotUuid}
use delayed_wallet_transacti.Program.{◌>>=◌}
use delayed_wallet_transacti.Program.Succeeds.{Succeeds}
use delayed_wallet_transacti.Store.CreateTransaction.{create_transaction}
use delayed_wallet_transacti.Store.SettleTransaction.{settle_transaction}
use delayed_wallet_transacti.Store.CancelTransaction.{cancel_transaction}
use delayed_wallet_transacti.Store.Reliable.{IsTotal}
use delayed_wallet_transacti.Store.Reliable.Settle.{FreshPair}
use delayed_wallet_transacti.Store.Reliable.Funds.{Funds, HasStatus}
use delayed_wallet_transacti.Store.Reliable.Transfer.{
  Affordable, Delivered, create_then_settle, create_then_cancel,
}
use delayed_wallet_transacti.Tests.{bank, codec, rent, wallet_of}

-- The UUIDs to come start with these.
abbrev pub Starts : List String → List String → Type 0
Starts [] us = Unit
Starts (i ∷ is) [] = ⊥
Starts (i ∷ is) (u ∷ us) = (u ≡ i) × Starts is us

pub memory-Prompt : (c : Call) (m : Memory) → Prompt c (memory_call c m).0 m.contents
unfolding memory_call write_reply transact_reply
memory-Prompt (get_wallet_item k) m = refl
memory-Prompt (get_transaction_item k) m = refl
memory-Prompt (write_item x) m = λ h. rw h refl
memory-Prompt (transact_write_items xs) m = λ h k. rw (h, k) refl
memory-Prompt (send_message _ _ _) m = refl
memory-Prompt time_now m = tt
memory-Prompt new_uuid m = tt
memory-Prompt receive_messages m = tt
memory-Prompt scan_wallets m = tt
memory-Prompt (query_status_before _ _) m = tt
memory-Prompt (query_from_user _) m = tt
memory-Prompt (query_ledger_latest _ _) m = tt
memory-Prompt (query_connections _) m = tt
memory-Prompt (post_to_connection _ _) m = tt
memory-Prompt (http_post _) m = tt

pub same_uuids : (c : Call) (m : Memory) → IsNotUuid c → (memory_call c m).1.uuids ≡ m.uuids
unfolding memory_call
same_uuids new_uuid m n = elim n [ ]
same_uuids (query_status_before Status.reserved t) m n = refl
same_uuids (query_status_before Status.working t) m n = refl
same_uuids (query_status_before Status.approved t) m n = refl
same_uuids (query_status_before Status.completed t) m n = refl
same_uuids (query_status_before Status.cancelled t) m n = refl
same_uuids (query_status_before (Status.other u) t) m n = refl
same_uuids time_now m n = refl
same_uuids receive_messages m n = refl
same_uuids (get_wallet_item k) m n = refl
same_uuids (get_transaction_item k) m n = refl
same_uuids (write_item x) m n = refl
same_uuids (transact_write_items xs) m n = refl
same_uuids scan_wallets m n = refl
same_uuids (query_from_user _) m n = refl
same_uuids (query_ledger_latest _ _) m n = refl
same_uuids (query_connections _) m n = refl
same_uuids (send_message _ _ _) m n = refl
same_uuids (post_to_connection _ _) m n = refl
same_uuids (http_post _) m n = refl

pub next-Starts :
    (id : String) (ids us : List String) (m : Memory)
    → m.uuids ≡ us
    → Starts (id ∷ ids) us
    → ((memory_call new_uuid m).0 ≡ id) × Starts ids (memory_call new_uuid m).1.uuids
unfolding memory_call
next-Starts id ids [] m e h = elim h [ ]
next-Starts id ids (u ∷ us) m e h = rw e h

abbrev pub reliable_memory : Reliable memory
reliable_memory = record {
  Ready = λ ids m. Starts ids m.uuids;
  prompt = λ ids c m h. memory-Prompt c m;
  stays = λ ids c m n h. subst (Starts ids) (sym (same_uuids c m n)) h;
  issues = λ id ids m h. next-Starts id ids m.uuids m refl h;
}

pub codec-IsTotal : IsTotal codec
codec-IsTotal = record { marshals = λ v. refl; unmarshals = λ v. refl }

pub bank-Affordable : Affordable rent bank.contents.db
unfolding lookup
bank-Affordable = record {
  sender = wallet_of "alice" (pos 100);
  receiver = wallet_of "bob" (pos 50);
  sender_found = refl;
  receiver_found = refl;
  two_wallets = ground (arith, eq_iff "alice" "bob");
  covered = omega arith;
  none_owed = omega arith;
}

pub bank-FreshPair : FreshPair "e1" "e2" bank.contents.db
unfolding lookup
bank-FreshPair = record {
  first_unused = refl;
  second_unused = refl;
  two = ground (arith, eq_iff "e1" "e2");
}

create_then_settle_example :
    Succeeds memory
      (create_transaction codec rent >>= settle_transaction codec)
      bank
      (λ r t. (r ≡ true) × Delivered rent "t1" bank.contents.db bank-Affordable t.contents.db)
unfolding lookup
create_then_settle_example =
    create_then_settle memory reliable_memory codec codec-IsTotal rent "t1" "e1" "e2" [] bank
      (refl, (refl, (refl, tt))) bank-Affordable refl bank-FreshPair

create_then_cancel_example :
    Succeeds memory
      (create_transaction codec rent >>= λ tx. cancel_transaction codec tx.id)
      bank
      (λ _ t.
        Funds "alice" (pos 100) (pos 0) t.contents.db
        × HasStatus "t1" Status.cancelled t.contents.db)
unfolding lookup
create_then_cancel_example =
    create_then_cancel memory reliable_memory codec codec-IsTotal rent "t1" []
      (wallet_of "alice" (pos 100)) bank (refl, tt) refl (omega arith) refl
