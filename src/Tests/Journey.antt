-- ===== src/Tests/Journey.antt =====
-- A transfer on the small bank, from its request over the queue to its settlement.
use delayed_wallet_transacti.Prelude.{◌≡◌, refl, String, [], ◌∷◌, arith, eq_iff}
use delayed_wallet_transacti.Prelude.Int.{pos}
use delayed_wallet_transacti.Prelude.Table.{lookup}
use delayed_wallet_transacti.Service.{SentBody}
use delayed_wallet_transacti.Service.Memory.{memory}
use delayed_wallet_transacti.Program.Succeeds.{Succeeds}
use delayed_wallet_transacti.Models.{Status}
use delayed_wallet_transacti.Handlers.Transactions.{
  schedule_transaction_request, cancel_transaction_by_id,
}
use delayed_wallet_transacti.Store.Reliable.Funds.{Funds, HasStatus}
use delayed_wallet_transacti.Transfers.Journey.Cancels.{post_then_delete}
use delayed_wallet_transacti.Lambdas.{handle_settlement_request}
use delayed_wallet_transacti.Store.Reliable.Transfer.{Delivered}
use delayed_wallet_transacti.Transfers.Journey.{Carries}
use delayed_wallet_transacti.Transfers.Journey.Settles.{post_then_settle}
use delayed_wallet_transacti.Tests.{wallet_of, bank, rent, rent_message, process}
use delayed_wallet_transacti.Tests.Reliable.{
  reliable_memory, codec-IsTotal, bank-Affordable, bank-FreshPair,
}

process-Carries : Carries process.json "t1" "alice" "bob" (pos 30)
process-Carries tx i f t n = (
  "t1",
  rent_message,
  rw (i, f, t, n) refl,
  refl,
  record { id_same = refl; from_same = refl; to_same = refl; amount_same = refl },
)

post_then_settle_example :
    Succeeds memory (schedule_transaction_request process "rent") bank (λ response t.
      (response.status ≡ 201)
      × (message : String) × SentBody message t.contents.sent
      × Succeeds memory
          (handle_settlement_request process (message ∷ []))
          t
          (λ _ u. Delivered rent "t1" bank.contents.db bank-Affordable u.contents.db))
unfolding lookup
post_then_settle_example =
    post_then_settle memory reliable_memory process codec-IsTotal "rent" _ "t1" "e1" "e2" [] bank
      refl refl (ground (arith, eq_iff "alice" "")) (ground (arith, eq_iff "bob" ""))
      process-Carries (refl, (refl, (refl, tt))) bank-Affordable refl bank-FreshPair

post_then_delete_example :
    Succeeds memory (schedule_transaction_request process "rent") bank (λ response t.
      (response.status ≡ 201)
      × Succeeds memory (cancel_transaction_by_id process "t1") t (λ answer u.
        (answer.status ≡ 204)
        × Funds "alice" (pos 100) (pos 0) u.contents.db
        × HasStatus "t1" Status.cancelled u.contents.db))
unfolding lookup
post_then_delete_example =
    post_then_delete memory reliable_memory process codec-IsTotal "rent" _ "t1" []
      (wallet_of "alice" (pos 100)) bank refl (refl, tt) refl (omega arith) refl
