-- ===== src/Tests/Processes.antt =====
-- All processes at once on the bank: a request, its cancellation, and the queue's deliveries.
use mathlib.Core.Path.{subst}
use delayed_wallet_transacti.Prelude.{ℕ, String, ◌≡◌, refl, some, List, [], ◌∷◌, All, eq_iff, arith}
use delayed_wallet_transacti.Prelude.Int.{pos, eqb_ℤ→eq}
use delayed_wallet_transacti.Prelude.Table.{lookup, sum_by}
use delayed_wallet_transacti.Models.{Transaction, Wallet}
use delayed_wallet_transacti.Service.Memory.{memory}
use delayed_wallet_transacti.Api.{ApiTransaction, NewTransaction}
use delayed_wallet_transacti.Program.{ok}
use delayed_wallet_transacti.Lambdas.{settle_delivered}
use delayed_wallet_transacti.Transfers.{
  Task, post_transaction, delete_transaction, settlement_delivery, transfers,
}
use delayed_wallet_transacti.Transfers.Ledger.{entries}
use delayed_wallet_transacti.System.{Consistent, IsFaithful}
use delayed_wallet_transacti.System.Processes.{IsDelivered, Accepts}
use delayed_wallet_transacti.System.Accounts.{held, Accounted, processes-Accounted}
use delayed_wallet_transacti.System.Solvency.{NotNegative, Solvent, InCredit, processes-InCredit}
use delayed_wallet_transacti.System.Bank.{Moves, bank_of}
use delayed_wallet_transacti.System.Bank.Refinement.{processes-Moves}
use delayed_wallet_transacti.Tests.{bank, process, machine}

abbrev scene : List Task
scene =
    post_transaction "rent"
    ∷ settlement_delivery
    ∷ delete_transaction "t1"
    ∷ settlement_delivery
    ∷ []

-- The request creates the transaction and sends its message before the others start.
abbrev order : List ℕ
order =
    0 ∷ 0 ∷ 0 ∷ 0 ∷ 0 ∷ 0 ∷ 0 ∷ 1 ∷ 3 ∷ 1 ∷ 2 ∷ 3 ∷ 1 ∷ 2 ∷ 1 ∷ 1 ∷ 1 ∷ 1 ∷ 1 ∷ 2 ∷ 1 ∷ 1 ∷ 1 ∷ 2
    ∷ []

scene_pays_once : entries "t1" (transfers memory process order scene bank) ≡ pos 2
unfolding machine settle_delivered
scene_pays_once = refl

process-IsFaithful : IsFaithful process.json
process-IsFaithful = record { reads_back = reads }
  where
    reads :
        (tx : ApiTransaction) (body : String) (x : Transaction)
        → process.json.marshal_transaction tx ≡ some body
        → process.json.unmarshal_transaction body ≡ some x
        → (x.id ≡ tx.id)
          × (x.from_user_id ≡ tx.from_user_id)
          × (x.to_user_id ≡ tx.to_user_id)
          × (x.amount ≡ tx.amount)
    reads tx body x m u = ground (
      arith,
      eq_iff tx.id "t1",
      eq_iff tx.from_user_id "alice",
      eq_iff tx.to_user_id "bob",
      eq_iff body "t1",
      eqb_ℤ→eq tx.amount (pos 30),
    )

bank-Consistent : Consistent process.json bank.contents
unfolding lookup
bank-Consistent = record {
  keyed = record { at = λ k t found. cc };
  earlier = tt;
  genuine = λ body m. elim m [ ];
}

bank_held :
    (k : String) (x : Wallet) → lookup k bank.contents.db.wallets ≡ some x → x.reserved ≡ held k []
unfolding lookup sum_by
bank_held k x found = ground (arith, eq_iff "alice" k, eq_iff "bob" k)

bank-Accounted : Accounted bank.contents.db
bank-Accounted = record { at = bank_held }

bank-Solvent : Solvent bank.contents.db
bank-Solvent = record { balances = (omega arith, (omega arith, tt)); amounts = tt }

process-Accepts : Accepts process NotNegative
process-Accepts body new e = subst NotNegative (amount_eq _ e) (omega arith)
  where
    amount_eq : (m : NewTransaction) → ok m ≡ ok new → m.amount ≡ new.amount
    amount_eq m h = cc

scene-IsDelivered : All IsDelivered scene
scene-IsDelivered = (tt, (tt, (tt, (tt, tt))))

processes-Accounted_example : Accounted (transfers memory process order scene bank)
processes-Accounted_example =
    processes-Accounted process memory order scene bank process-IsFaithful scene-IsDelivered
      bank-Consistent bank-Accounted

processes-InCredit_example : InCredit (transfers memory process order scene bank)
processes-InCredit_example =
    processes-InCredit process memory order scene bank process-IsFaithful process-Accepts
      scene-IsDelivered bank-Consistent bank-Accounted bank-Solvent

processes-Moves_example :
    Moves (bank_of bank.contents.db) (bank_of (transfers memory process order scene bank))
processes-Moves_example =
    processes-Moves process memory order scene bank process-IsFaithful scene-IsDelivered
      bank-Consistent
