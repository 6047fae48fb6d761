-- ===== src/Tests/Redelivery.antt =====
-- Messages on the small bank that are delivered again.
use mathlib.Core.Path.{subst}
use delayed_wallet_transacti.Prelude.{◌≡◌, some, [], ◌∷◌}
use delayed_wallet_transacti.Prelude.Table.{lookup}
use delayed_wallet_transacti.Models.{Status, Transaction}
use delayed_wallet_transacti.Service.Memory.{Memory, memory}
use delayed_wallet_transacti.Program.{run}
use delayed_wallet_transacti.Store.SettleTransaction.Outcome.{NotReserved}
use delayed_wallet_transacti.Lambdas.{handle_settlement_request}
use delayed_wallet_transacti.Lambdas.Redelivery.{IsLate, handle_settlement_request-Unchanged}
use delayed_wallet_transacti.Tests.{bank, rent, rent_message, process}

-- The bank when the transfer t1 is completed.
abbrev completed_bank : Memory
completed_bank = record bank {
  contents = record bank.contents {
    db = record bank.contents.db {
      transactions = ("t1", record rent { id = "t1"; status = Status.completed }) ∷ [];
    };
  };
}

completed-NotReserved : NotReserved "t1" completed_bank.contents.db
unfolding lookup
completed-NotReserved t found reserved = cc

late : IsLate process completed_bank.contents.db "t1"
late x e =
    subst (λ (y : Transaction). NotReserved y.id completed_bank.contents.db) (same rent_message x e)
      completed-NotReserved
  where
    same : (y z : Transaction) → some y ≡ some z → y ≡ z
    same y z q = cc

handle_settlement_request-Unchanged_example :
    (run memory (handle_settlement_request process ("t1" ∷ "t1" ∷ [])) completed_bank).1.contents.db
    ≡ completed_bank.contents.db
handle_settlement_request-Unchanged_example =
    handle_settlement_request-Unchanged memory process ("t1" ∷ "t1" ∷ []) completed_bank
      (late, (late, tt))
