-- ===== src/System/Bank/Refinement.antt =====
-- The tables implement the bank: each write that goes through is a move of it, or none.
use mathlib.Core.Path.{fun_ext}
use delayed_wallet_transacti.Prelude.{
  ℕ, String, ◌≡◌, refl, ap, ◌∙◌, inl, inr, Option, some, List, All, Bool-cases, ◌==◌,
}
use delayed_wallet_transacti.Prelude.Int.{ℤ}
use delayed_wallet_transacti.Prelude.Table.{Table, lookup, insert, lookup-insert}
use delayed_wallet_transacti.Models.{Status, Transaction, Wallet}
use delayed_wallet_transacti.Dynamo.{Db}
use delayed_wallet_transacti.Service.{Service}
use delayed_wallet_transacti.Api.{Environment}
use delayed_wallet_transacti.Store.CreateTransaction.Atomic.{Created}
use delayed_wallet_transacti.Store.SettleTransaction.Effects.{Locked, Settled}
use delayed_wallet_transacti.Store.CancelTransaction.Outcome.{Cancelled}
use delayed_wallet_transacti.Transfers.{Task, transfers}
use delayed_wallet_transacti.System.{Known, Consistent, IsFaithful, Invariance}
use delayed_wallet_transacti.System.Knowledge.{Known-stored}
use delayed_wallet_transacti.System.Processes.{IsDelivered, processes-Rel}
use delayed_wallet_transacti.System.Bank.{
  Account, Transfer, Bank, put, Move, reserve, begin, settle, cancel, Moves, none_made, then_made,
  account, transfer_of, transfer, bank_of,
}

account-insert :
    (k : String) (w : Wallet) (t : Table Wallet)
    → (λ j. account (lookup j (insert k w t)))
      ≡ put k (record { available = w.balance; reserved = w.reserved }) (λ j. account (lookup j t))
account-insert k w t = fun_ext λ j. elim (Bool-cases (k == j)) [
  | inl same ↦ rw (lookup-insert, same)
  | inr other ↦ rw (lookup-insert, other)
]

transfer-insert :
    (k : String) (x : Transaction) (t : Table Transaction)
    → (λ j. transfer (lookup j (insert k x t))) ≡ put k (transfer_of x) (λ j. transfer (lookup j t))
transfer-insert k x t = fun_ext λ j. elim (Bool-cases (k == j)) [
  | inl same ↦ rw (lookup-insert, same)
  | inr other ↦ rw (lookup-insert, other)
]

-- A bank by its two parts.
bank_eq :
    {f g : String → Option Account} {ts us : String → Option Transfer}
    → f ≡ g
    → ts ≡ us
    → ◌≡◌ {A = Bank}
        (record { accounts = f; transfers = ts })
        (record { accounts = g; transfers = us })
bank_eq p q = λ i. record { accounts = p i; transfers = q i }

-- The transfer `tx` at a status.
abbrev at_status : Transaction → Status → Transfer
at_status tx s = record {
  from = tx.from_user_id;
  to = tx.to_user_id;
  amount = tx.amount;
  status = s;
}

module _ (tx : Transaction) (d e : Db) where
  Created-Move : Created tx d e → Move (bank_of d) (bank_of e)
  Created-Move c =
      reserve tx.id (transfer_of tx)
        (record { available = c.sender.balance; reserved = c.sender.reserved }) c.is_reserved
        (ap transfer c.unused) (ap account c.found) c.covered
        (ap bank_of c.result
          ∙ bank_eq (account-insert tx.from_user_id _ d.wallets)
              (transfer-insert tx.id tx d.transactions))

  -- The stored transaction is the known transfer, whatever its status becomes.
  Known-transfer :
      (known : Known tx d) (stored : Transaction)
      → lookup tx.id d.transactions ≡ some stored
      → (s : Status) → at_status stored s ≡ at_status tx s
  Known-transfer known stored found s =
      let (from, to, amount) = Known-stored tx d known stored found in
      λ i. record { from = from i; to = to i; amount = amount i; status = s }

  stored_transfer :
      (known : Known tx d) (stored : Transaction)
      → lookup tx.id d.transactions ≡ some stored
      → transfer (lookup tx.id d.transactions) ≡ some (at_status tx stored.status)
  stored_transfer known stored found =
      ap transfer found ∙ ap some (Known-transfer known stored found stored.status)

  next_transfer :
      (known : Known tx d) (stored next : Transaction) (s : Status)
      → lookup tx.id d.transactions ≡ some stored
      → transfer_of next ≡ at_status stored s
      → (λ j. transfer (lookup j (insert tx.id next d.transactions)))
        ≡ put tx.id (at_status tx s) (λ j. transfer (lookup j d.transactions))
  next_transfer known stored next s found same =
      transfer-insert tx.id next d.transactions
      ∙ ap (λ t. put tx.id t (λ j. transfer (lookup j d.transactions)))
          (same ∙ Known-transfer known stored found s)

  Cancelled-Move : Known tx d → Cancelled tx d e → Move (bank_of d) (bank_of e)
  Cancelled-Move known c =
      cancel tx.id (at_status tx c.stored.status)
        (record { available = c.sender.balance; reserved = c.sender.reserved })
        (stored_transfer known c.stored c.stored_found) c.was_reserved (ap account c.sender_found)
        (ap bank_of c.result
          ∙ bank_eq (account-insert tx.from_user_id _ d.wallets)
              (next_transfer known c.stored _ Status.cancelled c.stored_found refl))

  Settled-Move : Known tx d → Settled tx d e → Move (bank_of d) (bank_of e)
  Settled-Move known c =
      settle tx.id (at_status tx c.stored.status)
        (record { available = c.sender.balance; reserved = c.sender.reserved })
        (record { available = c.receiver.balance; reserved = c.receiver.reserved })
        (stored_transfer known c.stored c.stored_found) c.was_working c.two_wallets
        (ap account c.sender_found) (ap account c.receiver_found) c.covered
        (ap bank_of c.result
          ∙ bank_eq
              (account-insert tx.to_user_id _ _
                ∙ ap (put tx.to_user_id _) (account-insert tx.from_user_id _ d.wallets))
              (next_transfer known c.stored _ Status.completed c.stored_found refl))

Locked-Move : (k : String) (d e : Db) → Locked k d e → Move (bank_of d) (bank_of e)
Locked-Move k d e l =
    begin k (transfer_of l.stored) (ap transfer l.found) l.was_reserved
      (ap bank_of l.result ∙ bank_eq refl (transfer-insert k _ d.transactions))

Moves-trans : {b c e : Bank} → Moves b c → Moves c e → Moves b e
Moves-trans m none_made = m
Moves-trans m (then_made n s) = then_made (Moves-trans m n) s

abbrev Any : ℤ → Type 0
Any a = Unit

bank_invariance : Invariance Any (λ d e. Moves (bank_of d) (bank_of e))
bank_invariance = record {
  same = λ d. none_made;
  after = λ c d e m n. Moves-trans m n;
  created = λ tx d e _ c. then_made none_made (Created-Move tx d e c);
  locked = λ k d e l. then_made none_made (Locked-Move k d e l);
  settled = λ tx d e known c. then_made none_made (Settled-Move tx d e known c);
  cancelled = λ tx d e known c. then_made none_made (Cancelled-Move tx d e known c);
  connected = λ d cs. none_made;
}

-- The system implements the bank. In a run of all processes (CreateWallet and DeleteWallet aside),
-- with the settlement lambda started by the queue, with any interleaving and any faults: if JSON
-- reads a transaction's id, parties and amount back as they were written, transactions were stored
-- under their ids, stale reads show earlier tables and the queue holds messages for stored
-- transactions only, then the accounts and transfers that the tables stand for go through moves of
-- the bank only: a transfer that the funds cover is reserved, begun, settled between two different
-- accounts, or cancelled, with the amount and the parties under which it was stored.
pub processes-Moves :
    (env : Environment) (svc : Service) (schedule : List ℕ) (tasks : List Task) (s : svc.State)
    → IsFaithful env.json
    → All IsDelivered tasks
    → Consistent env.json (svc.world s)
    → Moves (bank_of (svc.world s).db) (bank_of (transfers svc env schedule tasks s))
processes-Moves env svc schedule tasks s faithful delivered consistent =
    processes-Rel env bank_invariance faithful (λ b new e. tt) svc schedule tasks s delivered
      consistent
