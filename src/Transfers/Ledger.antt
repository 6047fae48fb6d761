-- ===== src/Transfers/Ledger.antt =====
-- The ledger: entries are only added, two for each transaction that becomes COMPLETED.
use delayed_wallet_transacti.Prelude.{
  ℕ, String, ◌≡◌, refl, sym, ◌∙◌, ap, inl, inr, true, Option, none, some, List, Bool-cases,
  if◌then◌else◌, ◌==◌, eq_iff,
}
use delayed_wallet_transacti.Prelude.Table.{
  Table, lookup, insert, lookup-insert, lookup-insert_ne, sum_by, sum_by-insert_new,
}
use delayed_wallet_transacti.Prelude.Int.{ℤ, pos, ◌+ℤ◌, int_laws, exchange_trans}
use delayed_wallet_transacti.Models.{Status, same_status, Transaction, LedgerEntry}
use delayed_wallet_transacti.Dynamo.{Db}
use delayed_wallet_transacti.Service.{Service}
use delayed_wallet_transacti.Api.{Environment}
use delayed_wallet_transacti.Store.CreateTransaction.Atomic.{Created}
use delayed_wallet_transacti.Store.SettleTransaction.{debit_entry, credit_entry}
use delayed_wallet_transacti.Store.SettleTransaction.Effects.{Locked, Settled}
use delayed_wallet_transacti.Store.CancelTransaction.Outcome.{Cancelled}
use delayed_wallet_transacti.Transfers.{Task, transfers}
use delayed_wallet_transacti.Transfers.Rules.{Invariance, transfers-Rel}

-- 1 for an entry of the transaction.
abbrev pub entry_of : String → LedgerEntry → ℤ
entry_of tx_id e = if e.transaction_id == tx_id then pos 1 else pos 0

-- How many ledger entries a transaction has.
abbrev pub entries : String → Db → ℤ
entries tx_id d = sum_by (entry_of tx_id) d.ledger

abbrev due_of : Option Transaction → ℤ
due_of none = pos 0
due_of (some t) = if same_status t.status Status.completed then pos 2 else pos 0

-- How many it should have: two if it is stored as COMPLETED, none if not.
abbrev pub entries_due : String → Db → ℤ
entries_due tx_id d = due_of (lookup tx_id d.transactions)

-- The entries added between two states of the tables are those that have become due.
abbrev pub PaidOnce : String → Db → Db → Type 0
PaidOnce k d e = entries k e +ℤ entries_due k d ≡ entries k d +ℤ entries_due k e

module _ (k : String) where
  -- A write of a transaction whose dues it does not change.
  same_due :
      (j : String) (v : Transaction) (t : Table Transaction)
      → due_of (lookup j t) ≡ due_of (some v)
      → due_of (lookup k (insert j v t)) ≡ due_of (lookup k t)
  same_due j v t h = elim (Bool-cases (j == k)) [
    | inl same ↦
        rw (lookup-insert, same) (sym h ∙ ap (λ i. due_of (lookup i t)) ((eq_iff j k).0 same))
    | inr other ↦ rw (lookup-insert, other)
  ]

  Created-once : (tx : Transaction) (d e : Db) → Created tx d e → PaidOnce k d e
  Created-once tx d e c = rw c.result (
      ap (λ x. entries k d +ℤ x)
        (sym (same_due tx.id tx d.transactions (rw (c.unused, c.is_reserved)))))

  Locked-once : (j : String) (d e : Db) → Locked j d e → PaidOnce k d e
  Locked-once j d e c = rw c.result (
      ap (λ x. entries k d +ℤ x) (sym (same_due j _ d.transactions (rw (c.found, c.was_reserved)))))

  Cancelled-once : (tx : Transaction) (d e : Db) → Cancelled tx d e → PaidOnce k d e
  Cancelled-once tx d e c = rw c.result (
      ap (λ x. entries k d +ℤ x)
        (sym (same_due tx.id _ d.transactions (rw (c.stored_found, c.was_reserved)))))

  module _ (tx : Transaction) (d e : Db) (c : Settled tx d e) where
    open c use {p, stored}

    one_each : ℤ
    one_each = if tx.id == k then pos 1 else pos 0

    entries-Settled : entries k e ≡ entries k d +ℤ one_each +ℤ one_each
    unfolding one_each
    entries-Settled =
        ap (entries k) c.result
        ∙ sum_by-insert_new (entry_of k) p.credit_id (credit_entry tx p.credit_id p.now) _
            (lookup-insert_ne _ _ _ d.ledger c.two_entries ∙ c.credit_unused)
        ∙ ap (λ x. x +ℤ one_each)
            (sum_by-insert_new (entry_of k) p.debit_id (debit_entry tx p.debit_id p.now) d.ledger
              c.debit_unused)

    found : (tx.id == k) ≡ true → lookup k d.transactions ≡ some stored
    found same = ap (λ i. lookup i d.transactions) (sym ((eq_iff tx.id k).0 same)) ∙ c.stored_found

    due-Settled : entries_due k e ≡ entries_due k d +ℤ one_each +ℤ one_each
    unfolding one_each
    due-Settled = elim (Bool-cases (tx.id == k)) [
      | inl same ↦ rw (c.result, lookup-insert, same, found same, c.was_working) (omega int_laws)
      | inr other ↦ rw (c.result, lookup-insert, other) (omega int_laws)
    ]

    Settled-once : PaidOnce k d e
    Settled-once = rw (entries-Settled, due-Settled) (omega int_laws)

once_invariance : (k : String) → Invariance (PaidOnce k)
once_invariance k = record {
  same = λ d. refl;
  after = λ c d e p q.
      exchange_trans (entries k c) (entries k d) (entries k e) (entries_due k c) (entries_due k d)
        (entries_due k e) p q;
  created = Created-once k;
  locked = Locked-once k;
  settled = Settled-once k;
  cancelled = Cancelled-once k;
  connected = λ d cs. refl;
}

-- Across any interleaving of requests (CreateWallet and DeleteWallet aside), WebSocket events and
-- lambda runs, with any faults of the services, the ledger gains two entries for a transaction
-- that becomes COMPLETED and none for any other: settling the same transaction many times pays
-- once.
pub transfers-PaidOnce :
    (svc : Service) (env : Environment) (schedule : List ℕ) (tasks : List Task) (s : svc.State)
    (tx_id : String)
    → PaidOnce tx_id (svc.world s).db (transfers svc env schedule tasks s)
transfers-PaidOnce svc env schedule tasks s tx_id =
    transfers-Rel (PaidOnce tx_id) (once_invariance tx_id) svc env schedule tasks s
