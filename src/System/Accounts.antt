-- ===== src/System/Accounts.antt =====
-- The reserved funds of a wallet are the amounts of its open transactions.
use mathlib.Core.Path.{subst}
use delayed_wallet_transacti.Prelude.{
  ℕ, String, ◌≡◌, refl, sym, ◌∙◌, inl, inr, Bool, true, false, none, some, List, All, Bool-cases,
  if◌then◌else◌, ◌&&◌, ◌==◌, eq_iff,
}
use delayed_wallet_transacti.Prelude.Int.{ℤ, pos, ◌+ℤ◌, ◌-ℤ◌, int_laws}
use delayed_wallet_transacti.Prelude.Table.{
  Table, lookup, insert, lookup-insert, lookup-insert_ne, sum_by, sum_by-insert, sum_by-insert_same,
  sum_by-insert_new,
}
use delayed_wallet_transacti.Models.{Status, Transaction, Wallet}
use delayed_wallet_transacti.Dynamo.{Db}
use delayed_wallet_transacti.Service.{Service}
use delayed_wallet_transacti.Api.{Environment}
use delayed_wallet_transacti.Store.CreateTransaction.Atomic.{Created}
use delayed_wallet_transacti.Store.SettleTransaction.Effects.{Locked, Settled}
use delayed_wallet_transacti.Store.CancelTransaction.Outcome.{Cancelled}
use delayed_wallet_transacti.Transfers.{Task, transfers}
use delayed_wallet_transacti.System.{Known, Consistent, IsFaithful, Invariance}
use delayed_wallet_transacti.System.Knowledge.{Known-stored}
use delayed_wallet_transacti.System.Processes.{IsDelivered, processes-Rel}

-- Neither settled nor cancelled.
abbrev pub is_open : Status → Bool
is_open Status.reserved = true
is_open Status.working = true
is_open _ = false

-- What a transaction holds of the wallet's funds.
abbrev pub held_by : String → Transaction → ℤ
held_by user_id t = if t.from_user_id == user_id && is_open t.status then t.amount else pos 0

-- The amounts of the open transactions of a user.
abbrev pub held : String → Table Transaction → ℤ
held user_id transactions = sum_by (held_by user_id) transactions

abbrev Accounts : Table Wallet → Table Transaction → Type 0
Accounts wallets transactions =
    (k : String) (x : Wallet) → lookup k wallets ≡ some x → x.reserved ≡ held k transactions

-- Every wallet's reserved funds are the amounts of its user's open transactions.
pub record Accounted (d : Db) : Type 0 where
  pub at :
      (k : String) (x : Wallet) → lookup k d.wallets ≡ some x → x.reserved ≡ held k d.transactions

-- One wallet is written, and the transactions change to match.
insert-Accounts :
    (wallets : Table Wallet) (ts us : Table Transaction) (j : String) (old new : Wallet)
    → Accounts wallets ts
    → lookup j wallets ≡ some old
    → ((k : String)
        → held k us +ℤ (if j == k then old.reserved else pos 0)
          ≡ held k ts +ℤ (if j == k then new.reserved else pos 0))
    → Accounts (insert j new wallets) us
insert-Accounts wallets ts us j old new acc found change k x e =
    grind (int_laws, lookup-insert j k new wallets, eq_iff j k, acc k, change k)

module _ (k : String) (t : Transaction) where
  -- An open transaction holds its amount for its sender.
  held-open :
      is_open t.status ≡ true → held_by k t ≡ (if t.from_user_id == k then t.amount else pos 0)
  held-open h = elim (Bool-cases (t.from_user_id == k)) [
    | inl same ↦ rw (same, h)
    | inr other ↦ rw other
  ]

  held-closed : is_open t.status ≡ false → held_by k t ≡ pos 0
  held-closed h = elim (Bool-cases (t.from_user_id == k)) [
    | inl same ↦ rw (same, h)
    | inr other ↦ rw other
  ]

-- A new open transaction.
opens :
    (ts : Table Transaction) (tx : Transaction) (r : ℤ)
    → lookup tx.id ts ≡ none
    → is_open tx.status ≡ true
    → (k : String)
    → held k (insert tx.id tx ts) +ℤ (if tx.from_user_id == k then r else pos 0)
      ≡ held k ts +ℤ (if tx.from_user_id == k then r +ℤ tx.amount else pos 0)
opens ts tx r unused open_ k =
    grind (int_laws, sum_by-insert_new (held_by k) tx.id tx ts unused, held-open k tx open_)

-- An open transaction ends.
closes :
    (ts : Table Transaction) (j from : String) (amount : ℤ) (old new : Transaction) (r : ℤ)
    → lookup j ts ≡ some old
    → is_open old.status ≡ true
    → is_open new.status ≡ false
    → old.from_user_id ≡ from
    → old.amount ≡ amount
    → (k : String)
    → held k (insert j new ts) +ℤ (if from == k then r else pos 0)
      ≡ held k ts +ℤ (if from == k then r -ℤ amount else pos 0)
closes ts j from amount old new r found was_open is_closed same_from same_amount k = grind (
  int_laws,
  sum_by-insert (held_by k) j new old ts found,
  held-open k old was_open,
  held-closed k new is_closed,
)

module _ (tx : Transaction) (d e : Db) where
  Created-Accounted : Created tx d e → Accounted d → Accounted e
  Created-Accounted c h = subst Accounted (sym c.result) (record {
    at =
        insert-Accounts d.wallets d.transactions _ tx.from_user_id c.sender _ h.at c.found
          (opens d.transactions tx c.sender.reserved c.unused (rw c.is_reserved));
  })

  Settled-Accounted : Known tx d → Settled tx d e → Accounted d → Accounted e
  Settled-Accounted known c h = subst Accounted (sym c.result) (record {
    at =
        insert-Accounts (insert tx.from_user_id _ d.wallets) _ _ tx.to_user_id c.receiver _
          (insert-Accounts d.wallets d.transactions _ tx.from_user_id c.sender _ h.at c.sender_found
            (closes d.transactions tx.id tx.from_user_id tx.amount c.stored _ c.sender.reserved
              c.stored_found (rw c.was_working) refl
              (Known-stored tx d known c.stored c.stored_found).0
              (Known-stored tx d known c.stored c.stored_found).2))
          (lookup-insert_ne _ _ _ d.wallets c.two_wallets ∙ c.receiver_found) (λ k. refl);
  })

  Cancelled-Accounted : Known tx d → Cancelled tx d e → Accounted d → Accounted e
  Cancelled-Accounted known c h = subst Accounted (sym c.result) (record {
    at = insert-Accounts d.wallets d.transactions _ tx.from_user_id c.sender _ h.at c.sender_found (
        closes d.transactions tx.id tx.from_user_id tx.amount c.stored _ c.sender.reserved
          c.stored_found (rw c.was_reserved) refl
          (Known-stored tx d known c.stored c.stored_found).0
          (Known-stored tx d known c.stored c.stored_found).2);
  })

held-lock :
    (k j : String) (ts : Table Transaction) (old : Transaction)
    → lookup j ts ≡ some old
    → old.status ≡ Status.reserved
    → held k (insert j (record old { status = Status.working }) ts) ≡ held k ts
held-lock k j ts old found was = sum_by-insert_same (held_by k) j _ old ts found (rw was)

Locked-Accounted : (k : String) (d e : Db) → Locked k d e → Accounted d → Accounted e
Locked-Accounted k d e l h = subst Accounted (sym l.result) (record {
  at = λ j x found.
      h.at j x found ∙ sym (held-lock j k d.transactions l.stored l.found l.was_reserved);
})

abbrev Any : ℤ → Type 0
Any a = Unit

Accounted-invariance : Invariance Any (λ d e. Accounted d → Accounted e)
Accounted-invariance = record {
  same = λ d h. h;
  after = λ c d e p q h. q (p h);
  created = λ tx d e _. Created-Accounted tx d e;
  locked = Locked-Accounted;
  settled = Settled-Accounted;
  cancelled = Cancelled-Accounted;
  connected = λ d cs h. record { at = h.at };
}

-- In a run of all processes (CreateWallet and DeleteWallet aside), with the settlement lambda
-- started by the queue, with any interleaving and any faults: if JSON reads a transaction's id,
-- parties and amount back as they were written, transactions were stored under their ids, stale
-- reads show earlier tables and the queue holds messages for stored transactions only, and every
-- wallet's reserved funds were the amounts of its user's open (RESERVED or WORKING) transactions,
-- then they still are.
pub processes-Accounted :
    (env : Environment) (svc : Service) (schedule : List ℕ) (tasks : List Task) (s : svc.State)
    → IsFaithful env.json
    → All IsDelivered tasks
    → Consistent env.json (svc.world s)
    → Accounted (svc.world s).db
    → Accounted (transfers svc env schedule tasks s)
processes-Accounted env svc schedule tasks s faithful delivered consistent =
    processes-Rel env Accounted-invariance faithful (λ b new e. tt) svc schedule tasks s delivered
      consistent
