-- ===== src/System/Solvency.antt =====
-- No wallet falls below zero, if no request asks for a negative amount.
use mathlib.Core.Path.{subst}
use delayed_wallet_transacti.Prelude.{
  ℕ, String, ◌≡◌, sym, inl, inr, Bool, true, false, some, List, [], ◌∷◌, All, Bool-cases,
  if◌then◌else◌, ◌&&◌, ◌==◌, arith,
}
use delayed_wallet_transacti.Prelude.Int.{ℤ, pos, ◌+ℤ◌, ◌-ℤ◌, ◌≤ℤ◌, int_laws}
use delayed_wallet_transacti.Prelude.Table.{Table, lookup, insert, sum_by}
use delayed_wallet_transacti.Models.{Transaction, Wallet}
use delayed_wallet_transacti.Dynamo.{Db}
use delayed_wallet_transacti.Service.{Service}
use delayed_wallet_transacti.Api.{Environment}
use delayed_wallet_transacti.Store.CreateTransaction.Atomic.{Created}
use delayed_wallet_transacti.Store.SettleTransaction.Effects.{Locked, Settled}
use delayed_wallet_transacti.Store.CancelTransaction.Outcome.{Cancelled}
use delayed_wallet_transacti.Transfers.{Task, transfers}
use delayed_wallet_transacti.System.{Known, Consistent, IsFaithful, Invariance}
use delayed_wallet_transacti.System.Processes.{IsDelivered, Accepts, processes-Rel}
use delayed_wallet_transacti.System.Accounts.{is_open, held, Accounted, processes-Accounted}

abbrev pub NotNegative : ℤ → Type 0
NotNegative a = pos 0 ≤ℤ a

module _ {V : Type 0} (P : V → Type 0) where
  -- Every item of the table.
  abbrev pub Each : Table V → Type 0
  Each [] = Unit
  Each ((_, v) ∷ t) = P v × Each t

  lookup-Each : (k : String) (v : V) (t : Table V) → Each t → lookup k t ≡ some v → P v
  unfolding lookup
  lookup-Each k v [] h e = cc
  lookup-Each k v ((j, w) ∷ t) h e = elim (Bool-cases (j == k)) [
    | inl same ↦ subst P (some_eq w v (rw same at e)) h.0
    | inr other ↦ lookup-Each k v t h.1 (rw other at e)
  ]
    where
      some_eq : (x y : V) → some x ≡ some y → x ≡ y
      some_eq x y e = cc

  insert-Each : (k : String) (v : V) (t : Table V) → Each t → P v → Each (insert k v t)
  unfolding insert
  insert-Each k v [] h p = (p, tt)
  insert-Each k v ((j, w) ∷ t) h p = elim (Bool-cases (j == k)) [
    | inl same ↦ rw same (p, h.1)
    | inr other ↦ rw other (h.0, insert-Each k v t h.1 p)
  ]

-- No balance is negative, nor is the amount of any transaction.
pub record Solvent (d : Db) : Type 0 where
  pub balances : Each (λ (x : Wallet). NotNegative x.balance) d.wallets
  pub amounts : Each (λ (t : Transaction). NotNegative t.amount) d.transactions

left : (a b : ℤ) → a ≤ℤ b → NotNegative (b -ℤ a)
left a b h = omega int_laws

more : (a b : ℤ) → NotNegative a → NotNegative b → NotNegative (a +ℤ b)
more a b h k = omega int_laws

balance_of :
    (d : Db) (k : String) (x : Wallet)
    → Solvent d
    → lookup k d.wallets ≡ some x
    → NotNegative x.balance
balance_of d k x h found =
    lookup-Each (λ (y : Wallet). NotNegative y.balance) k x d.wallets h.balances found

module _ (tx : Transaction) (d e : Db) where
  Created-Solvent : NotNegative tx.amount → Created tx d e → Solvent d → Solvent e
  Created-Solvent fit c h = subst Solvent (sym c.result) (record {
    balances = insert-Each _ tx.from_user_id _ d.wallets h.balances (left _ _ c.covered);
    amounts = insert-Each _ tx.id tx d.transactions h.amounts fit;
  })

  stored_amount :
      (s : Transaction) → Solvent d → lookup tx.id d.transactions ≡ some s → NotNegative s.amount
  stored_amount s h found =
      lookup-Each (λ (t : Transaction). NotNegative t.amount) tx.id s d.transactions h.amounts found

  known_amount : Known tx d → Solvent d → NotNegative tx.amount
  known_amount known h =
      subst NotNegative known.same_amount (stored_amount known.stored h known.found)

  Settled-Solvent : Known tx d → Settled tx d e → Solvent d → Solvent e
  Settled-Solvent known c h = subst Solvent (sym c.result) (record {
    balances =
        insert-Each _ tx.to_user_id _ _
          (insert-Each _ tx.from_user_id _ d.wallets h.balances
            (balance_of d _ c.sender h c.sender_found))
          (more _ _ (balance_of d _ c.receiver h c.receiver_found) (known_amount known h));
    amounts =
        insert-Each _ tx.id _ d.transactions h.amounts (stored_amount c.stored h c.stored_found);
  })

  Cancelled-Solvent : Known tx d → Cancelled tx d e → Solvent d → Solvent e
  Cancelled-Solvent known c h = subst Solvent (sym c.result) (record {
    balances =
        insert-Each _ tx.from_user_id _ d.wallets h.balances
          (more _ _ (balance_of d _ c.sender h c.sender_found) (known_amount known h));
    amounts =
        insert-Each _ tx.id _ d.transactions h.amounts (stored_amount c.stored h c.stored_found);
  })

Locked-Solvent : (k : String) (d e : Db) → Locked k d e → Solvent d → Solvent e
Locked-Solvent k d e l h = subst Solvent (sym l.result) (record {
  balances = h.balances;
  amounts = insert-Each _ k _ d.transactions h.amounts (
      lookup-Each (λ (t : Transaction). NotNegative t.amount) k l.stored d.transactions h.amounts
        l.found);
})

Solvent-invariance : Invariance NotNegative (λ d e. Solvent d → Solvent e)
Solvent-invariance = record {
  same = λ d h. h;
  after = λ c d e p q h. q (p h);
  created = Created-Solvent;
  locked = Locked-Solvent;
  settled = Settled-Solvent;
  cancelled = Cancelled-Solvent;
  connected = λ d cs h. record { balances = h.balances; amounts = h.amounts };
}

held-NotNegative :
    (k : String) (ts : Table Transaction)
    → Each (λ (t : Transaction). NotNegative t.amount) ts
    → NotNegative (held k ts)
unfolding sum_by
held-NotNegative k [] h = omega arith
held-NotNegative k ((_, t) ∷ ts) h =
    more _ _ (one (t.from_user_id == k && is_open t.status)) (held-NotNegative k ts h.1)
  where
    one : (b : Bool) → NotNegative (if b then t.amount else pos 0)
    one true = h.0
    one false = omega arith

-- Neither part of a user's funds is negative.
abbrev pub InCredit : Db → Type 0
InCredit d =
    (k : String) (x : Wallet)
    → lookup k d.wallets ≡ some x
    → NotNegative x.balance × NotNegative x.reserved

-- In a run of all processes (CreateWallet and DeleteWallet aside), with the settlement lambda
-- started by the queue, with any interleaving and any faults: if JSON reads a transaction's id,
-- parties and amount back as they were written, transactions were stored under their ids, stale
-- reads show earlier tables and the queue holds messages for stored transactions only, no balance
-- and no stored amount was negative, the reserved funds were those of the open transactions, and no
-- request asks for a negative amount, then no wallet's balance or reserved funds are negative
-- afterwards.
pub processes-InCredit :
    (env : Environment) (svc : Service) (schedule : List ℕ) (tasks : List Task) (s : svc.State)
    → IsFaithful env.json
    → Accepts env NotNegative
    → All IsDelivered tasks
    → Consistent env.json (svc.world s)
    → Accounted (svc.world s).db
    → Solvent (svc.world s).db
    → InCredit (transfers svc env schedule tasks s)
processes-InCredit env svc schedule tasks s faithful accepts delivered consistent accounted solvent
      k x found =
    let e = transfers svc env schedule tasks s in
    let after : Solvent e =
      processes-Rel env Solvent-invariance faithful accepts svc schedule tasks s delivered
        consistent solvent in
    let books : Accounted e =
      processes-Accounted env svc schedule tasks s faithful delivered consistent accounted in
    (
      balance_of e k x after found,
      subst NotNegative (sym (books.at k x found))
          (held-NotNegative k e.transactions after.amounts),
    )
