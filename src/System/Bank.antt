-- ===== src/System/Bank.antt =====
-- What the system promises, without tables, versions, times, ledger entries or retries: a bank of
-- accounts and transfers.
pub mod Refinement
use delayed_wallet_transacti.Prelude.{String, ◌≡◌, ◌≢◌, Option, none, some, if◌then◌else◌, ◌==◌}
use delayed_wallet_transacti.Prelude.Int.{ℤ, ◌+ℤ◌, ◌-ℤ◌, ◌≤ℤ◌}
use delayed_wallet_transacti.Prelude.Table.{lookup}
use delayed_wallet_transacti.Models.{Status, Transaction, Wallet}
use delayed_wallet_transacti.Dynamo.{Db}

-- A user's funds: those that can be spent, and those that are set aside.
pub record Account : Type 0 where
  pub available : ℤ
  pub reserved : ℤ

pub record Transfer : Type 0 where
  pub from : String
  pub to : String
  pub amount : ℤ
  pub status : Status

pub record Bank : Type 0 where
  pub accounts : String → Option Account
  pub transfers : String → Option Transfer

abbrev pub put : {A : Type 0} → String → A → (String → Option A) → String → Option A
put k a f j = if k == j then some a else f j

-- One step of the bank, from `b` to `c`.
pub data Move (b c : Bank) : Type 0 where
  reserve :
      (id : String) (t : Transfer) (a : Account)
      → t.status ≡ Status.reserved
      → b.transfers id ≡ none
      → b.accounts t.from ≡ some a
      → t.amount ≤ℤ a.available
      → c ≡ record {
        accounts =
            put t.from
              (record { available = a.available -ℤ t.amount; reserved = a.reserved +ℤ t.amount })
              b.accounts;
        transfers = put id t b.transfers;
      }
      → Move b c
  begin :
      (id : String) (t : Transfer)
      → b.transfers id ≡ some t
      → t.status ≡ Status.reserved
      → c ≡ record b { transfers = put id (record t { status = Status.working }) b.transfers }
      → Move b c
  settle :
      (id : String) (t : Transfer) (payer payee : Account)
      → b.transfers id ≡ some t
      → t.status ≡ Status.working
      → t.from ≢ t.to
      → b.accounts t.from ≡ some payer
      → b.accounts t.to ≡ some payee
      → t.amount ≤ℤ payer.reserved
      → c ≡ record {
        accounts =
            put t.to
              (record payee { available = payee.available +ℤ t.amount })
              (put t.from (record payer { reserved = payer.reserved -ℤ t.amount }) b.accounts);
        transfers = put id (record t { status = Status.completed }) b.transfers;
      }
      → Move b c
  cancel :
      (id : String) (t : Transfer) (a : Account)
      → b.transfers id ≡ some t
      → t.status ≡ Status.reserved
      → b.accounts t.from ≡ some a
      → c ≡ record {
        accounts =
            put t.from
              (record { available = a.available +ℤ t.amount; reserved = a.reserved -ℤ t.amount })
              b.accounts;
        transfers = put id (record t { status = Status.cancelled }) b.transfers;
      }
      → Move b c

-- Any number of steps.
pub data Moves (b : Bank) : Bank → Type 0 where
  none_made : Moves b b
  then_made : {c e : Bank} → Moves b c → Move c e → Moves b e

abbrev pub account : Option Wallet → Option Account
account none = none
account (some w) = some (record { available = w.balance; reserved = w.reserved })

abbrev pub transfer_of : Transaction → Transfer
transfer_of t = record {
  from = t.from_user_id;
  to = t.to_user_id;
  amount = t.amount;
  status = t.status;
}

abbrev pub transfer : Option Transaction → Option Transfer
transfer none = none
transfer (some t) = some (transfer_of t)

-- The bank that the tables stand for.
abbrev pub bank_of : Db → Bank
bank_of d = record {
  accounts = λ k. account (lookup k d.wallets);
  transfers = λ k. transfer (lookup k d.transactions);
}
