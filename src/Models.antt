-- ===== src/Models.antt =====
-- pkg/models/models.go: the domain records. A `time.Time` is the number of nanoseconds since Go's
-- zero time (year 1, UTC), so that the zero value is 0.
pub mod Dates
use delayed_wallet_transacti.Prelude.{ℕ, ◌+◌, ◌*◌, ◌/◌, String, Bool, true, false, Option, ◌==◌}
use delayed_wallet_transacti.Prelude.Int.{ℤ, sub_ℕ}

-- `TransactionStatus` is a Go string: `other` is any text but the five constants.
pub data Status : Type 0 where
  reserved working approved completed cancelled : Status
  other : String → Status

abbrev pub same_status : Status → Status → Bool
same_status Status.reserved Status.reserved = true
same_status Status.working Status.working = true
same_status Status.approved Status.approved = true
same_status Status.completed Status.completed = true
same_status Status.cancelled Status.cancelled = true
same_status (Status.other s) (Status.other t) = s == t
same_status _ _ = false

abbrev pub Instant : Type 0
Instant = ℕ

-- 24 hours in nanoseconds
abbrev pub day : ℕ
day = 24 * 60 * 60 * 1000000000

-- `t.Unix()`: whole seconds since 1970, which is 62135596800 seconds after Go's zero time.
abbrev pub unix : Instant → ℤ
unix t = sub_ℕ (t / 1000000000) 62135596800

-- `now.Add(24 * time.Hour).Unix()`
abbrev pub ttl_from : Instant → ℤ
ttl_from t = unix (t + day)

pub record Transaction : Type 0 where
  pub id : String
  pub from_user_id : String
  pub to_user_id : String
  pub amount : ℤ
  pub delay_seconds : Option ℤ
  pub status : Status
  pub created_at : Instant
  pub updated_at : Instant
  pub ttl : ℤ

pub record Wallet : Type 0 where
  pub user_id : String
  pub name : String
  pub balance : ℤ
  pub reserved : ℤ
  pub version : ℤ
  pub created_at : Instant
  pub ttl : ℤ

pub record LedgerEntry : Type 0 where
  pub entry_id : String
  pub transaction_id : String
  pub account_id : String
  pub debit : ℤ
  pub credit : ℤ
  pub description : String
  pub timestamp : Instant
  pub gsi1pk : String
