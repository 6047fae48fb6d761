-- ===== src/Store/SettleTransaction/Late.antt =====
-- Settlements of transactions that are not RESERVED.
use delayed_wallet_transacti.Prelude.{◌≡◌, ◌≢◌, inl, inr, Bool, true, false}
use delayed_wallet_transacti.Models.{Transaction}
use delayed_wallet_transacti.Dynamo.{Db}
use delayed_wallet_transacti.Service.{World}
use delayed_wallet_transacti.Program.{Result, ok, err}
use delayed_wallet_transacti.Store.SettleTransaction.Effects.{Locked}
use delayed_wallet_transacti.Store.SettleTransaction.Outcome.{NotReserved, SettleOutcome}

NotReserved-Locked : (x : Transaction) (d e : Db) → NotReserved x.id d → Locked x.id d e → ⊥
NotReserved-Locked x d e late l = late l.stored l.found l.was_reserved

pub SettleOutcome-late :
    (x : Transaction) (d : Db) (r : Result Bool) (v : World)
    → NotReserved x.id d
    → SettleOutcome x d r v
    → (v.db ≡ d) × (r ≢ ok true)
SettleOutcome-late x d (ok true) v late h =
    elim (NotReserved-Locked x d h.between late h.locked) [ ]
SettleOutcome-late x d (ok false) v late h = (h.0, λ q. cc)
SettleOutcome-late x d (err e) v late (inl same) = (same, λ q. cc)
SettleOutcome-late x d (err e) v late (inr (inl l)) = elim (NotReserved-Locked x d v.db late l) [ ]
SettleOutcome-late x d (err e) v late (inr (inr h)) =
    elim (NotReserved-Locked x d h.between late h.locked) [ ]
