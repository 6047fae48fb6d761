-- ===== src/Transfers/Rules.antt =====
-- A relation on tables that each of the four writes keeps to holds across any schedule.
use delayed_wallet_transacti.Prelude.{ℕ, String, ◌≡◌, sym, inl, inr, List, [], ◌∷◌, All, map}
use mathlib.Core.Path.{subst}
use delayed_wallet_transacti.Prelude.Int.{ℤ}
use delayed_wallet_transacti.Prelude.Table.{Table}
use delayed_wallet_transacti.Models.{Status, Instant, Transaction}
use delayed_wallet_transacti.Dynamo.{
  Db, Write, WebSocketConnection, update_connection, delete_connection,
}
use delayed_wallet_transacti.Service.{
  Service, Call, World, Wrote, Transacted, done, fault, write_item, transact_write_items, new_uuid,
  send_message,
}
use delayed_wallet_transacti.Service.Free.{IsFree, free-Stays, send-Stays}
use delayed_wallet_transacti.Service.Faults.{write_fault, transact_fault}
use delayed_wallet_transacti.Program.Issues.{Issues}
use delayed_wallet_transacti.Program.Schedule.{Guarantee, Keeps, interleave-Rel}
use delayed_wallet_transacti.Store.CreateTransaction.{creation}
use delayed_wallet_transacti.Store.CreateTransaction.Atomic.{Created, creation-Created}
use delayed_wallet_transacti.Store.SettleTransaction.{lock, Settlement, settlement}
use delayed_wallet_transacti.Store.SettleTransaction.Effects.{
  Locked, lock-Locked, Settled, settlement-Settled,
}
use delayed_wallet_transacti.Store.CancelTransaction.{cancellation}
use delayed_wallet_transacti.Store.CancelTransaction.Outcome.{Cancelled, cancellation-Cancelled}
use delayed_wallet_transacti.Store.Guarded.{Admits}
use delayed_wallet_transacti.Api.{Environment}
use delayed_wallet_transacti.Transfers.{Task, task_program, transfers}
use delayed_wallet_transacti.Transfers.Processes.{task-Issues}

module _ (g : Guarantee) where
  stays-Rel : (w v : World) → v ≡ w → g.Rel w v
  stays-Rel w v e = subst (g.Rel w) (sym e) (g.same w)

  pub write-Keeps : (x : Write) → ((w v : World) → Wrote x w v → g.Rel w v) → Keeps g (write_item x)
  write-Keeps x h (done o) w v a = h w v a
  write-Keeps x h (fault e) w v a = elim (write_fault x e w v a) [
    | inl same ↦ stays-Rel w v same
    | inr t ↦ h w v t
  ]

  transact-Keeps :
      (xs : List Write)
      → ((w v : World) → Transacted xs w v → g.Rel w v)
      → Keeps g (transact_write_items xs)
  transact-Keeps xs h (done o) w v a = h w v a
  transact-Keeps xs h (fault e) w v a = elim (transact_fault xs e w v a) [
    | inl same ↦ stays-Rel w v same
    | inr t ↦ h w v t
  ]

-- What is to be shown of a relation on the tables.
pub record Invariance (R : Db → Db → Type 0) : Type 0 where
  pub same : (d : Db) → R d d
  pub after : (c d e : Db) → R c d → R d e → R c e
  pub created : (tx : Transaction) (d e : Db) → Created tx d e → R d e
  pub locked : (k : String) (d e : Db) → Locked k d e → R d e
  pub settled : (tx : Transaction) (d e : Db) → Settled tx d e → R d e
  pub cancelled : (tx : Transaction) (d e : Db) → Cancelled tx d e → R d e
  pub connected : (d : Db) (cs : Table WebSocketConnection) → R d (record d { connections = cs })

module _ (R : Db → Db → Type 0) (i : Invariance R) where
  abbrev guarantee : Guarantee
  guarantee = record {
    Rel = λ w v. R w.db v.db;
    same = λ w. i.same w.db;
    after = λ u v w. i.after u.db v.db w.db;
  }

  creation-Keeps :
      (tx : Transaction) (v t : ℤ)
      → tx.status ≡ Status.reserved
      → Keeps guarantee (transact_write_items (creation tx v t))
  creation-Keeps tx v t reserved =
      transact-Keeps guarantee _ λ w u h. i.created tx _ _ (creation-Created tx v t reserved w u h)

  lock-Keeps : (k : String) → Keeps guarantee (write_item (lock k))
  lock-Keeps k = write-Keeps guarantee _ λ w u h. i.locked k _ _ (lock-Locked k w u h)

  settlement-Keeps :
      (tx : Transaction) (p : Settlement) → Keeps guarantee (transact_write_items (settlement tx p))
  settlement-Keeps tx p =
      transact-Keeps guarantee _ λ w u h. i.settled tx _ _ (settlement-Settled tx p w u h)

  cancellation-Keeps :
      (tx : Transaction) (v : ℤ) (now : Instant)
      → Keeps guarantee (transact_write_items (cancellation tx v now))
  cancellation-Keeps tx v now =
      transact-Keeps guarantee _ λ w u h. i.cancelled tx _ _ (cancellation-Cancelled tx v now w u h)

  update_connection-Keeps :
      (k pk : String) (t : ℤ) → Keeps guarantee (write_item (update_connection k pk t))
  update_connection-Keeps k pk t =
      write-Keeps guarantee _ λ w u h. subst (λ v. R w.db v.db) (sym h.result) (i.connected w.db _)

  delete_connection-Keeps : (k : String) → Keeps guarantee (write_item (delete_connection k))
  delete_connection-Keeps k =
      write-Keeps guarantee _ λ w u h. subst (λ v. R w.db v.db) (sym h.result) (i.connected w.db _)

  free-Keeps : (c : Call) → IsFree c → Keeps guarantee c
  free-Keeps c free r w v a = subst (R w.db) (sym (free-Stays c free r w v a).0) (i.same w.db)

  send-Keeps : (q b : String) (n : ℤ) → Keeps guarantee (send_message q b n)
  send-Keeps q b n r w v a = elim (send-Stays q b n r w v a) [
    | inl same ↦ stays-Rel guarantee w v same
    | inr next ↦ subst (λ u. R w.db u.db) (sym next) (i.same w.db)
  ]

  admits : Admits (Keeps guarantee)
  admits = record {
    sending = record {
      observes = record {
        free = λ c f _. free-Keeps c f;
        connects = update_connection-Keeps;
        disconnects = delete_connection-Keeps;
      };
      sends = send-Keeps;
    };
    numbers = free-Keeps new_uuid tt;
    creates = creation-Keeps;
    locks = lock-Keeps;
    settles = settlement-Keeps;
    cancels = cancellation-Keeps;
  }

  tasks-Issues :
      (env : Environment) (ts : List Task)
      → All (λ p. Issues (Keeps guarantee) p) (map (task_program env) ts)
  tasks-Issues env [] = tt
  tasks-Issues env (t ∷ ts) = (task-Issues admits env t, tasks-Issues env ts)

  pub transfers-Rel :
      (svc : Service) (env : Environment) (schedule : List ℕ) (tasks : List Task) (s : svc.State)
      → R (svc.world s).db (transfers svc env schedule tasks s)
  unfolding transfers
  transfers-Rel svc env schedule tasks s =
      interleave-Rel svc guarantee schedule _ s (tasks-Issues env tasks)
