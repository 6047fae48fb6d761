-- ===== src/System/Calls.antt =====
-- Each call of the program keeps the world consistent, and an invariance.
use mathlib.Core.Path.{subst}
use delayed_wallet_transacti.Prelude.{String, ◌≡◌, sym, ap, inl, inr, List, ◌∷◌}
use delayed_wallet_transacti.Prelude.Int.{ℤ}
use delayed_wallet_transacti.Prelude.Table.{Table}
use delayed_wallet_transacti.Models.{Status, Instant, Transaction}
use delayed_wallet_transacti.Dynamo.{Db, Write, WebSocketConnection}
use delayed_wallet_transacti.Service.{
  World, Wrote, Transacted, Call, SentBody, commit, done, fault, write_item, transact_write_items,
  send_message,
}
use delayed_wallet_transacti.Service.Faults.{write_fault, transact_fault}
use delayed_wallet_transacti.Service.Free.{IsFree, free-Stays, send-Stays}
use delayed_wallet_transacti.Program.Shared.{Discipline, Sustains, Always}
use delayed_wallet_transacti.Api.{Json}
use delayed_wallet_transacti.Store.CreateTransaction.{creation}
use delayed_wallet_transacti.Store.CreateTransaction.Atomic.{creation-Created}
use delayed_wallet_transacti.Store.SettleTransaction.{lock, Settlement, settlement}
use delayed_wallet_transacti.Store.SettleTransaction.Effects.{lock-Locked, settlement-Settled}
use delayed_wallet_transacti.Store.CancelTransaction.{cancellation}
use delayed_wallet_transacti.Store.CancelTransaction.Outcome.{cancellation-Cancelled}
use delayed_wallet_transacti.Store.Guarded.{Observes}
use delayed_wallet_transacti.Transfers.Forward.{
  Advances, Advances-trans, forward_invariance, Created-Advances, Settled-Advances,
  Cancelled-Advances, Locked-Advances,
}
use delayed_wallet_transacti.System.{Keyed, Known, IsGenuine, Consistent, Invariance}
use delayed_wallet_transacti.System.Knowledge.{
  Created-Keyed, Settled-Keyed, Cancelled-Keyed, Locked-Keyed, commit-Consistent, stay-Consistent,
}

module _ (json : Json) {Fit : ℤ → Type 0} {R : Db → Db → Type 0} (i : Invariance Fit R) where
  -- Transactions advance, and the relation holds from the earlier tables to the later.
  abbrev pub discipline : Discipline
  discipline = record {
    Sound = Consistent json;
    Future = λ w v. Advances w.db v.db × R w.db v.db;
    same = λ w. (forward_invariance.same w.db, i.same w.db);
    after = λ u v w p q. (Advances-trans u.db v.db w.db p.0 q.0, i.after u.db v.db w.db p.1 q.1);
  }

  -- What a write that goes through has to show.
  abbrev Step : World → World → Type 0
  Step u v = Advances u.db v.db × Keyed v.db.transactions × R u.db v.db

  stays : (u v : World) → Consistent json u → v ≡ u → Consistent json v × discipline.Future u v
  stays u v c e =
      subst (λ z. Consistent json z × discipline.Future u z) (sym e) (c, discipline.same u)

  commits :
      (e : Db) (u v : World)
      → Consistent json u
      → v ≡ commit e u
      → Step u v
      → Consistent json v × discipline.Future u v
  commits e u v c wrote s = (commit-Consistent json u v c e wrote s.0 s.1, (s.0, s.2))

  write-Sustains :
      (x : Write) (u : World)
      → ((v : World) → Consistent json u → Wrote x u v → Step u v)
      → Sustains discipline (write_item x) u
  write-Sustains x u h (done o) v c a = commits _ u v c a.result (h v c a)
  write-Sustains x u h (fault e) v c a = elim (write_fault x e u v a) [
    | inl same ↦ stays u v c same
    | inr t ↦ commits _ u v c t.result (h v c t)
  ]

  transact-Sustains :
      (xs : List Write) (u : World)
      → ((v : World) → Consistent json u → Transacted xs u v → Step u v)
      → Sustains discipline (transact_write_items xs) u
  transact-Sustains xs u h (done o) v c a = commits _ u v c a.result (h v c a)
  transact-Sustains xs u h (fault e) v c a = elim (transact_fault xs e u v a) [
    | inl same ↦ stays u v c same
    | inr t ↦ commits _ u v c t.result (h v c t)
  ]

  pub creation-Sustains :
      (tx : Transaction) (ver t : ℤ) (u : World)
      → tx.status ≡ Status.reserved
      → Fit tx.amount
      → Sustains discipline (transact_write_items (creation tx ver t)) u
  creation-Sustains tx ver t u reserved fit = transact-Sustains _ u λ v c h.
      let x = creation-Created tx ver t reserved u v h in
      (
        Created-Advances tx u.db v.db x,
        Created-Keyed tx u.db v.db c.keyed x,
        i.created tx u.db v.db fit x,
      )

  pub lock-Always : (k : String) → Always discipline (write_item (lock k))
  lock-Always k u = write-Sustains _ u λ v c h.
      let x = lock-Locked k u v h in
      (Locked-Advances k u.db v.db x, Locked-Keyed k u.db v.db c.keyed x, i.locked k u.db v.db x)

  pub settlement-Sustains :
      (tx : Transaction) (p : Settlement) (u : World)
      → Known tx u.db
      → Sustains discipline (transact_write_items (settlement tx p)) u
  settlement-Sustains tx p u known = transact-Sustains _ u λ v c h.
      let x = settlement-Settled tx p u v h in
      (
        Settled-Advances tx u.db v.db x,
        Settled-Keyed tx u.db v.db c.keyed x,
        i.settled tx u.db v.db known x,
      )

  pub cancellation-Sustains :
      (tx : Transaction) (ver : ℤ) (now : Instant) (u : World)
      → Known tx u.db
      → Sustains discipline (transact_write_items (cancellation tx ver now)) u
  cancellation-Sustains tx ver now u known = transact-Sustains _ u λ v c h.
      let x = cancellation-Cancelled tx ver now u v h in
      (
        Cancelled-Advances tx u.db v.db x,
        Cancelled-Keyed tx u.db v.db c.keyed x,
        i.cancelled tx u.db v.db known x,
      )

  -- What a call leaves behind that does not write to the tables.
  quiet_step :
      (u v : World)
      → Consistent json u
      → v.db ≡ u.db
      → v.past ≡ u.past
      → ((body : String) → SentBody body v.sent → IsGenuine json u.db body)
      → Consistent json v × discipline.Future u v
  quiet_step u v c db past genuine = (
    stay-Consistent json u v c db past genuine,
    subst (λ d. Advances u.db d × R u.db d) (sym db) (discipline.same u),
  )

  pub free-Always : (c : Call) → IsFree c → Always discipline c
  free-Always call free u r v c a =
      let (db, past, sent) = free-Stays call free r u v a in
      quiet_step u v c db past (λ body m. c.genuine body (subst (SentBody body) sent m))

  -- A message may be sent if it is for a stored transfer.
  pub send-Sustains :
      (q b : String) (n : ℤ) (u : World)
      → IsGenuine json u.db b
      → Sustains discipline (send_message q b n) u
  send-Sustains q b n u genuine r v c a = elim (send-Stays q b n r u v a) [
    | inl same ↦ stays u v c same
    | inr next ↦
        quiet_step u v c (ap World.db next) (ap World.past next)
          (λ body m. sent body (subst (SentBody body) (ap World.sent next) m))
  ]
    where
      sent : (body : String) → SentBody body ((q, b, n) ∷ u.sent) → IsGenuine json u.db body
      sent body (inl same) = subst (IsGenuine json u.db) (sym same) genuine
      sent body (inr earlier) = c.genuine body earlier

  connection-Step :
      (u v : World) (cs : Table WebSocketConnection)
      → Consistent json u
      → v.db ≡ record u.db { connections = cs }
      → Step u v
  connection-Step u v cs c e =
      subst (λ d. Advances u.db d × Keyed d.transactions × R u.db d) (sym e)
        (forward_invariance.connected u.db cs, c.keyed, i.connected u.db cs)

  pub observes : Observes (Always discipline)
  observes = record {
    free = λ c f _. free-Always c f;
    connects =
        λ k pk t u. write-Sustains _ u λ v c h. connection-Step u v _ c (ap World.db h.result);
    disconnects = λ k u. write-Sustains _ u λ v c h. connection-Step u v _ c (ap World.db h.result);
  }
