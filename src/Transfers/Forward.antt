-- ===== src/Transfers/Forward.antt =====
-- The state machine of a transaction: RESERVED, then WORKING and COMPLETED, or CANCELLED.
use mathlib.Core.Path.{subst}
use delayed_wallet_transacti.Prelude.{
  ℕ, String, ◌≡◌, refl, sym, ◌∙◌, ap, inl, inr, none, some, List, Bool-cases, ◌==◌, eq_iff,
}
use delayed_wallet_transacti.Prelude.Table.{Table, lookup, insert, lookup-insert, lookup-insert_ne}
use delayed_wallet_transacti.Models.{Status, Instant, Transaction}
use delayed_wallet_transacti.Dynamo.{Db}
use delayed_wallet_transacti.Service.{Service}
use delayed_wallet_transacti.Api.{Environment}
use delayed_wallet_transacti.Store.CreateTransaction.Atomic.{Created}
use delayed_wallet_transacti.Store.SettleTransaction.Effects.{Locked, Settled}
use delayed_wallet_transacti.Store.CancelTransaction.Outcome.{Cancelled}
use delayed_wallet_transacti.Transfers.{Task, transfers}
use delayed_wallet_transacti.Transfers.Rules.{Invariance, transfers-Rel}

-- The ways for a status to go on.
pub data Forward (s t : Status) : Type 0 where
  stay : t ≡ s → Forward s t
  start : s ≡ Status.reserved → t ≡ Status.working → Forward s t
  finish : s ≡ Status.working → t ≡ Status.completed → Forward s t
  settle : s ≡ Status.reserved → t ≡ Status.completed → Forward s t
  cancel : s ≡ Status.reserved → t ≡ Status.cancelled → Forward s t

pub Forward-trans : {s t u : Status} → Forward s t → Forward t u → Forward s u
Forward-trans (stay p) (stay q) = stay (q ∙ p)
Forward-trans (stay p) (start q r) = start (sym p ∙ q) r
Forward-trans (stay p) (finish q r) = finish (sym p ∙ q) r
Forward-trans (stay p) (settle q r) = settle (sym p ∙ q) r
Forward-trans (stay p) (cancel q r) = cancel (sym p ∙ q) r
Forward-trans (start p q) (stay r) = start p (r ∙ q)
Forward-trans (start p q) (finish r x) = settle p x
Forward-trans (start p q) (start r x) = cc
Forward-trans (start p q) (settle r x) = cc
Forward-trans (start p q) (cancel r x) = cc
Forward-trans (finish p q) (stay r) = finish p (r ∙ q)
Forward-trans (finish p q) (start r x) = cc
Forward-trans (finish p q) (finish r x) = cc
Forward-trans (finish p q) (settle r x) = cc
Forward-trans (finish p q) (cancel r x) = cc
Forward-trans (settle p q) (stay r) = settle p (r ∙ q)
Forward-trans (settle p q) (start r x) = cc
Forward-trans (settle p q) (finish r x) = cc
Forward-trans (settle p q) (settle r x) = cc
Forward-trans (settle p q) (cancel r x) = cc
Forward-trans (cancel p q) (stay r) = cancel p (r ∙ q)
Forward-trans (cancel p q) (start r x) = cc
Forward-trans (cancel p q) (finish r x) = cc
Forward-trans (cancel p q) (settle r x) = cc
Forward-trans (cancel p q) (cancel r x) = cc

-- The same transfer at a later time.
pub record Later (t u : Transaction) : Type 0 where
  pub same_id : u.id ≡ t.id
  pub same_from : u.from_user_id ≡ t.from_user_id
  pub same_to : u.to_user_id ≡ t.to_user_id
  pub same_amount : u.amount ≡ t.amount
  pub forward : Forward t.status u.status

-- No transaction is lost, and each that was stored is the same transfer, at a later status.
pub record Advances (d e : Db) : Type 0 where
  pub at :
      (k : String) (t : Transaction)
      → lookup k d.transactions ≡ some t
      → (u : Transaction) × (lookup k e.transactions ≡ some u) × Later t u

pub Later-refl : (t : Transaction) → Later t t
Later-refl t = record {
  same_id = refl;
  same_from = refl;
  same_to = refl;
  same_amount = refl;
  forward = stay refl;
}

Later-status :
    (t : Transaction) (s : Status) (at : Instant)
    → Forward t.status s
    → Later t (record t { status = s; updated_at = at })
Later-status t s at f = record {
  same_id = refl;
  same_from = refl;
  same_to = refl;
  same_amount = refl;
  forward = f;
}

Later-trans : {t u v : Transaction} → Later t u → Later u v → Later t v
Later-trans l m = record {
  same_id = m.same_id ∙ l.same_id;
  same_from = m.same_from ∙ l.same_from;
  same_to = m.same_to ∙ l.same_to;
  same_amount = m.same_amount ∙ l.same_amount;
  forward = Forward-trans l.forward m.forward;
}

module _ (t : Table Transaction) (j : String) (v : Transaction) where
  Later-same :
      (stored : Transaction) (k : String) (x : Transaction)
      → Later stored v
      → stored ≡ x
      → Later x v
  Later-same stored k x l same = subst (λ y. Later y v) same l

  -- One stored transaction is replaced by a later version of it.
  insert-Later :
      (stored : Transaction)
      → lookup j t ≡ some stored
      → Later stored v
      → (k : String) (x : Transaction) → lookup k t ≡ some x
      → (u : Transaction) × (lookup k (insert j v t) ≡ some u) × Later x u
  insert-Later stored e l k x h = elim (Bool-cases (j == k)) [
    | inl same ↦
        (v, rw (lookup-insert, same), Later-same stored k x l (cc (e, h, (eq_iff j k).0 same)))
    | inr other ↦ (x, rw (lookup-insert, other) h, Later-refl x)
  ]

  -- A transaction is added under a new key.
  insert_new-Later :
      lookup j t ≡ none
      → (k : String) (x : Transaction) → lookup k t ≡ some x
      → (u : Transaction) × (lookup k (insert j v t) ≡ some u) × Later x u
  insert_new-Later e k x h =
      (x, lookup-insert_ne j k v t (λ same. cc (e, h, same)) ∙ h, Later-refl x)

module _ {d e : Db} where
  -- The tables of `e` are those of `d` but for one write among the transactions.
  Advances-by :
      (ts : Table Transaction)
      → e.transactions ≡ ts
      → ((k : String) (t : Transaction)
          → lookup k d.transactions ≡ some t
          → (u : Transaction) × (lookup k ts ≡ some u) × Later t u)
      → Advances d e
  Advances-by ts same h = record { at = λ k t found. rw same (h k t found) }

module _ (tx : Transaction) (d e : Db) where
  pub Created-Advances : Created tx d e → Advances d e
  Created-Advances c =
      Advances-by _ (ap (λ (x : Db). x.transactions) c.result)
        (insert_new-Later d.transactions tx.id tx c.unused)

  pub Settled-Advances : Settled tx d e → Advances d e
  Settled-Advances c = Advances-by _ (ap (λ (x : Db). x.transactions) c.result) (
      insert-Later d.transactions tx.id
        (record c.stored { status = Status.completed; updated_at = c.p.now }) c.stored
        c.stored_found (Later-status c.stored _ _ (finish c.was_working refl)))

  pub Cancelled-Advances : Cancelled tx d e → Advances d e
  Cancelled-Advances c = Advances-by _ (ap (λ (x : Db). x.transactions) c.result) (
      insert-Later d.transactions tx.id
        (record c.stored { status = Status.cancelled; updated_at = c.now }) c.stored c.stored_found
        (Later-status c.stored _ _ (cancel c.was_reserved refl)))

pub Locked-Advances : (k : String) (d e : Db) → Locked k d e → Advances d e
Locked-Advances k d e l = Advances-by _ (ap (λ (x : Db). x.transactions) l.result) (
    insert-Later d.transactions k (record l.stored { status = Status.working }) l.stored l.found
      (Later-status l.stored _ l.stored.updated_at (start l.was_reserved refl)))

pub Advances-trans : (c d e : Db) → Advances c d → Advances d e → Advances c e
Advances-trans c d e p q = record {
  at = λ k t found.
      let (u, found', l) = p.at k t found in
      let (v, found'', m) = q.at k u found' in (v, found'', Later-trans l m);
}

pub forward_invariance : Invariance Advances
forward_invariance = record {
  same = λ d. record { at = λ k t found. (t, found, Later-refl t) };
  after = Advances-trans;
  created = Created-Advances;
  locked = Locked-Advances;
  settled = Settled-Advances;
  cancelled = Cancelled-Advances;
  connected = λ d cs. record { at = λ k t found. (t, found, Later-refl t) };
}

-- Across any interleaving of requests (CreateWallet and DeleteWallet aside), WebSocket events and
-- lambda runs no transaction is lost, its parties and its amount stay, and
-- its status only goes forward: RESERVED to WORKING, COMPLETED or CANCELLED, WORKING to COMPLETED.
pub transfers-Advances :
    (svc : Service) (env : Environment) (schedule : List ℕ) (tasks : List Task) (s : svc.State)
    → Advances (svc.world s).db (transfers svc env schedule tasks s)
transfers-Advances = transfers-Rel Advances forward_invariance
