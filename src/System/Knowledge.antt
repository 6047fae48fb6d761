-- ===== src/System/Knowledge.antt =====
-- What is known of a stored transfer stays true, and each write keeps the world consistent.
use mathlib.Core.Path.{subst}
use delayed_wallet_transacti.Prelude.{
  String, ◌≡◌, refl, sym, ap, ◌∙◌, inl, inr, some, List, [], ◌∷◌, All, eq_iff, arith,
}
use delayed_wallet_transacti.Prelude.Table.{Table, lookup, insert, lookup-insert}
use delayed_wallet_transacti.Models.{Transaction}
use delayed_wallet_transacti.Dynamo.{Db}
use delayed_wallet_transacti.Service.{World, Seen, Among, commit, SentBody}
use delayed_wallet_transacti.Api.{Json}
use delayed_wallet_transacti.Store.CreateTransaction.Atomic.{Created}
use delayed_wallet_transacti.Store.SettleTransaction.Effects.{Locked, Settled}
use delayed_wallet_transacti.Store.CancelTransaction.Outcome.{Cancelled}
use delayed_wallet_transacti.Transfers.Forward.{Advances, Advances-trans, Later-refl}
use delayed_wallet_transacti.System.{Keyed, Known, IsGenuine, Consistent}

-- What is stored under the id is the known transfer.
pub Known-stored :
    (tx : Transaction) (d : Db)
    → Known tx d
    → (u : Transaction) → lookup tx.id d.transactions ≡ some u
    → (u.from_user_id ≡ tx.from_user_id) × (u.to_user_id ≡ tx.to_user_id) × (u.amount ≡ tx.amount)
Known-stored tx d k u found =
    let same : k.stored ≡ u = cc in
    subst
      (λ (x : Transaction).
        (x.from_user_id ≡ tx.from_user_id)
        × (x.to_user_id ≡ tx.to_user_id)
        × (x.amount ≡ tx.amount))
      same (k.same_from, k.same_to, k.same_amount)

pub Known-later : (tx : Transaction) (d e : Db) → Advances d e → Known tx d → Known tx e
Known-later tx d e a k =
    let (u, found, l) = a.at tx.id k.stored k.found in
    record {
      stored = u;
      found = found;
      same_from = l.same_from ∙ k.same_from;
      same_to = l.same_to ∙ k.same_to;
      same_amount = l.same_amount ∙ k.same_amount;
    }

pub IsGenuine-later :
    (json : Json) (d e : Db) (body : String)
    → Advances d e
    → IsGenuine json d body
    → IsGenuine json e body
IsGenuine-later json d e body a g x h = Known-later x d e a (g x h)

-- What was seen is still there, in a later version.
Among-Advances : (d e : Db) (ds : List Db) → All (λ c. Advances c e) ds → Among d ds → Advances d e
Among-Advances d e [] h m = elim m [ ]
Among-Advances d e (c ∷ ds) h (inl same) = subst (λ x. Advances x e) (sym same) h.0
Among-Advances d e (c ∷ ds) h (inr m) = Among-Advances d e ds h.1 m

Advances-refl : (d : Db) → Advances d d
Advances-refl d = record { at = λ k t found. (t, found, Later-refl t) }

module _ {json : Json} (d : Db) (w : World) (c : Consistent json w) where
  Seen-Advances : Seen d w → Advances d w.db
  Seen-Advances (inl same) = subst (λ x. Advances x w.db) (sym same) (Advances-refl w.db)
  Seen-Advances (inr m) = Among-Advances d w.db w.past c.earlier m

  -- A transaction that was read, from a version of the table however old, is stored.
  pub Seen-Known :
      (k : String) (tx : Transaction)
      → Seen d w
      → lookup k d.transactions ≡ some tx
      → Known tx w.db × (tx.id ≡ k)
  Seen-Known k tx seen e =
      let (u, found, l) = (Seen-Advances seen).at k tx e in
      let id : tx.id ≡ k = sym l.same_id ∙ c.keyed.at k u found in
      (
        record {
          stored = u;
          found = subst (λ i. lookup i w.db.transactions ≡ some u) (sym id) found;
          same_from = l.same_from;
          same_to = l.same_to;
          same_amount = l.same_amount;
        },
        id,
      )

at-insert :
    (t : Table Transaction) (j k : String) (v x : Transaction)
    → Keyed t
    → v.id ≡ j
    → lookup k (insert j v t) ≡ some x
    → x.id ≡ k
at-insert t j k v x h e found = ground (arith, lookup-insert j k v t, eq_iff j k, h.at k x)

insert-Keyed :
    (t : Table Transaction) (j : String) (v : Transaction)
    → Keyed t
    → v.id ≡ j
    → Keyed (insert j v t)
insert-Keyed t j v h e = record { at = λ k x. at-insert t j k v x h e }

module _ (tx : Transaction) (d e : Db) (h : Keyed d.transactions) where
  pub Created-Keyed : Created tx d e → Keyed e.transactions
  Created-Keyed c = subst Keyed (sym (ap Db.transactions c.result)) (insert-Keyed _ tx.id tx h refl)

  pub Settled-Keyed : Settled tx d e → Keyed e.transactions
  Settled-Keyed c =
      subst Keyed (sym (ap Db.transactions c.result))
        (insert-Keyed _ tx.id _ h (h.at tx.id c.stored c.stored_found))

  pub Cancelled-Keyed : Cancelled tx d e → Keyed e.transactions
  Cancelled-Keyed c =
      subst Keyed (sym (ap Db.transactions c.result))
        (insert-Keyed _ tx.id _ h (h.at tx.id c.stored c.stored_found))

pub Locked-Keyed :
    (k : String) (d e : Db) → Keyed d.transactions → Locked k d e → Keyed e.transactions
Locked-Keyed k d e h l =
    subst Keyed (sym (ap Db.transactions l.result)) (insert-Keyed _ k _ h (h.at k l.stored l.found))

earlier_later :
    (d e : Db) (ds : List Db)
    → Advances d e
    → All (λ c. Advances c d) ds
    → All (λ c. Advances c e) ds
earlier_later d e [] a h = tt
earlier_later d e (c ∷ ds) a h = (Advances-trans c d e h.0 a, earlier_later d e ds a h.1)

module _ (json : Json) (w v : World) (c : Consistent json w) where
  IsGenuine-unsent :
      Advances w.db v.db
      → v.sent ≡ w.sent
      → (body : String) → SentBody body v.sent
      → IsGenuine json v.db body
  IsGenuine-unsent a sent body m =
      IsGenuine-later json w.db v.db body a (c.genuine body (subst (SentBody body) sent m))

  -- A write that goes through.
  pub commit-Consistent :
      (e : Db) → v ≡ commit e w → Advances w.db v.db → Keyed v.db.transactions → Consistent json v
  commit-Consistent e done a keyed = record {
    keyed = keyed;
    earlier =
        subst (All (λ d. Advances d v.db)) (sym (ap World.past done))
          (a, earlier_later w.db v.db w.past a c.earlier);
    genuine = IsGenuine-unsent a (ap World.sent done);
  }

  -- A call that leaves the tables alone, and sends no message.
  pub stay-Consistent :
      v.db ≡ w.db
      → v.past ≡ w.past
      → ((body : String) → SentBody body v.sent → IsGenuine json w.db body)
      → Consistent json v
  stay-Consistent db past genuine = record {
    keyed = subst (λ d. Keyed d.transactions) (sym db) c.keyed;
    earlier =
        subst (λ ds. All (λ d. Advances d v.db) ds) (sym past)
          (subst (λ e. All (λ d. Advances d e) w.past) (sym db) c.earlier);
    genuine = λ body m. subst (λ d. IsGenuine json d body) (sym db) (genuine body m);
  }
