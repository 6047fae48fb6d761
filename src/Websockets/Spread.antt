-- ===== src/Websockets/Spread.antt =====
-- What pushing to connections, and removing those that are gone, leaves of the world.
use mathlib.Core.Path.{subst}
use delayed_wallet_transacti.Prelude.{
  String, ◌≡◌, refl, sym, ap, ◌∙◌, ◌⊎◌, inl, inr, some, List, [], ◌∷◌, arith,
}
use delayed_wallet_transacti.Prelude.Table.{Table, lookup, erase, lookup-erase}
use delayed_wallet_transacti.Errors.{
  gone_exception, conditional_check_failed_exception, transaction_canceled_exception, other_fault,
}
use delayed_wallet_transacti.Dynamo.{Db, WebSocketConnection, delete_connection}
use delayed_wallet_transacti.Service.{
  World, Seen, Outcome, done, fault, Wrote, Answers, Connected, post_to_connection, WriteAnswers,
}
use delayed_wallet_transacti.Service.Faults.{write_fault}

-- A payload that was pushed to a connection.
abbrev pub PushedTo : String × String → List (String × String) → Type 0
PushedTo m [] = ⊥
PushedTo m (x ∷ xs) = (m ≡ x) ⊎ PushedTo m xs

-- Only the table of connections may have changed, and no connection is new or different in it; what
-- was pushed is the payload, to connections of the table as it stood or as it stood earlier.
pub record Spread (payload : String) (w u v : World) : Type 0 where
  pub tables : v.db ≡ record u.db { connections = v.db.connections }
  pub kept :
      (k : String) (c : WebSocketConnection)
      → lookup k v.db.connections ≡ some c
      → lookup k u.db.connections ≡ some c
  pub pushed :
      (k p : String)
      → PushedTo (k, p) v.pushed
      → PushedTo (k, p) u.pushed ⊎ ((p ≡ payload) × (d : Db) × Seen d w × Connected k d)

erase_kept :
    {V : Type 0} (k j : String) (c : V) (t : Table V)
    → lookup j (erase k t) ≡ some c
    → lookup j t ≡ some c
erase_kept k j c t h = ground (arith, lookup-erase k j t)

module _ (payload : String) (w : World) where
  pub Spread-same : (u v : World) → v ≡ u → Spread payload w u v
  Spread-same u v e =
      subst (Spread payload w u) (sym e)
        (record { tables = refl; kept = λ k c h. h; pushed = λ k p h. inl h })

  pub Spread-trans :
      (t u v : World) → Spread payload w t u → Spread payload w u v → Spread payload w t v
  Spread-trans t u v a b = record {
    tables = b.tables ∙ ap (λ (d : Db). record d { connections = v.db.connections }) a.tables;
    kept = λ k c h. a.kept k c (b.kept k c h);
    pushed =
        λ k p h. elim (b.pushed k p h) [ inl earlier ↦ a.pushed k p earlier | inr now ↦ inr now ];
  }

  -- A connection has been removed.
  removed : (k : String) (u v : World) → Wrote (delete_connection k) u v → Spread payload w u v
  removed k u v h = subst (Spread payload w u) (sym h.result) (record {
    tables = refl;
    kept = λ j c found. erase_kept k j c u.db.connections found;
    pushed = λ j p m. inl m;
  })

  -- The payload has been pushed to a connection.
  posted :
      (k : String) (u v : World) (d : Db)
      → Seen d w
      → Connected k d
      → v ≡ record u { pushed = (k, payload) ∷ u.pushed }
      → Spread payload w u v
  posted k u v d seen known e =
      subst (Spread payload w u) (sym e)
        (record { tables = refl; kept = λ j c h. h; pushed = new_push })
    where
      new_push :
          (j p : String)
          → PushedTo (j, p) ((k, payload) ∷ u.pushed)
          → PushedTo (j, p) u.pushed ⊎ ((p ≡ payload) × (d : Db) × Seen d w × Connected j d)
      new_push j p (inl same) =
          inr (
            ap (λ m. m.1) same,
            d,
            seen,
            subst (λ i. Connected i d) (ap (λ m. m.0) (sym same)) known,
          )
      new_push j p (inr m) = inl m

  pub post-Spread :
      (k : String) (d : Db)
      → Seen d w
      → Connected k d
      → (r : Outcome (Unit {0})) (u v : World) → Answers (post_to_connection k payload) r u v
      → Spread payload w u v
  post-Spread k d seen known (done _) u v a = posted k u v d seen known a
  post-Spread k d seen known (fault gone_exception) u v a = Spread-same u v a
  post-Spread k d seen known (fault conditional_check_failed_exception) u v a = elim a [
    | inl same ↦ Spread-same u v same
    | inr next ↦ posted k u v d seen known next
  ]
  post-Spread k d seen known (fault (transaction_canceled_exception _)) u v a = elim a [
    | inl same ↦ Spread-same u v same
    | inr next ↦ posted k u v d seen known next
  ]
  post-Spread k d seen known (fault (other_fault _)) u v a = elim a [
    | inl same ↦ Spread-same u v same
    | inr next ↦ posted k u v d seen known next
  ]

  pub delete-Spread :
      (k : String) (r : Outcome (Unit {0})) (u v : World)
      → WriteAnswers (delete_connection k) r u v
      → Spread payload w u v
  delete-Spread k (done _) u v a = removed k u v a
  delete-Spread k (fault e) u v a = elim (write_fault (delete_connection k) e u v a) [
    | inl same ↦ Spread-same u v same
    | inr wrote ↦ removed k u v wrote
  ]
