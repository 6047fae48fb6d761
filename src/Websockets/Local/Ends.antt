-- ===== src/Websockets/Local/Ends.antt =====
-- The local WebSocket handler ends with its client, and leaves no connection behind.
use mathlib.Core.Path.{subst}
use delayed_wallet_transacti.Prelude.{
  ℕ, zero, suc, ◌+◌, ◌<◌, String, ◌≡◌, refl, sym, ap, ◌∙◌, ◌≢◌, Option, none, some, List, ◌∷◌,
  arith, eq_iff,
}
use delayed_wallet_transacti.Prelude.Int.{ℤ}
use delayed_wallet_transacti.Prelude.Table.{
  lookup, insert, erase, lookup-erase, lookup-insert, Table,
}
use delayed_wallet_transacti.Dynamo.{Db, update_connection, delete_connection}
use delayed_wallet_transacti.Errors.{Error}
use delayed_wallet_transacti.Service.{World, Service, Wrote, time_now}
use delayed_wallet_transacti.Service.Reliable.{Reliable}
use delayed_wallet_transacti.Program.{Result, ok, err}
use delayed_wallet_transacti.Program.Succeeds.{
  Succeeds, Succeeds-pure, Succeeds-require, Succeeds-checked, Succeeds-attempt,
}
use delayed_wallet_transacti.Api.{Environment}
use delayed_wallet_transacti.Store.Connections.{add_connection, remove_connection}
use delayed_wallet_transacti.Store.Reliable.{
  IsTotal, Stands, Succeeds-asks, Succeeds-uuid, Succeeds-write,
}
use delayed_wallet_transacti.Handlers.Transactions.Scheduling.{SameFunds}
use delayed_wallet_transacti.Websockets.Local.{
  Client, disconnected, next_read, wait, after_wait, after_add, serve_http,
}

next_read-some :
    (r : Result String) (rest : Option Error) (f : Error)
    → rest ≡ some f
    → (g : Error) × (next_read r rest ≡ some g)
next_read-some (ok message) rest f h = (f, h)
next_read-some (err e) rest f h = (e, refl)

-- A read that fails is reached, given the fuel for the reads before it.
wait-ends :
    (read : ℕ → Result String) (fuel i n : ℕ) (e : Error)
    → read (i + n) ≡ err e
    → n < fuel
    → (f : Error) × (wait read fuel i ≡ some f)
unfolding wait
wait-ends read zero i n e h l = elim (none_below n l) [ ]
  where
    none_below : (m : ℕ) → m < 0 → ⊥
    none_below m q = omega arith
wait-ends read (suc fuel) i zero e h l =
    let now : read i ≡ err e = ap read (omega arith) ∙ h in (e, rw now refl)
wait-ends read (suc fuel) i (suc n) e h l =
    let (f, later) = wait-ends read fuel (i + 1) n e (ap read (omega arith) ∙ h) (omega arith) in
    next_read-some (read i) (wait read fuel (i + 1)) f later

-- The connection is gone, and the other tables and connections are as they were.
pub record Left (k : String) (d e : Db) : Type 0 where
  pub funds : SameFunds d e
  pub gone : lookup k e.connections ≡ none
  pub others : (j : String) → j ≢ k → lookup j e.connections ≡ lookup j d.connections

gone_again :
    {V : Type 0} (k : String) (v : V) (t : Table V) → lookup k (erase k (insert k v t)) ≡ none
gone_again k v t = ground (arith, lookup-erase k k (insert k v t), eq_iff k k)

others_stay :
    {V : Type 0} (k j : String) (v : V) (t : Table V)
    → j ≢ k
    → lookup j (erase k (insert k v t)) ≡ lookup j t
others_stay k j v t ne =
    ground (arith, lookup-erase k j (insert k v t), lookup-insert k j v t, eq_iff k j)

Left-removed :
    (k pk : String) (ttl : ℤ) (u v w : World)
    → Wrote (update_connection k pk ttl) u v
    → Wrote (delete_connection k) v w
    → Left k u.db w.db
Left-removed k pk ttl u v w a r =
    subst (Left k u.db)
      (sym (
        ap World.db r.result
        ∙ ap (λ (x : World). record x.db { connections = erase k x.db.connections }) a.result))
      (record {
        funds = record { wallets = refl; transactions = refl; ledger = refl };
        gone = gone_again k _ u.db.connections;
        others = λ j ne. others_stay k j _ u.db.connections ne;
      })

module _ (svc : Service) (rel : Reliable svc) (env : Environment)
    (total : IsTotal env.attribute_value) where
  add-Succeeds :
      (k : String) (w : World) (ids : List String) (s : svc.State)
      → Stands svc rel w ids s
      → Succeeds svc (add_connection env.attribute_value k) s (λ _ t.
        ((pk : String) × (ttl : ℤ) × Wrote (update_connection k pk ttl) w (svc.world t))
        × rel.Ready ids t)
  unfolding add_connection
  add-Succeeds k w ids s h = Succeeds-require _ _ _ s (total.marshals _) (
      Succeeds-asks svc rel w ids time_now _ s tt tt h λ now s1 h1.
        Succeeds-write svc rel w ids _ (update_connection k "connections" _) s1 h1 refl
          λ t wrote ready. Succeeds-checked _ _ _ t refl (("connections", _, wrote), ready))

  remove-Succeeds :
      (k : String) (w : World) (ids : List String) (s : svc.State)
      → Stands svc rel w ids s
      → Succeeds svc
          (remove_connection env.attribute_value k)
          s
          (λ _ t. Wrote (delete_connection k) w (svc.world t) × rel.Ready ids t)
  unfolding remove_connection
  remove-Succeeds k w ids s h = Succeeds-require _ _ _ s (total.marshals _) (
      Succeeds-write svc rel w ids _ (delete_connection k) s h refl
        λ t wrote ready. Succeeds-checked _ _ _ t refl (wrote, ready))

  after_wait-Succeeds :
      (k pk : String) (ttl : ℤ) (o : Option Error) (f : Error) (u : World) (ids : List String)
      (t : svc.State)
      → o ≡ some f
      → Wrote (update_connection k pk ttl) u (svc.world t)
      → rel.Ready ids t
      → Succeeds svc
          (after_wait env k o)
          t
          (λ r z. (r ≡ disconnected) × Left k u.db (svc.world z).db)
  unfolding after_wait
  after_wait-Succeeds k pk ttl none f u ids t e a ready = cc
  after_wait-Succeeds k pk ttl (some g) f u ids t e a ready =
      Succeeds-attempt _ _ _ t
        (remove-Succeeds k (svc.world t) ids t (record { here = refl; ready = ready }))
        λ _ z (removed, _).
          Succeeds-pure disconnected z
            (refl, Left-removed k pk ttl u (svc.world t) (svc.world z) a removed)

  -- On a service that answers promptly, and where every value can be marshalled: if one of the
  -- client's reads fails, and the reads up to it are among those looked at, then the local
  -- WebSocket handler ends as after a disconnection; its connection, stored under the next UUID,
  -- is gone from the table, and nothing else in the tables has changed.
  pub serve_http-ends :
      (client : Client) (id : String) (ids : List String) (n : ℕ) (e : Error) (s : svc.State)
      → rel.Ready (id ∷ ids) s
      → client.read n ≡ err e
      → n < client.rounds
      → Succeeds svc
          (serve_http env (ok client))
          s
          (λ r t. (r ≡ disconnected) × Left id (svc.world s).db (svc.world t).db)
  unfolding serve_http after_add
  serve_http-ends client id ids n e s ready fails enough =
      let w = svc.world s in
      Succeeds-uuid svc rel w ids _ id s (record { here = refl; ready = ready })
        λ s1 h1.
          Succeeds-attempt _ _ _ s1 (add-Succeeds id w ids s1 h1) λ _ t ((pk, ttl, wrote), ready').
            let (f, ended) =
              wait-ends client.read client.rounds 0 n e (ap client.read (omega arith) ∙ fails)
                enough in
            after_wait-Succeeds id pk ttl _ f w ids t ended wrote ready'
