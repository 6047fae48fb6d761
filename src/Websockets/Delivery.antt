-- ===== src/Websockets/Delivery.antt =====
-- Publish: whom it pushes to, and what becomes of the connections.
use mathlib.Core.Path.{subst}
use delayed_wallet_transacti.Prelude.{String, ◌≡◌, refl, some, List, [], ◌∷◌, map}
use delayed_wallet_transacti.Errors.{Error, is_gone, wrap}
use delayed_wallet_transacti.Dynamo.{WebSocketConnection, delete_connection}
use delayed_wallet_transacti.Service.{
  World, FromSeen, Service, Outcome, done, fault, Answers, Connected, query_connections,
  post_to_connection, write_item,
}
use delayed_wallet_transacti.Program.{Result, ok, err, run}
use delayed_wallet_transacti.Program.Ensures.{
  Post, Ensures, sequential, run-Ensures, Ensures-bind, Ensures-attempt, Ensures-pure,
  Ensures-perform, Ensures-require, Ensures-bind_checked, Ensures-checked, Ensures-item,
  Ensures-wrapping, Ensures-if, Wrapped, Ensures-mono,
}
use delayed_wallet_transacti.Api.{WalletUpdate, Environment}
use delayed_wallet_transacti.Store.Connections.{get_all_connections, remove_connection}
use delayed_wallet_transacti.Websockets.{publish, post_each, after_post}
use delayed_wallet_transacti.Websockets.Posting.{Delivered, publish-Delivered}
use delayed_wallet_transacti.Websockets.Spread.{
  Spread, Spread-same, Spread-trans, post-Spread, delete-Spread,
}

ok_err : {A : Type 0} {a : A} (e : Error) → err e ≡ ok a → ⊥
ok_err e h = cc

module _ (payload : String) (w : World) where
  module _ (env : Environment) where
    remove-Spread :
        (k : String) (u : World)
        → Ensures sequential
            (remove_connection env.attribute_value k)
            u
            (λ _ v. Spread payload w u v)
    unfolding remove_connection
    remove-Spread k u =
        Ensures-require _ _ _ u
          (λ _. Ensures-perform (write_item (delete_connection k)) _ u tt λ r v a.
            Ensures-checked _ r v (λ _ _. delete-Spread payload w k r u v a)
              (λ _ _. delete-Spread payload w k r u v a))
          (Spread-same payload w u u refl)

    after_post-Spread :
        (k : String) (r : Outcome (Unit {0})) (u : World)
        → Ensures sequential (after_post env k r) u (λ q v. (q ≡ ok tt) × Spread payload w u v)
    unfolding after_post
    after_post-Spread k (done _) u = Ensures-pure tt u (refl, Spread-same payload w u u refl)
    after_post-Spread k (fault e) u =
        Ensures-if (is_gone e) _ _ u
          (λ _.
            Ensures-attempt _ (λ _ v. Spread payload w u v) _ u (remove-Spread k u)
              λ r v h. Ensures-pure tt v (refl, h))
          (λ _. Ensures-pure tt u (refl, Spread-same payload w u u refl))

    post_each-Spread :
        (ids : List String) (u : World)
        → FromSeen Connected w ids
        → Ensures sequential
            (post_each env payload ids)
            u
            (λ q v. (q ≡ ok tt) × Spread payload w u v)
    unfolding post_each
    post_each-Spread [] u h = Ensures-pure tt u (refl, Spread-same payload w u u refl)
    post_each-Spread (k ∷ ids) u ((d, seen, known), more) =
        let rest = post_each-Spread ids in
        Ensures-perform (post_to_connection k payload) _ u tt λ r v a.
          Ensures-bind _ (λ q z. (q ≡ ok tt) × Spread payload w v z) _ v (after_post-Spread k r v)
            (λ _ z (_, s).
              Ensures-mono
                (λ q y (fine, t). (
                  fine,
                  Spread-trans payload w u v y (post-Spread payload w k d seen known r u v a)
                      (Spread-trans payload w v z y s t),
                ))
                _ z (rest z more))
            (λ e z (wrong, _). elim (ok_err e wrong) [ ])

-- What Publish leaves behind, by how it ended.
abbrev pub PublishOutcome : Environment → WalletUpdate → World → Post (Unit {0})
PublishOutcome env update w (ok _) v =
    (payload : String) × (env.json.marshal_update update ≡ some payload) × Spread payload w w v
PublishOutcome env update w (err e) v = v ≡ w

-- The ids of connections that stood in the table.
abbrev AllConnected : World → Post (List String)
AllConnected w (ok ids) v = (v ≡ w) × FromSeen Connected w ids
AllConnected w (err e) v = v ≡ w

Connected-ids :
    (cs : List WebSocketConnection) (w : World)
    → FromSeen (λ c. Connected c.connection_id) w cs
    → FromSeen Connected w (map (λ c. c.connection_id) cs)
Connected-ids [] w h = tt
Connected-ids (c ∷ cs) w h = (h.0, Connected-ids cs w h.1)

same_world :
    (r : Outcome (List WebSocketConnection)) (w v : World)
    → Answers (query_connections "connections") r w v
    → v ≡ w
same_world (done cs) w v a = a.1
same_world (fault e) w v a = a

known_ids :
    (r : Outcome (List WebSocketConnection)) (cs : List WebSocketConnection) (w v : World)
    → Answers (query_connections "connections") r w v
    → r ≡ done cs
    → AllConnected w (ok (map (λ c. c.connection_id) cs)) v
known_ids (done es) cs w v (all_known, same) e = (
  same,
  Connected-ids cs w
      (subst (FromSeen (λ c. Connected c.connection_id) w) (done_eq es cs e) all_known),
)
  where
    done_eq : (xs ys : List WebSocketConnection) → done xs ≡ done ys → xs ≡ ys
    done_eq xs ys h = cc
known_ids (fault f) cs w v a e = cc

module _ (env : Environment) where
  get_all-Connected :
      (w : World) → Ensures sequential (get_all_connections env.attribute_value) w (AllConnected w)
  unfolding get_all_connections
  get_all-Connected w = Ensures-perform (query_connections "connections") _ w tt λ r v a.
      Ensures-bind_checked _ _ r v
        (λ cs e.
          Ensures-require _ _ _ v (λ _. Ensures-pure _ v (known_ids r cs w v a e))
            (same_world r w v a))
        (λ _ _. same_world r w v a)

  wrapped_ids :
      (w : World) (r : Result (List String)) (v : World)
      → AllConnected w r v
      → Wrapped (wrap "failed to get all connections") (AllConnected w) r v
  wrapped_ids w (ok ids) v h = h
  wrapped_ids w (err e) v h = h

  payload_outcome :
      (update : WalletUpdate) (payload : String) (w v : World)
      → env.json.marshal_update update ≡ some payload
      → (r : Result (Unit {0})) (z : World) → (r ≡ ok tt) × Spread payload w v z
      → v ≡ w
      → PublishOutcome env update w r z
  payload_outcome update payload w v e (ok _) z (_, s) same =
      (payload, e, Spread-trans payload w w v z (Spread-same payload w w v same) s)
  payload_outcome update payload w v e (err f) z (wrong, _) same = elim (ok_err f wrong) [ ]

  pub publish-Spread :
      (update : WalletUpdate) (w : World)
      → Ensures sequential (publish env update) w (PublishOutcome env update w)
  unfolding publish
  publish-Spread update w =
      Ensures-bind _ (AllConnected w) _ w
        (Ensures-wrapping _ _ w (Ensures-mono (wrapped_ids w) _ w (get_all-Connected w)))
        (λ ids v (same, known).
          Ensures-item _ _ _ v
            (λ payload e.
              Ensures-mono (λ r z h. payload_outcome update payload w v e r z h same) _ v
                (post_each-Spread payload w env ids v known))
            (λ _. same))
        (λ e v same. same)

module _ (svc : Service) (env : Environment) where
  -- Publish, whatever fails. If it returns no error, then its query for all connections was
  -- answered, and the encoded update was posted to each connection of the reply, one after the
  -- other, and to no other; after each post, RemoveConnection was run for the connection if the
  -- gateway had replied that it is gone, and nothing was done otherwise. All tables but that of
  -- the connections are unchanged, in that table no connection is new or has changed, and what was
  -- pushed is the encoded update, to connections that stood in the table then or earlier. If it
  -- returns an error, then that query failed, its items cannot be unmarshalled or the update cannot
  -- be encoded; nothing has changed and nothing was pushed.
  pub publish-Outcome :
      (update : WalletUpdate) (s : svc.State)
      → let (r, t) = run svc (publish env update) s in
        Delivered svc env update s r t × PublishOutcome env update (svc.world s) r (svc.world t)
  publish-Outcome update s = (
    publish-Delivered svc env update s,
    run-Ensures svc (PublishOutcome env update (svc.world s)) (publish env update) s
        (publish-Spread env update (svc.world s)),
  )
