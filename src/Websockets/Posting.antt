-- ===== src/Websockets/Posting.antt =====
-- Publish, between states of the service: which calls it makes, by the replies.
use mathlib.Core.Path.{subst}
use delayed_wallet_transacti.Prelude.{
  String, ◌≡◌, refl, sym, ap, ◌∙◌, ◌⊎◌, inl, inr, Bool, true, false, Bool-cases, Option-cases, none,
  some, List, [], ◌∷◌, map,
}
use delayed_wallet_transacti.Errors.{Fault, is_gone, wrap, aws, message}
use delayed_wallet_transacti.Dynamo.{WebSocketConnection}
use delayed_wallet_transacti.Service.{
  Service, Outcome, done, fault, query_connections, post_to_connection,
}
use delayed_wallet_transacti.Program.{
  Result, ok, err, Program, pure, perform, attempt, wrapping, checked, require, item_or, ◌>>=◌, run,
}
use delayed_wallet_transacti.Program.Runs.{continued, run-bind, run-attempt}
use delayed_wallet_transacti.Api.{WalletUpdate, Environment}
use delayed_wallet_transacti.Store.Codec
use delayed_wallet_transacti.Store.Connections.{get_all_connections, remove_connection}
use delayed_wallet_transacti.Websockets.{publish, post_each, after_post}

abbrev pub gone_reply : Outcome (Unit {0}) → Bool
gone_reply (done _) = false
gone_reply (fault e) = is_gone e

-- A round over connections, between states of the service: the payload is posted to each, in their
-- order, and a connection is removed just when the gateway has replied that it is gone.
pub data Posted (svc : Service) (env : Environment) (payload : String)
    : List String → svc.State → svc.State → Type 0 where
  ended : {s : svc.State} → Posted svc env payload [] s s
  keeps :
      {k : String} {ks : List String} {s u t : svc.State} {r : Outcome (Unit {0})}
      → svc.perform (post_to_connection k payload) s ≡ (r, u)
      → gone_reply r ≡ false
      → Posted svc env payload ks u t
      → Posted svc env payload (k ∷ ks) s t
  removes :
      {k : String} {ks : List String} {s u t : svc.State} {r : Outcome (Unit {0})}
      → svc.perform (post_to_connection k payload) s ≡ (r, u)
      → gone_reply r ≡ true
      → Posted svc env payload ks (run svc (remove_connection env.attribute_value k) u).1 t
      → Posted svc env payload (k ∷ ks) s t

-- What Publish did with the reply to its query for all connections: it posted the encoded update
-- to just those of the reply, or it stopped before the first post.
abbrev pub DeliveredBy :
    (svc : Service)
    → Environment
    → WalletUpdate
    → Outcome (List WebSocketConnection)
    → (asked : svc.State) → Result (Unit {0})
    → svc.State
    → Type 0
DeliveredBy svc env update reply asked (ok _) t =
    (cs : List WebSocketConnection) × (payload : String) × (reply ≡ done cs)
    × (env.json.marshal_update update ≡ some payload)
    × Posted svc env payload (map (λ c. c.connection_id) cs) asked t
DeliveredBy svc env update reply asked (err e) t =
    (t ≡ asked)
    × (((f : Fault) × (reply ≡ fault f))
        ⊎ (((cs : List WebSocketConnection) × (reply ≡ done cs)
              × (env.attribute_value.unmarshals (Codec.connections cs) ≡ false))
            ⊎ (env.json.marshal_update update ≡ none)))

abbrev pub Delivered :
    (svc : Service)
    → Environment
    → WalletUpdate
    → svc.State
    → Result (Unit {0})
    → svc.State
    → Type 0
Delivered svc env update s r t =
    let (reply, asked) = svc.perform (query_connections "connections") s in
    DeliveredBy svc env update reply asked r t

module _ (svc : Service) (env : Environment) (payload : String) where
  abbrev Rounds : List String → svc.State → Result (Unit {0}) × svc.State → Type 0
  Rounds ids s q = (q.0 ≡ ok tt) × Posted svc env payload ids s q.1

  module _ (k : String) (ids : List String) (s : svc.State)
      (later : (u : svc.State) → Rounds ids u (run svc (post_each env payload ids) u)) where
    gone_removed :
        (u : svc.State)
        → run svc
            ((attempt (remove_connection env.attribute_value k) >>= λ _. pure tt) >>= λ _.
              post_each env payload ids)
            u
          ≡ run svc
              (post_each env payload ids)
              (run svc (remove_connection env.attribute_value k) u).1
    unfolding run
    gone_removed u =
        run-bind svc (attempt (remove_connection env.attribute_value k) >>= λ _. pure tt)
          (λ _. post_each env payload ids) u
        ∙ ap (continued svc λ _. post_each env payload ids)
            (run-attempt svc (remove_connection env.attribute_value k) (λ _. pure tt) u)

    round :
        (r : Outcome (Unit {0})) (u : svc.State)
        → svc.perform (post_to_connection k payload) s ≡ (r, u)
        → Rounds (k ∷ ids) s (run svc (after_post env k r >>= λ _. post_each env payload ids) u)
    unfolding after_post ◌>>=◌
    round (done _) u e = let (fine, posted) = later u in (fine, keeps e refl posted)
    round (fault f) u e = elim (Bool-cases (is_gone f)) [
      | inl gone ↦ rw gone (
          subst (Rounds (k ∷ ids) s) (sym (gone_removed u)) (
            let (fine, posted) = later (run svc (remove_connection env.attribute_value k) u).1 in
            (fine, removes e gone posted)))
      | inr other ↦ rw other (let (fine, posted) = later u in (fine, keeps e other posted))
    ]

  post_each-Posted :
      (ids : List String) (s : svc.State) → Rounds ids s (run svc (post_each env payload ids) s)
  unfolding post_each run perform ◌>>=◌
  post_each-Posted [] s = (refl, ended)
  post_each-Posted (k ∷ ids) s =
      round k ids s (post_each-Posted ids) (svc.perform (post_to_connection k payload) s).0
        (svc.perform (post_to_connection k payload) s).1 refl

module _ (svc : Service) (env : Environment) (update : WalletUpdate) where
  -- Publish, once it has the reply to its query.
  abbrev after_reply : Outcome (List WebSocketConnection) → Program (Unit {0})
  after_reply reply =
      wrapping (wrap "failed to get all connections") (
        checked (λ e. wrap "failed to query connections table" (aws e)) reply >>= λ items.
        require (env.attribute_value.unmarshals (Codec.connections items))
          (message "failed to unmarshal connections")
        >>= λ _. pure (map (λ c. c.connection_id) items))
      >>= λ ids.
          item_or (env.json.marshal_update update) (message "failed to marshal message")
          >>= λ payload. post_each env payload ids

  posted :
      (cs : List WebSocketConnection) (payload : String) (asked : svc.State)
      (q : Result (Unit {0}) × svc.State)
      → env.json.marshal_update update ≡ some payload
      → Rounds svc env payload (map (λ c. c.connection_id) cs) asked q
      → DeliveredBy svc env update (done cs) asked q.0 q.1
  posted cs payload asked (ok _, t) e (fine, round) = (cs, payload, refl, e, round)
  posted cs payload asked (err f, t) e (fine, round) = cc

  reply-Delivered :
      (reply : Outcome (List WebSocketConnection)) (asked : svc.State)
      → let (r, t) = run svc (after_reply reply) asked in DeliveredBy svc env update reply asked r t
  unfolding checked wrapping require item_or run ◌>>=◌
  reply-Delivered (fault f) asked = (refl, inl (f, refl))
  reply-Delivered (done cs) asked =
      elim (Bool-cases (env.attribute_value.unmarshals (Codec.connections cs))) [
        | inr no_case ↦ rw no_case (refl, inr (inl (cs, refl, no_case)))
        | inl yes_case ↦ elim (Option-cases (env.json.marshal_update update)) [
          | inl unencoded ↦ rw (yes_case, unencoded) (refl, inr (inr unencoded))
          | inr (payload, encoded) ↦
              rw (yes_case, encoded)
                (posted cs payload asked
                  (run svc (post_each env payload (map (λ c. c.connection_id) cs)) asked) encoded
                  (post_each-Posted svc env payload (map (λ c. c.connection_id) cs) asked))
        ]
      ]

  pub publish-Delivered :
      (s : svc.State)
      → let (r, t) = run svc (publish env update) s in Delivered svc env update s r t
  unfolding publish get_all_connections run perform wrapping ◌>>=◌
  publish-Delivered s =
      let (reply, asked) = svc.perform (query_connections "connections") s in
      reply-Delivered reply asked
