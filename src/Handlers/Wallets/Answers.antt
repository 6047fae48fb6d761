-- ===== src/Handlers/Wallets/Answers.antt =====
-- POST /wallets and DELETE /wallets/{userId}, by their responses.
use mathlib.Core.Path.{subst}
use delayed_wallet_transacti.Prelude.{
  String, ◌≡◌, refl, sym, true, false, ◌⊎◌, inl, inr, Bool-cases,
}
use delayed_wallet_transacti.Models.{Instant, Wallet}
use delayed_wallet_transacti.Errors.{error_text}
use delayed_wallet_transacti.Dynamo.{Db}
use delayed_wallet_transacti.Service.{World, Service, time_now}
use delayed_wallet_transacti.Program.{Result, ok, err, pure, perform, ◌>>=◌, run}
use delayed_wallet_transacti.Program.Ensures.{
  Post, Ensures, sequential, run-Ensures, Ensures-attempt, Ensures-pure,
}
use delayed_wallet_transacti.Program.Runs.{run-attempt}
use delayed_wallet_transacti.Api.{NewWallet, Response, wallet, Environment}
use delayed_wallet_transacti.Api.Mapping.{to_api_wallet, to_domain_new_wallet}
use delayed_wallet_transacti.Store.Wallets.Outcome.{
  Opened, Closed, OpenOutcome, CloseOutcome, create_wallet-Outcome, delete-Outcome,
}
use delayed_wallet_transacti.Store.Wallets.{create_wallet}
use delayed_wallet_transacti.Handlers.{http_error, failed, respond_json}
use delayed_wallet_transacti.Handlers.Wallets.{
  contains, create_wallet_request, create_decoded, create_response, delete_wallet_request,
  delete_response,
}

-- The wallet that a request asks for.
abbrev pub first_wallet : NewWallet → Instant → Wallet
first_wallet new now = record (to_domain_new_wallet new) { created_at = now }

-- What CreateWallet has returned and left, and the response to it.
abbrev pub CreateAnswer :
    Environment → NewWallet → Instant → Db → Result Wallet → Response → Db → Type 0
CreateAnswer env new now d (ok created) resp e =
    (resp ≡ respond_json env 201 (wallet (to_api_wallet created)))
    × (created ≡ record (first_wallet new now) { ttl = created.ttl })
    × Opened (first_wallet new now) d e
CreateAnswer env new now d (err f) resp e =
    (((contains (error_text env.fault_text f) "wallet already exists" ≡ true) × (resp.status ≡ 409))
      ⊎ ((contains (error_text env.fault_text f) "wallet already exists" ≡ false)
          × (resp.status ≡ 500)))
    × ((e ≡ d) ⊎ Opened (first_wallet new now) d e)

-- What DELETE /wallets/{userId} has done, by its status.
abbrev pub DeleteRequestOutcome : String → Db → Post Response
DeleteRequestOutcome user_id d (err e) v = ⊥
DeleteRequestOutcome user_id d (ok resp) v =
    ((resp.status ≡ 204) × Closed user_id d v.db)
    ⊎ ((resp.status ≡ 404) × ((v.db ≡ d) ⊎ Closed user_id d v.db))

module _ (env : Environment) where
  create_answer :
      (new : NewWallet) (now : Instant) (d : Db) (r : Result Wallet) (v : World)
      → OpenOutcome (first_wallet new now) d r v
      → CreateAnswer env new now d r (create_response env r) v.db
  create_answer new now d (ok created) v h = (refl, h.1, h.0)
  create_answer new now d (err e) v h =
      elim (Bool-cases (contains (error_text env.fault_text e) "wallet already exists")) [
        | inl taken ↦ rw taken (inl (refl, refl), h)
        | inr other ↦ rw other (inr (refl, refl), h)
      ]

  delete_outcome :
      (user_id : String) (d : Db) (r : Result (Unit {0})) (v : World)
      → CloseOutcome user_id d r v
      → DeleteRequestOutcome user_id d (ok (delete_response env r)) v
  delete_outcome user_id d (ok _) v h = inl (refl, h)
  delete_outcome user_id d (err e) v h = inr (refl, h)

  delete_request-Outcome :
      (user_id : String) (w : World)
      → Ensures sequential (delete_wallet_request env user_id) w (DeleteRequestOutcome user_id w.db)
  unfolding delete_wallet_request
  delete_request-Outcome user_id w =
      Ensures-attempt _ (CloseOutcome user_id w.db) _ w
        (delete-Outcome env.attribute_value user_id w)
        λ r v h. Ensures-pure _ v (delete_outcome user_id w.db r v h)

module _ (svc : Service) (env : Environment) where
  -- What POST /wallets has done in a run from one state to another: a body that is refused ends it
  -- at once; otherwise it is the clock, CreateWallet on the wallet of that instant, and the answer.
  abbrev pub CreateRequestOutcome :
      Result NewWallet → svc.State → Result Response → svc.State → Type 0
  CreateRequestOutcome (err e) s r t =
      (r ≡ ok (http_error (failed env "Invalid request body" e) 400)) × (t ≡ s)
  CreateRequestOutcome (ok new) s r t =
      let (now, started) = svc.perform time_now s in
      let (made, ended) =
        run svc (create_wallet env.attribute_value (first_wallet new now)) started in
      (t ≡ ended)
      × (resp : Response) × (r ≡ ok resp)
      × CreateAnswer env new now (svc.world s).db made resp (svc.world t).db

  created :
      (new : NewWallet) (s : svc.State)
      → let (now, started) = svc.perform time_now s in
        let (made, ended) =
          run svc (create_wallet env.attribute_value (first_wallet new now)) started in
        run svc (create_decoded env (ok new)) s ≡ (ok (create_response env made), ended)
  unfolding create_decoded run perform ◌>>=◌
  created new s =
      let (now, started) = svc.perform time_now s in
      run-attempt svc (create_wallet env.attribute_value (first_wallet new now))
        (λ made. pure (create_response env made)) started

  opened :
      (new : NewWallet) (s : svc.State)
      → let (now, started) = svc.perform time_now s in
        let (made, ended) =
          run svc (create_wallet env.attribute_value (first_wallet new now)) started in
        CreateAnswer env new now
          (svc.world s).db
          made
          (create_response env made)
          (svc.world ended).db
  opened new s =
      let (now, started) = svc.perform time_now s in
      let made = run svc (create_wallet env.attribute_value (first_wallet new now)) started in
      create_answer env new now (svc.world s).db made.0 (svc.world made.1) (
        subst (λ (w : World). OpenOutcome (first_wallet new now) w.db made.0 (svc.world made.1))
          (svc.obeys time_now s)
          (create_wallet-Outcome svc env.attribute_value (first_wallet new now) started))

  decoded-Outcome :
      (decoded : Result NewWallet) (s : svc.State)
      → let (r, t) = run svc (create_decoded env decoded) s in CreateRequestOutcome decoded s r t
  unfolding create_decoded run
  decoded-Outcome (err e) s = (refl, refl)
  decoded-Outcome (ok new) s =
      subst (λ q. CreateRequestOutcome (ok new) s q.0 q.1) (sym (created new s))
        (refl, _, refl, opened new s)

  -- POST /wallets always answers, whatever fails. A body that is refused is answered with 400 and
  -- no service is called. Otherwise the clock is read, and the run is that of CreateWallet on a
  -- wallet for the user with that instant as its creation time, a balance of 1000, nothing
  -- reserved and version 1. If CreateWallet returns a wallet, the answer is 201 with it: the user
  -- had no wallet and now has this one, and nothing else has changed. If it returns an error, the
  -- answer is 409 when the error's text contains `wallet already exists` and 500 when it does not;
  -- then no table has changed, or the wallet was stored all the same.
  pub create_wallet_request-Outcome :
      (body : String) (s : svc.State)
      → let (r, t) = run svc (create_wallet_request env body) s in
        CreateRequestOutcome (env.json.decode_new_wallet body) s r t
  unfolding create_wallet_request
  create_wallet_request-Outcome body s = decoded-Outcome (env.json.decode_new_wallet body) s

  -- DELETE /wallets/{userId} always answers, whatever fails: 204 means that the user had a wallet
  -- and has none, and that nothing else has changed; any other answer is 404, when no table has
  -- changed or the wallet was deleted all the same.
  pub delete_wallet_request-Outcome :
      (user_id : String) (s : svc.State)
      → let (r, s') = run svc (delete_wallet_request env user_id) s in
        DeleteRequestOutcome user_id (svc.world s).db r (svc.world s')
  delete_wallet_request-Outcome user_id s =
      run-Ensures svc (DeleteRequestOutcome user_id (svc.world s).db)
        (delete_wallet_request env user_id) s (delete_request-Outcome env user_id (svc.world s))
