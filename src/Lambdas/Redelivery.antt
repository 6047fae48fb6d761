-- ===== src/Lambdas/Redelivery.antt =====
-- Messages that are delivered again, or too late.
use mathlib.Core.Path.{subst}
use delayed_wallet_transacti.Prelude.{
  String, ◌==◌, ◌||◌, ◌≡◌, refl, ◌≢◌, Bool, true, false, Option, none, some, List, [], ◌∷◌, All,
}
use delayed_wallet_transacti.Models.{Transaction}
use delayed_wallet_transacti.Dynamo.{Db}
use delayed_wallet_transacti.Service.{World, Service}
use delayed_wallet_transacti.Program.{Result, ok, err, Program, run}
use delayed_wallet_transacti.Program.Ensures.{
  Post, Ensures, sequential, run-Ensures, Ensures-attempt, Ensures-bind, Ensures-pure, Ensures-if,
}
use delayed_wallet_transacti.Api.{Environment}
use delayed_wallet_transacti.Store.SettleTransaction.Outcome.{
  NotReserved, SettleOutcome, settle-Outcome,
}
use delayed_wallet_transacti.Store.SettleTransaction.Late.{SettleOutcome-late}
use delayed_wallet_transacti.Lambdas.{
  Next, continue, return, after_settle, handle_message, next_or_return, handle_settlement_request,
}

-- A message with no transaction, or with one that is not RESERVED.
abbrev pub IsLate : Environment → Db → String → Type 0
IsLate env d body =
    (x : Transaction) → env.json.unmarshal_transaction body ≡ some x → NotReserved x.id d

-- The tables are `d`.
abbrev Unchanged : {A : Type 0} → Db → Post A
Unchanged d r v = v.db ≡ d

module _ (env : Environment) where
  after_settle-Unchanged :
      (x : Transaction) (d : Db) (r : Result Bool) (v : World)
      → (v.db ≡ d) × (r ≢ ok true)
      → Ensures sequential (after_settle env x r) v (Unchanged d)
  unfolding after_settle
  after_settle-Unchanged x d (ok true) v (same, untrue) = elim (untrue refl) [ ]
  after_settle-Unchanged x d (ok false) v (same, untrue) = Ensures-pure _ v same
  after_settle-Unchanged x d (err e) v (same, untrue) = Ensures-pure _ v same

  handle_message-Unchanged :
      (o : Option Transaction) (d : Db) (w : World)
      → w.db ≡ d
      → ((x : Transaction) → o ≡ some x → NotReserved x.id d)
      → Ensures sequential (handle_message env o) w (Unchanged d)
  unfolding handle_message
  handle_message-Unchanged none d w same late = Ensures-pure _ w same
  handle_message-Unchanged (some x) d w same late =
      Ensures-if ((x.from_user_id == "") || (x.to_user_id == "")) _ _ w (λ _. Ensures-pure _ w same)
        (λ _.
          Ensures-attempt _ (SettleOutcome x w.db) _ w (settle-Outcome env.attribute_value x w)
            λ r v h. after_settle-Unchanged x d r v (
              SettleOutcome-late x d r v (late x refl) (subst (λ e. SettleOutcome x e r v) same h)))

  next-Unchanged :
      (p : Program (Unit {0})) (n : Next) (d : Db) (v : World)
      → v.db ≡ d
      → Ensures sequential p v (Unchanged d)
      → Ensures sequential (next_or_return env p n) v (Unchanged d)
  next-Unchanged p continue d v same h = h
  next-Unchanged p return d v same h = Ensures-pure _ v same

  batch-Unchanged :
      (bodies : List String) (d : Db) (w : World)
      → w.db ≡ d
      → All (IsLate env d) bodies
      → Ensures sequential (handle_settlement_request env bodies) w (Unchanged d)
  unfolding handle_settlement_request
  batch-Unchanged [] d w same late = Ensures-pure tt w same
  batch-Unchanged (body ∷ rest) d w same late =
      let later = batch-Unchanged rest d in
      Ensures-bind _ (Unchanged d) _ w (handle_message-Unchanged _ d w same late.0)
        (λ n v same_v. next-Unchanged _ n d v same_v (later v same_v late.1)) (λ e v same_v. same_v)

module _ (svc : Service) (env : Environment) where
  -- Whatever the services answer, a run of the settlement lambda on messages of which none carries
  -- a transaction that is RESERVED leaves all tables as they are: it does no harm that messages
  -- are delivered again once their transactions are settled or cancelled.
  pub handle_settlement_request-Unchanged :
      (bodies : List String) (s : svc.State)
      → All (IsLate env (svc.world s).db) bodies
      → (svc.world (run svc (handle_settlement_request env bodies) s).1).db ≡ (svc.world s).db
  handle_settlement_request-Unchanged bodies s late =
      run-Ensures svc (Unchanged (svc.world s).db) (handle_settlement_request env bodies) s
        (batch-Unchanged env bodies (svc.world s).db (svc.world s) refl late)
