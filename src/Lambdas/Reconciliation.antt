-- ===== src/Lambdas/Reconciliation.antt =====
-- What the reconciliation lambda puts on the queue.
use mathlib.Core.Path.{subst}
use delayed_wallet_transacti.Prelude.{
  String, ◌≡◌, refl, sym, ap, ◌⊎◌, inl, inr, ◌-◌, true, some, List, [], ◌∷◌,
}
use delayed_wallet_transacti.Prelude.Int.{pos}
use delayed_wallet_transacti.Models.{Status, Instant, Transaction}
use delayed_wallet_transacti.Models.Dates.{text_before}
use delayed_wallet_transacti.Errors.{wrap, aws}
use delayed_wallet_transacti.Errors
use delayed_wallet_transacti.Dynamo.{Db}
use delayed_wallet_transacti.Service.{
  World, Seen, FromSeen, Service, Outcome, done, fault, Answers, InIndex, time_now,
  query_status_before,
}
use delayed_wallet_transacti.Program.{
  Result, ok, err, Program, pure, perform, checked, require, ◌>>=◌, run,
}
use delayed_wallet_transacti.Program.Ensures.{
  Post, Ensures, sequential, Ensures-bind, Ensures-attempt, Ensures-pure, Ensures-mono,
  Ensures-perform, Ensures-require, Ensures-bind_checked,
}
use delayed_wallet_transacti.Program.Runs.{run-reply}
use delayed_wallet_transacti.Api.{Environment}
use delayed_wallet_transacti.Api.Mapping.{to_api_transaction}
use delayed_wallet_transacti.Scheduler.Delays.{QueueOutcome, Queued, schedule_transaction-outcome}
use delayed_wallet_transacti.Store.Codec
use delayed_wallet_transacti.Store.Queries.{get_stuck_transactions}
use delayed_wallet_transacti.Lambdas.{
  stuck_transaction_threshold, reschedule_each, handle_reconciliation_request,
}

-- Stored as RESERVED, and created before the instant, as the texts of the two times have it.
abbrev pub Stuck : Instant → Transaction → Db → Type 0
Stuck cutoff =
    InIndex (λ y. (y.status ≡ Status.reserved) × (text_before y.created_at cutoff ≡ true))

-- Only messages for transactions that were seen to be stuck were sent, to be delivered at once.
pub data Requeued (env : Environment) (cutoff : Instant) (start : World)
    : World → World → Type 0 where
  nothing : {w : World} → Requeued env cutoff start w w
  message :
      {u v w : World} (x : Transaction) (body : String) (d : Db)
      → Seen d start
      → Stuck cutoff x d
      → env.json.marshal_transaction (to_api_transaction x) ≡ some body
      → v ≡ record u { sent = (env.queue_url, body, pos 0) ∷ u.sent }
      → Requeued env cutoff start v w
      → Requeued env cutoff start u w

-- After a run that took `now` for the present.
abbrev pub ReconcileOutcome : Environment → Instant → World → Post (Unit {0})
ReconcileOutcome env now w (ok _) v = Requeued env (now - stuck_transaction_threshold) w w v
ReconcileOutcome env now w (err e) v = v ≡ w

module _ (env : Environment) (cutoff : Instant) (start : World) where
  abbrev EachOutcome : World → Post (Unit {0})
  EachOutcome w (ok _) v = Requeued env cutoff start w v
  EachOutcome w (err e) v = ⊥

  abbrev One : Transaction → World → Post (Unit {0})
  One x w (ok _) v = (v ≡ w) ⊎ Queued env (to_api_transaction x) (pos 0) w v
  One x w (err e) v = ⊥

  either_result :
      (x : Transaction) (w : World) (r : Result (Unit {0})) (v : World)
      → QueueOutcome env (to_api_transaction x) (pos 0) w r v
      → One x w (ok tt) v
  either_result x w (ok _) v q = inr q
  either_result x w (err e) v q = q

  requeue :
      (x : Transaction) (w u v : World)
      → ((d : Db) × Seen d start × Stuck cutoff x d)
      → One x w (ok tt) u
      → Requeued env cutoff start u v
      → Requeued env cutoff start w v
  requeue x w u v stuck (inl same) more = subst (λ z. Requeued env cutoff start z v) same more
  requeue x w u v (d, seen, stuck) (inr q) more =
      message x q.body d seen stuck q.marshalled q.result more

  then_more :
      (x : Transaction) (w u : World)
      → ((d : Db) × Seen d start × Stuck cutoff x d)
      → One x w (ok tt) u
      → (r : Result (Unit {0})) (v : World) → EachOutcome u r v
      → EachOutcome w r v
  then_more x w u stuck h (ok _) v more = requeue x w u v stuck h more
  then_more x w u stuck h (err e) v more = more

  reschedule-outcome :
      (txs : List Transaction) (w : World)
      → FromSeen (Stuck cutoff) start txs
      → Ensures sequential (reschedule_each env txs) w (EachOutcome w)
  unfolding reschedule_each
  reschedule-outcome [] w h = Ensures-pure tt w nothing
  reschedule-outcome (x ∷ txs) w h =
      Ensures-bind _ (One x w) _ w
        (Ensures-attempt _ (QueueOutcome env (to_api_transaction x) (pos 0) w) _ w
          (schedule_transaction-outcome env (to_api_transaction x) (pos 0) w)
          λ r v q. Ensures-pure tt v (either_result x w r v q))
        (λ _ u one. Ensures-mono (then_more x w u h.0 one) _ u (reschedule-outcome txs u h.1))
        (λ e u h. h)

abbrev Stored : Instant → World → Post (List Transaction)
Stored now w (ok xs) v = (v ≡ w) × FromSeen (Stuck (now - stuck_transaction_threshold)) w xs
Stored now w (err e) v = v ≡ w

found_page :
    (now : Instant) (w : World) (r : Outcome (List Transaction)) (v : World)
    → Answers (query_status_before Status.reserved (now - stuck_transaction_threshold)) r w v
    → {xs : List Transaction} → r ≡ done xs
    → Stored now w (ok xs) v
found_page now w (done ys) v (stuck, same) e =
    (same, subst (FromSeen (Stuck (now - stuck_transaction_threshold)) w) (done_same e) stuck)
  where
    items : Outcome (List Transaction) → List Transaction
    items (done zs) = zs
    items (fault f) = []

    done_same : {xs : List Transaction} → done ys ≡ done xs → ys ≡ xs
    done_same e = ap items e
found_page now w (fault f) v a e = cc

query_same :
    (now : Instant) (w : World) (r : Outcome (List Transaction)) (v : World)
    → Answers (query_status_before Status.reserved (now - stuck_transaction_threshold)) r w v
    → v ≡ w
query_same now w (done ys) v a = a.1
query_same now w (fault f) v a = a

module _ (env : Environment) where
  -- GetStuckTransactions, once it has read the clock.
  abbrev stuck_at : Instant → Program (List Transaction)
  stuck_at now =
      let cutoff = now - stuck_transaction_threshold in
      require (env.attribute_value.marshals (Codec.time cutoff))
        (Errors.message "failed to marshal cutoff time")
      >>= λ _. perform (query_status_before Status.reserved cutoff) >>= λ reply.
          checked (λ e. wrap "failed to query for stuck transactions" (aws e)) reply >>= λ items.
          require (env.attribute_value.unmarshals (Codec.transactions items))
            (Errors.message "failed to unmarshal stuck transactions")
          >>= λ _. pure items

  stuck_at-Stored : (now : Instant) (w : World) → Ensures sequential (stuck_at now) w (Stored now w)
  stuck_at-Stored now w =
      Ensures-require _ _ _ w
        (λ _. Ensures-perform (query_status_before Status.reserved _) _ w tt λ r v a.
          Ensures-bind_checked _ _ r v
            (λ xs replied.
              Ensures-require _ _ _ v (λ _. Ensures-pure xs v (found_page now w r v a replied))
                (query_same now w r v a))
            (λ e _. query_same now w r v a))
        refl

  each_outcome :
      (w : World) (now : Instant) (r : Result (Unit {0})) (v : World)
      → EachOutcome env (now - stuck_transaction_threshold) w w r v
      → ReconcileOutcome env now w r v
  each_outcome w now (ok _) v more = more
  each_outcome w now (err e) v more = elim more [ ]

  reconcile-outcome :
      (now : Instant) (w v : World)
      → v ≡ w
      → Ensures sequential (stuck_at now >>= reschedule_each env) v (ReconcileOutcome env now w)
  reconcile-outcome now w v started =
      subst
        (λ u.
          Ensures sequential (stuck_at now >>= reschedule_each env) u (ReconcileOutcome env now w))
        (sym started)
        (Ensures-bind _ (Stored now w) _ w (stuck_at-Stored now w)
          (λ xs z (same, stuck).
            subst (λ u. Ensures sequential (reschedule_each env xs) u (ReconcileOutcome env now w))
              (sym same)
              (Ensures-mono (each_outcome w now) _ w (reschedule-outcome env _ w xs w stuck)))
          (λ e z same. same))

  -- A run of the reconciliation lambda sends nothing but messages for transactions that the table
  -- held, then or before an earlier write, as RESERVED with a creation time of more than six hours
  -- before the instant that the clock shows at the start of the run, by the order of the two
  -- times' texts; each is to be delivered at once. It changes nothing else. If the run ends with an
  -- error, nothing at all has changed.
  pub handle_reconciliation_request-Outcome :
      (svc : Service) (s : svc.State)
      → let (now, _) = svc.perform time_now s in
        let (r, s') = run svc (handle_reconciliation_request env) s in
        ReconcileOutcome env now (svc.world s) r (svc.world s')
  unfolding handle_reconciliation_request get_stuck_transactions perform ◌>>=◌
  handle_reconciliation_request-Outcome svc s =
      run-reply svc time_now (λ now. stuck_at now >>= reschedule_each env)
        (λ now. ReconcileOutcome env now (svc.world s)) (handle_reconciliation_request env) s refl
        λ now v same. reconcile-outcome now (svc.world s) v same
