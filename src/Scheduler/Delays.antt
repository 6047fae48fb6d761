-- ===== src/Scheduler/Delays.antt =====
-- What the scheduler hands to the queue.
use delayed_wallet_transacti.Prelude.{String, ◌≡◌, refl, ◌⊎◌, inl, inr, true, not, some, ◌∷◌, arith}
use delayed_wallet_transacti.Prelude.Int.{ℤ, pos, negsuc, ◌≤ℤ◌}
use delayed_wallet_transacti.Errors.{wrap, aws}
use delayed_wallet_transacti.Service.{World, Service, Outcome, done, fault, Answers, send_message}
use delayed_wallet_transacti.Program.{ok, err, run, checked}
use delayed_wallet_transacti.Program.Ensures.{
  Post, Ensures, sequential, run-Ensures, Ensures-item, Ensures-require, Ensures-perform,
  Ensures-checked,
}
use delayed_wallet_transacti.Api.{ApiTransaction, Environment}
use delayed_wallet_transacti.Scheduler.{whole_seconds, bad_delay, schedule_transaction}

-- SQS takes delays from 0 to 900 seconds.
abbrev pub IsQueueDelay : ℤ → Type 0
IsQueueDelay n = (pos 0 ≤ℤ n) × (n ≤ℤ pos 900)

-- From 0 to 15 minutes, in nanoseconds.
abbrev pub IsShort : ℤ → Type 0
IsShort delay = (pos 0 ≤ℤ delay) × (delay ≤ℤ pos 900000000000)

-- One message with the transaction was sent, with a delay that the queue takes.
pub record Queued (env : Environment) (tx : ApiTransaction) (delay : ℤ) (w v : World) : Type 0 where
  pub body : String
  pub marshalled : env.json.marshal_transaction tx ≡ some body
  pub short : IsShort delay
  pub in_range : IsQueueDelay (whole_seconds delay)
  pub result : v ≡ record w { sent = (env.queue_url, body, whole_seconds delay) ∷ w.sent }

abbrev pub QueueOutcome : Environment → ApiTransaction → ℤ → World → Post (Unit {0})
QueueOutcome env tx delay w (ok _) v = Queued env tx delay w v
QueueOutcome env tx delay w (err e) v = (v ≡ w) ⊎ Queued env tx delay w v

IsQueueDelay-whole_seconds :
    (delay : ℤ) → not (bad_delay delay) ≡ true → IsQueueDelay (whole_seconds delay)
IsQueueDelay-whole_seconds (pos n) h = ground arith
IsQueueDelay-whole_seconds (negsuc n) h = ground arith

IsShort-delay : (delay : ℤ) → not (bad_delay delay) ≡ true → IsShort delay
IsShort-delay (pos n) h = ground arith
IsShort-delay (negsuc n) h = ground arith

module _ (env : Environment) where
  send_outcome :
      (tx : ApiTransaction) (delay : ℤ) (body : String) (w : World)
      → env.json.marshal_transaction tx ≡ some body
      → not (bad_delay delay) ≡ true
      → (r : Outcome (Unit {0})) (v : World)
      → Answers (send_message env.queue_url body (whole_seconds delay)) r w v
      → Ensures sequential
          (checked (λ e. wrap "failed to send message to SQS" (aws e)) r)
          v
          (QueueOutcome env tx delay w)
  send_outcome tx delay body w m good r v a =
      Ensures-checked _ r v (λ o e. queued r v a e) (λ f e. lost r v a)
    where
      sent :
          (v : World)
          → v ≡ record w { sent = (env.queue_url, body, whole_seconds delay) ∷ w.sent }
          → Queued env tx delay w v
      sent v same = record {
        body = body;
        marshalled = m;
        short = IsShort-delay delay good;
        in_range = IsQueueDelay-whole_seconds delay good;
        result = same;
      }

      queued :
          (r : Outcome (Unit {0})) (v : World)
          → Answers (send_message env.queue_url body (whole_seconds delay)) r w v
          → {o : Unit {0}} → r ≡ done o
          → Queued env tx delay w v
      queued (done _) v a e = sent v a
      queued (fault f) v a e = cc

      lost :
          (r : Outcome (Unit {0})) (v : World)
          → Answers (send_message env.queue_url body (whole_seconds delay)) r w v
          → (v ≡ w) ⊎ Queued env tx delay w v
      lost (done _) v a = inr (sent v a)
      lost (fault f) v (inl same) = inl same
      lost (fault f) v (inr next) = inr (sent v next)

  pub schedule_transaction-outcome :
      (tx : ApiTransaction) (delay : ℤ) (w : World)
      → Ensures sequential (schedule_transaction env tx delay) w (QueueOutcome env tx delay w)
  unfolding schedule_transaction
  schedule_transaction-outcome tx delay w =
      Ensures-item _ _ _ w
        (λ body m.
          Ensures-require _ _ _ w
            (λ good.
              Ensures-perform (send_message _ _ _) _ w tt
                λ r v a. send_outcome tx delay body w m good r v a)
            (inl refl))
        (λ _. inl refl)

  -- If the scheduler reports no error, one message with the transaction has been sent, the delay
  -- was between 0 and 15 minutes, and the queue was given a delay that it takes. If it reports an
  -- error, nothing has been sent, or the same message has been and the reply was lost; for any
  -- other delay, or where the transaction cannot be marshalled, nothing is sent.
  pub schedule_transaction-Outcome :
      (svc : Service) (tx : ApiTransaction) (delay : ℤ) (s : svc.State)
      → let (r, s') = run svc (schedule_transaction env tx delay) s in
        QueueOutcome env tx delay (svc.world s) r (svc.world s')
  schedule_transaction-Outcome svc tx delay s =
      run-Ensures svc (QueueOutcome env tx delay (svc.world s)) (schedule_transaction env tx delay)
        s (schedule_transaction-outcome tx delay (svc.world s))
