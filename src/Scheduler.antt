-- ===== src/Scheduler.antt =====
-- pkg/scheduler/sqs.go. A `time.Duration` is a number of nanoseconds.
pub mod Delays
use delayed_wallet_transacti.Prelude.{suc, ◌*◌, ◌/◌, ◌-◌, Bool, ◌||◌, not}
use delayed_wallet_transacti.Prelude.Int.{ℤ, pos, negsuc, sub_ℕ, leb_ℤ}
use delayed_wallet_transacti.Errors.{message, wrap, aws}
use delayed_wallet_transacti.Service.{send_message}
use delayed_wallet_transacti.Program.{Program, perform, checked, require, item_or, ◌>>=◌, ◌>>◌}
use delayed_wallet_transacti.Api.{ApiTransaction, Environment}

-- `time.Duration(n) * time.Second`
abbrev pub seconds : ℤ → ℤ
seconds (pos n) = pos (n * 1000000000)
seconds (negsuc n) = negsuc (suc n * 1000000000 - 1)

-- `int32(delay.Seconds())`
abbrev pub whole_seconds : ℤ → ℤ
whole_seconds (pos n) = pos (n / 1000000000)
whole_seconds (negsuc n) = sub_ℕ 0 (suc n / 1000000000)

-- `delay < 0 || delay > 15*time.Minute`
abbrev pub bad_delay : ℤ → Bool
bad_delay delay = not (leb_ℤ (pos 0) delay) || not (leb_ℤ delay (seconds (pos (15 * 60))))

module _ (env : Environment) where
  unfoldable pub schedule_transaction : ApiTransaction → (delay : ℤ) → Program (Unit {0})
  schedule_transaction tx delay = do
    body ←
        item_or (env.json.marshal_transaction tx) (message "failed to marshal transaction for SQS")
    require (not (bad_delay delay)) (message "delay must be between 0 and 15 minutes")
    reply ← perform (send_message env.queue_url body (whole_seconds delay))
    checked (λ e. wrap "failed to send message to SQS" (aws e)) reply
