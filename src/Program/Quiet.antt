-- ===== src/Program/Quiet.antt =====
-- Calls that change nothing: the clock, the UUID generator and the reads.
use mathlib.Core.Path.{subst}
use delayed_wallet_transacti.Prelude.{◌≡◌, sym}
use delayed_wallet_transacti.Service.{
  Call, Reply, World, Answers, done, fault, time_now, new_uuid, get_wallet_item,
  get_transaction_item, write_item,
}
use delayed_wallet_transacti.Program.{Program, ◌>>=◌, perform}
use delayed_wallet_transacti.Program.Ensures.{Post, Ensures, sequential, Ensures-perform}

abbrev pub IsQuiet : Call → Type 0
IsQuiet time_now = Unit
IsQuiet new_uuid = Unit
IsQuiet (get_wallet_item _) = Unit
IsQuiet (get_transaction_item _) = Unit
IsQuiet _ = ⊥

pub quiet_world : (c : Call) → IsQuiet c → (r : Reply c) (w v : World) → Answers c r w v → v ≡ w
quiet_world time_now q r w v a = a
quiet_world new_uuid q r w v a = a
quiet_world (get_wallet_item k) q (done o) w v a = a.3
quiet_world (get_wallet_item k) q (fault e) w v a = a
quiet_world (get_transaction_item k) q (done o) w v a = a.3
quiet_world (get_transaction_item k) q (fault e) w v a = a
quiet_world (write_item x) q r w v a = elim q [ ]
quiet_world _ q r w v a = elim q [ ]

module _ (c : Call) {B : Type 0} (f : Reply c → Program B) {Q : Post B} where
  pub Ensures-quiet :
      (w : World)
      → IsQuiet c
      → ((r : Reply c) → Answers c r w w → Ensures sequential (f r) w Q)
      → Ensures sequential (perform c >>= f) w Q
  Ensures-quiet w q next = Ensures-perform c f w tt λ r v a.
      subst (λ v. Answers c r w v → Ensures sequential (f r) v Q) (sym (quiet_world c q r w v a))
        (next r) a
