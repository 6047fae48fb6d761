-- ===== src/Program/Runs.antt =====
-- The run of a block is the run of its first part, and then of its rest; a run is told by the
-- reply to its first call.
use delayed_wallet_transacti.Prelude.{◌≡◌, refl}
use delayed_wallet_transacti.Service.{Service, Call, Reply, World, Answers}
use delayed_wallet_transacti.Program.Ensures.{Post, Ensures, sequential, run-Ensures}
use delayed_wallet_transacti.Program.{
  Result, ok, err, Program, pure, throw, call, ◌>>=◌, attempt, run,
}

module _ (svc : Service) {A B : Type 0} where
  abbrev pub continued : (A → Program B) → Result A × svc.State → Result B × svc.State
  continued f (ok a, s) = run svc (f a) s
  continued f (err e, s) = (err e, s)

  pub run-bind :
      (p : Program A) (f : A → Program B) (s : svc.State)
      → run svc (p >>= f) s ≡ continued f (run svc p s)
  unfolding run ◌>>=◌
  run-bind (pure a) f s = refl
  run-bind (throw e) f s = refl
  run-bind (call c k) f s = run-bind (k (svc.perform c s).0) f (svc.perform c s).1

  pub run-attempt :
      (p : Program A) (f : Result A → Program B) (s : svc.State)
      → run svc (attempt p >>= f) s ≡ run svc (f (run svc p s).0) (run svc p s).1
  unfolding run ◌>>=◌ attempt
  run-attempt (pure a) f s = refl
  run-attempt (throw e) f s = refl
  run-attempt (call c k) f s = run-attempt (k (svc.perform c s).0) f (svc.perform c s).1

module _ (svc : Service) {A : Type 0} (c : Call) (k : Reply c → Program A)
    (Q : Reply c → Post A) where
  run_first :
      (s : svc.State) → run svc (call c k) s ≡ run svc (k (svc.perform c s).0) (svc.perform c s).1
  unfolding run
  run_first s = refl

  -- What holds at the end of a program, by the reply that it got to its first call.
  pub run-reply :
      (p : Program A) (s : svc.State)
      → p ≡ call c k
      → ((r : Reply c) (v : World) → Answers c r (svc.world s) v → Ensures sequential (k r) v (Q r))
      → Q (svc.perform c s).0 (run svc p s).0 (svc.world (run svc p s).1)
  run-reply p s e h =
      let (reply, t) = svc.perform c s in
      rw e (
        rw (run_first s)
          (run-Ensures svc (Q reply) (k reply) t (h reply (svc.world t) (svc.obeys c s))))
