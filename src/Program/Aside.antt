-- ===== src/Program/Aside.antt =====
-- Parts of a program whose outcome does not matter, on a reliable service: they change what they
-- may, and the service answers as promptly as before.
use delayed_wallet_transacti.Prelude.{String, List}
use delayed_wallet_transacti.Service.{World, Call, Service}
use delayed_wallet_transacti.Service.Reliable.{Reliable, IsNotUuid}
use delayed_wallet_transacti.Program.{
  Result, ok, err, Program, pure, throw, call, ◌>>=◌, attempt, run,
}
use delayed_wallet_transacti.Program.Issues.{AllCalls, Issues}
use delayed_wallet_transacti.Program.Schedule.{Guarantee, Keeps}
use delayed_wallet_transacti.Program.Succeeds.{Good, Succeeds}

module _ (svc : Service) (rel : Reliable svc) (g : Guarantee) where
  -- It keeps to the guarantee, and takes no UUID.
  abbrev pub Minor : Call → Type 0
  Minor c = IsNotUuid c × Keeps g c

  abbrev pub Passed : List String → World → svc.State → Type 0
  Passed ids w t = rel.Ready ids t × g.Rel w (svc.world t)

  module _ (ids : List String) (w : World) where
    call-Passed :
        (c : Call) (s : svc.State) → Minor c → Passed ids w s → Passed ids w (svc.perform c s).1
    call-Passed c s (n, keeps) (ready, rel_w) =
        (rel.stays ids c s n ready, g.after w (svc.world s) _ rel_w (keeps _ _ _ (svc.obeys c s)))

    module _ {A B : Type 0} (f : Result A → Program B) {Q : B → svc.State → Type 0}
        (next : (r : Result A) (t : svc.State) → Passed ids w t → Succeeds svc (f r) t Q) where
      Good-aside :
          (p : Program A) (s : svc.State)
          → AllCalls Minor p
          → Passed ids w s
          → Good svc Q (run svc (attempt p >>= f) s)
      unfolding run attempt ◌>>=◌
      Good-aside (pure a) s h passed = (next (ok a) s passed).at
      Good-aside (throw e) s h passed = (next (err e) s passed).at
      Good-aside (call c k) s h passed =
          Good-aside (k (svc.perform c s).0) (svc.perform c s).1 (h.1 _)
            (call-Passed c s h.0 passed)

  pub Succeeds-aside :
      {A B : Type 0} (ids : List String) (f : Result A → Program B) {Q : B → svc.State → Type 0}
      (p : Program A) (s : svc.State)
      → Issues Minor p
      → rel.Ready ids s
      → ((r : Result A) (t : svc.State) → Passed ids (svc.world s) t → Succeeds svc (f r) t Q)
      → Succeeds svc (attempt p >>= f) s Q
  Succeeds-aside ids f p s h ready next = record {
    at = Good-aside ids (svc.world s) f next p s h.calls (ready, g.same (svc.world s));
  }
