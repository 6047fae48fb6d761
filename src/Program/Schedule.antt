-- ===== src/Program/Schedule.antt =====
-- Any number of programs at once, on one service: a schedule says whose next call is made. The
-- calls themselves are atomic, as DynamoDB's are.
use delayed_wallet_transacti.Prelude.{ℕ, zero, suc, List, [], ◌∷◌, All}
use delayed_wallet_transacti.Service.{Call, Reply, World, Answers, Service}
use delayed_wallet_transacti.Program.{ok, err, Program, pure, throw, call, attempt, ◌>>=◌}
use delayed_wallet_transacti.Program.Issues.{AllCalls, Issues}
use delayed_wallet_transacti.Program.Ensures.{
  Post, Holds, Ensures, sequential, Ensures-attempt, Ensures-pure,
}

-- A relation between an earlier and a later world, and the calls that keep to it.
pub record Guarantee : Type 1 where
  pub Rel : World → World → Type 0
  pub same : (w : World) → Rel w w
  pub after : (u v w : World) → Rel u v → Rel v w → Rel u w

abbrev pub Keeps : Guarantee → Call → Type 0
Keeps g c = (r : Reply c) (w v : World) → Answers c r w v → g.Rel w v

module _ (svc : Service) where
  -- One call of a program; one that has ended stays as it is.
  unfoldable pub advance : {A : Type 0} → Program A → svc.State → Program A × svc.State
  advance (pure a) s = (pure a, s)
  advance (throw e) s = (throw e, s)
  advance (call c k) s = let (r, s') = svc.perform c s in (k r, s')

  unfoldable pub turn :
      {A : Type 0} → ℕ → List (Program A) → svc.State → List (Program A) × svc.State
  unfolding advance
  turn i [] s = ([], s)
  turn zero (p ∷ ps) s = let (p', s') = advance p s in (p' ∷ ps, s')
  turn (suc i) (p ∷ ps) s = let (ps', s') = turn i ps s in (p ∷ ps', s')

  unfoldable pub interleave :
      {A : Type 0} → List ℕ → List (Program A) → svc.State → List (Program A) × svc.State
  unfolding turn
  interleave [] ps s = (ps, s)
  interleave (i ∷ is) ps s = let (ps', s') = turn i ps s in interleave is ps' s'

module _ (svc : Service) (g : Guarantee) {A : Type 0} where
  abbrev Guarded : List (Program A) → Type 0
  Guarded ps = All (λ p. Issues (Keeps g) p) ps

  advance-Rel :
      (p : Program A) (s : svc.State)
      → Issues (Keeps g) p
      → Issues (Keeps g) (advance svc p s).0 × g.Rel (svc.world s) (svc.world (advance svc p s).1)
  unfolding advance
  advance-Rel (pure a) s h = (h, g.same _)
  advance-Rel (throw e) s h = (h, g.same _)
  advance-Rel (call c k) s h = (record { calls = h.calls.1 _ }, h.calls.0 _ _ _ (svc.obeys c s))

  turn-Rel :
      (i : ℕ) (ps : List (Program A)) (s : svc.State)
      → Guarded ps
      → Guarded (turn svc i ps s).0 × g.Rel (svc.world s) (svc.world (turn svc i ps s).1)
  unfolding turn
  turn-Rel i [] s h = (tt, g.same _)
  turn-Rel zero (p ∷ ps) s h = let (h', rel) = advance-Rel p s h.0 in ((h', h.1), rel)
  turn-Rel (suc i) (p ∷ ps) s h = let (h', rel) = turn-Rel i ps s h.1 in ((h.0, h'), rel)

  -- Whatever the order of the calls, the guarantee holds from the start to the end.
  pub interleave-Rel :
      (is : List ℕ) (ps : List (Program A)) (s : svc.State)
      → All (λ p. Issues (Keeps g) p) ps
      → g.Rel (svc.world s) (svc.world (interleave svc is ps s).1)
  unfolding interleave
  interleave-Rel [] ps s h = g.same _
  interleave-Rel (i ∷ is) ps s h =
      let (ps', s') = turn svc i ps s in
      let (h', rel) = turn-Rel i ps s h in g.after _ _ _ rel (interleave-Rel is ps' s' h')

-- The guarantee, and no error.
abbrev pub Smoothly : Guarantee → {B : Type 0} → World → Post B
Smoothly g w (ok b) v = g.Rel w v
Smoothly g w (err e) v = ⊥

module _ (g : Guarantee) {A : Type 0} where
  Keeps-Holds :
      (p : Program A) (u w : World)
      → g.Rel u w
      → AllCalls (Keeps g) p
      → Holds sequential p w (λ r v. g.Rel u v)
  Keeps-Holds (pure a) u w rel h = rel
  Keeps-Holds (throw e) u w rel h = rel
  Keeps-Holds (call c k) u w rel h =
      (tt, λ r v a. Keeps-Holds (k r) u v (g.after u w v rel (h.0 r w v a)) (h.1 r))

  -- A program alone keeps to the guarantee too.
  pub Ensures-Keeps :
      (p : Program A) (w : World) → Issues (Keeps g) p → Ensures sequential p w (λ r v. g.Rel w v)
  Ensures-Keeps p w h = record { at = Keeps-Holds p w w (g.same w) h.calls }

  -- A program whose error is dropped.
  pub Ensures-dropped :
      (p : Program A) (w : World)
      → Issues (Keeps g) p
      → Ensures sequential (attempt p >>= λ _. pure tt) w (Smoothly g w)
  Ensures-dropped p w h =
      Ensures-attempt _ (λ r v. g.Rel w v) p w (Ensures-Keeps p w h)
        λ r v rel. Ensures-pure tt v rel
