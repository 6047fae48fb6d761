-- ===== src/Program/Shared.antt =====
-- Programs that share the services with others: between two of their calls the world may move on.
-- What a program has learnt must outlast that, and each of its calls must leave the world sound.
use delayed_wallet_transacti.Prelude.{ℕ, zero, suc, List, [], ◌∷◌, All}
use delayed_wallet_transacti.Service.{Call, Reply, World, Answers, Service}
use delayed_wallet_transacti.Program.{Program, pure, throw, call}
use delayed_wallet_transacti.Program.Issues.{AllCalls, Issues}
use delayed_wallet_transacti.Program.Ensures.{Logic, Post, Holds, Ensures}
use delayed_wallet_transacti.Program.Schedule.{advance, turn, interleave}

-- The worlds that occur, and how one comes before another.
pub record Discipline : Type 1 where
  pub Sound : World → Type 0
  pub Future : World → World → Type 0
  pub same : (w : World) → Future w w
  pub after : (u v w : World) → Future u v → Future v w → Future u w

-- A call that keeps the world sound, made in the world `u`.
abbrev pub Sustains : Discipline → Call → World → Type 0
Sustains m c u = (r : Reply c) (v : World) → m.Sound u → Answers c r u v → m.Sound v × m.Future u v

-- A call that may be made at any time.
abbrev pub Always : Discipline → Call → Type 0
Always m c = (u : World) → Sustains m c u

-- The call is made in some later world, and the program goes on from the world that it leaves.
abbrev pub shared : Discipline → Logic
shared m = record {
  Allowed = λ c w. (u : World) → m.Future w u → Sustains m c u;
  Behaves = λ c r w v. (u : World) × m.Future w u × m.Sound u × Answers c r u v × m.Sound v;
}

abbrev pub Done : {A : Type 0} → Post A
Done r v = Unit

module _ (m : Discipline) {A : Type 0} where
  Always-Holds :
      (p : Program A) (u w : World)
      → m.Future u w
      → AllCalls (Always m) p
      → Holds (shared m) p w (λ r v. m.Future u v)
  Always-Holds (pure a) u w f h = f
  Always-Holds (throw e) u w f h = f
  Always-Holds (call c k) u w f h = (
    λ z before. h.0 z,
    λ r v (z, before, sound, a, _).
        Always-Holds (k r) u v (m.after u z v (m.after u w z f before) (h.0 z r v sound a).1)
          (h.1 r),
  )

  -- A program whose calls may be made at any time.
  pub Ensures-Always :
      (p : Program A) (w : World)
      → Issues (Always m) p
      → Ensures (shared m) p w (λ r v. m.Future w v)
  Ensures-Always p w h = record { at = Always-Holds p w w (m.same w) h.calls }

  Holds-Future :
      (p : Program A) (u w : World)
      → m.Future u w
      → Holds (shared m) p w Done
      → Holds (shared m) p w (λ r v. m.Future u v)
  Holds-Future (pure a) u w f h = f
  Holds-Future (throw e) u w f h = f
  Holds-Future (call c k) u w f h = (
    h.0,
    λ r v (z, before, sound, a, sound').
        Holds-Future (k r) u v (m.after u z v (m.after u w z f before) (h.0 z before r v sound a).1)
          (h.1 r v (z, before, sound, a, sound')),
  )

  -- Whatever a program does, the world moves on.
  pub Ensures-Future :
      (p : Program A) (w : World)
      → Ensures (shared m) p w Done
      → Ensures (shared m) p w (λ r v. m.Future w v)
  Ensures-Future p w h = record { at = Holds-Future p w w (m.same w) h.at }

  later_Holds :
      (p : Program A) (w z : World)
      → m.Future w z
      → Holds (shared m) p w Done
      → Holds (shared m) p z Done
  later_Holds (pure a) w z f h = tt
  later_Holds (throw e) w z f h = tt
  later_Holds (call c k) w z f h = (
    λ u before. h.0 u (m.after w z u f before),
    λ r v (u, before, sound, a, sound'). h.1 r v (u, m.after w z u f before, sound, a, sound'),
  )

module _ (svc : Service) (m : Discipline) {A : Type 0} where
  abbrev Safe : World → List (Program A) → Type 0
  Safe w ps = All (λ p. Ensures (shared m) p w Done) ps

  later-Safe : (ps : List (Program A)) (w z : World) → m.Future w z → Safe w ps → Safe z ps
  later-Safe [] w z f h = tt
  later-Safe (p ∷ ps) w z f h =
      (record { at = later_Holds m p w z f h.0.at }, later-Safe ps w z f h.1)

  -- What a step of some of the programs leaves behind.
  abbrev Kept : World → List (Program A) → World → Type 0
  Kept w ps v = Safe v ps × m.Sound v × m.Future w v

  advance-Kept :
      (p : Program A) (s : svc.State)
      → m.Sound (svc.world s)
      → Holds (shared m) p (svc.world s) Done
      → let (p', s') = advance svc p s in
        Holds (shared m) p' (svc.world s') Done
        × m.Sound (svc.world s')
        × m.Future (svc.world s) (svc.world s')
  unfolding advance
  advance-Kept (pure a) s sound h = (tt, sound, m.same _)
  advance-Kept (throw e) s sound h = (tt, sound, m.same _)
  advance-Kept (call c k) s sound h =
      let a = svc.obeys c s in
      let (sound', f) = h.0 (svc.world s) (m.same _) _ _ sound a in
      (h.1 _ _ (svc.world s, m.same _, sound, a, sound'), sound', f)

  turn-Kept :
      (i : ℕ) (ps : List (Program A)) (s : svc.State)
      → m.Sound (svc.world s)
      → Safe (svc.world s) ps
      → let (ps', s') = turn svc i ps s in Kept (svc.world s) ps' (svc.world s')
  unfolding turn
  turn-Kept i [] s sound h = (tt, sound, m.same _)
  turn-Kept zero (p ∷ ps) s sound h =
      let (h', sound', f) = advance-Kept p s sound h.0.at in
      ((record { at = h' }, later-Safe ps _ _ f h.1), sound', f)
  turn-Kept (suc i) (p ∷ ps) s sound h =
      let (h', sound', f) = turn-Kept i ps s sound h.1 in
      ((record { at = later_Holds m p _ _ f h.0.at }, h'), sound', f)

  -- Whatever the order of the calls, the world stays sound.
  pub interleave-Sound :
      (is : List ℕ) (ps : List (Program A)) (s : svc.State)
      → m.Sound (svc.world s)
      → All (λ p. Ensures (shared m) p (svc.world s) Done) ps
      → let v = svc.world (interleave svc is ps s).1 in m.Sound v × m.Future (svc.world s) v
  unfolding interleave
  interleave-Sound [] ps s sound h = (sound, m.same _)
  interleave-Sound (i ∷ is) ps s sound h =
      let (h', sound', f) = turn-Kept i ps s sound h in
      let (sound'', g) = interleave-Sound is _ _ sound' h' in (sound'', m.after _ _ _ f g)
