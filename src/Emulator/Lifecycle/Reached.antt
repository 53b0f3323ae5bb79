-- ===== src/Emulator/Lifecycle/Reached.antt =====
-- What the daemon does to the world, whatever calls of `Start` and `Stop` it lives through.
use covenant.Prelude.{ℕ, ◌≡◌, refl, ap, subst, Option, Outcome, ok, panic, running}
use covenant.Machine.{World}
use covenant.Libraries.{Btc}
use covenant.Types.Params.{StakingParams}
use covenant.Emulator.Defs.{CovenantEmulator}
use covenant.Emulator.Retry.{RetryDo}
use covenant.Emulator.Retry.Attempts.{IsRetry}
use covenant.Emulator.Loop.{tick}
use covenant.Emulator.Loop.Acts.{Acts, none_yet, Acts-trans}
use covenant.Emulator.Loop.Survival.{Survives}
use covenant.Emulator.Loop.Ticks.{tick-Run}
use covenant.Emulator.Lifecycle.{
  Life, new, Step, Steps, start_adds, start_launches, ticker_fires, tick_ends, tick_panics,
  tick_hangs, quit_received, stop_closes, stop_returns, here, more,
}

module _ {b : Btc} {W : Type 0} (ce : CovenantEmulator b W) (start : World W) where
  -- The emulator is the one that was made, but for its parameters, and has done nothing but what
  -- `Act` lists.
  pub record IsBound (s : Life b W) : Type 0 where
    pub params : Option (StakingParams b)
    pub same : s.emulator ≡ record ce { params = params }
    pub acts : Acts ce start s.world

module _ {b : Btc} {W : Type 0} (ce : CovenantEmulator b W) (start : World W)
    (retry_do : RetryDo b W) (lawful : IsRetry retry_do) (fuel : ℕ) where
  -- What was done when the tick is over, however it ends.
  tick-Acts :
      (s : Life b W) (r : Outcome (CovenantEmulator b W)) (w : World W)
      → tick retry_do fuel s.emulator s.world ≡ (r, w)
      → IsBound ce start s
      → Acts ce start w
  tick-Acts s r w e i =
      let h : tick retry_do fuel (record ce { params = i.params }) s.world ≡ (r, w) =
        subst (λ x. tick retry_do fuel x s.world ≡ (r, w)) i.same e in
      let run = tick-Run ce retry_do lawful fuel i.params s.world in
      Acts-trans ce start s.world w i.acts (subst (Acts ce s.world) (ap (λ x. x.1) h) run.acts)

  tick-same :
      (s : Life b W) (ce' : CovenantEmulator b W) (w : World W)
      → tick retry_do fuel s.emulator s.world ≡ (ok ce', w)
      → IsBound ce start s
      → (params : Option (StakingParams b)) × (ce' ≡ record ce { params = params })
  tick-same s ce' w e i =
      let h : tick retry_do fuel (record ce { params = i.params }) s.world ≡ (ok ce', w) =
        subst (λ x. tick retry_do fuel x s.world ≡ (ok ce', w)) i.same e in
      let run = tick-Run ce retry_do lawful fuel i.params s.world in
      subst (Survives ce) (ap (λ r. r.0) h) run.survives

  Step-IsBound : (s t : Life b W) → Step retry_do fuel s t → IsBound ce start s → IsBound ce start t
  Step-IsBound s t (tick_ends {ce = ce'} {w = w} e h) i =
      let (params, same) = tick-same s ce' w h i in
      record { params = params; same = same; acts = tick-Acts s (ok ce') w h i }
  Step-IsBound s t (tick_panics {p = p} {w = w} e h) i = record {
    params = i.params;
    same = i.same;
    acts = tick-Acts s (panic p) w h i;
  }
  Step-IsBound s t (tick_hangs {w = w} e h) i = record {
    params = i.params;
    same = i.same;
    acts = tick-Acts s running w h i;
  }
  Step-IsBound s t (start_adds e) i = record { params = i.params; same = i.same; acts = i.acts }
  Step-IsBound s t (start_launches e) i = record { params = i.params; same = i.same; acts = i.acts }
  Step-IsBound s t (ticker_fires e) i = record { params = i.params; same = i.same; acts = i.acts }
  Step-IsBound s t (quit_received e q) i = record {
    params = i.params;
    same = i.same;
    acts = i.acts;
  }
  Step-IsBound s t (stop_closes e a) i = record { params = i.params; same = i.same; acts = i.acts }
  Step-IsBound s t (stop_returns e z) i = record { params = i.params; same = i.same; acts = i.acts }

  pub Steps-IsBound :
      (s t : Life b W) → Steps retry_do fuel s t → IsBound ce start s → IsBound ce start t
  Steps-IsBound s t here i = i
  Steps-IsBound s t (more {t = x} k e) i = Step-IsBound x t e (Steps-IsBound s x k i)

  -- With a `retry.Do` that is as documented: in every interleaving of `Start`, `Stop` and the loop,
  -- a tick that panics or never returns included, the daemon reads its key, queries the chain, and
  -- submits signatures, certified under parameters that it had fetched, for delegations that the
  -- chain answered with as pending right after that and that had none by its key; it does nothing
  -- else, and nothing of the emulator but its parameters changes.
  pub reached-IsBound : (t : Life b W) → Steps retry_do fuel (new ce start) t → IsBound ce start t
  reached-IsBound t k =
      Steps-IsBound (new ce start) t k (record { params = ce.params; same = refl; acts = none_yet })
