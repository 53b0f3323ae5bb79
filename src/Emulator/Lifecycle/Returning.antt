-- ===== src/Emulator/Lifecycle/Returning.antt =====
-- That a `Stop` that waits can return, and what a `Start` does that comes after it.
use covenant.Prelude.{ℕ, suc, ◌-◌, ◌≡◌, refl, ap, ◌∙◌, true}
use covenant.Machine.{World}
use covenant.Libraries.{Btc}
use covenant.Emulator.Defs.{CovenantEmulator}
use covenant.Emulator.Retry.{RetryDo}
use covenant.Emulator.Lifecycle.{
  Phase, idle, under_way, finished, LoopState, not_launched, selecting, ticking, returned, hung,
  crashed, Life, new, Steps, start_adds, start_launches, ticker_fires, quit_received, stop_returns,
  here, more,
}
use covenant.Emulator.Lifecycle.Order.{
  IsLaunched, outstanding, is_closed, new-IsOrdered, Steps-IsOrdered,
}

-- No tick is under way, and none has panicked or hangs.
abbrev pub IsAtRest : LoopState → Type 0
IsAtRest not_launched = Unit
IsAtRest selecting = Unit
IsAtRest returned = Unit
IsAtRest ticking = ⊥
IsAtRest hung = ⊥
IsAtRest crashed = ⊥

module _ {b : Btc} {W : Type 0} (retry_do : RetryDo b W) (fuel : ℕ) where
  Steps-trans :
      (s t u : Life b W)
      → Steps retry_do fuel s t
      → Steps retry_do fuel t u
      → Steps retry_do fuel s u
  Steps-trans s t u h here = h
  Steps-trans s t u h (more {t = x} k e) = more (Steps-trans s t x h k) e

  -- `Stop` can return, with no tick in between.
  record CanReturn (s : Life b W) : Type 0 where
    last : Life b W
    steps : Steps retry_do fuel s last
    done : last.stop_once ≡ finished
    same_world : last.world ≡ s.world

  return_from : (s : Life b W) → s.stop_once ≡ under_way → s.wg ≡ 0 → CanReturn s
  return_from s e z = record {
    last = record s { stop_once = finished };
    steps = more here (stop_returns e z);
    done = refl;
    same_world = refl;
  }

  quit_from :
      (s : Life b W)
      → s.stop_once ≡ under_way
      → s.loop ≡ selecting
      → s.quit ≡ true
      → s.wg ≡ 1
      → CanReturn s
  quit_from s e l q z =
      let exited : Life b W = record s { loop = returned; wg = s.wg - 1 } in
      let r = return_from exited e (ap (λ n. n - 1) z) in
      record {
        last = r.last;
        steps = Steps-trans s exited r.last (more here (quit_received l q)) r.steps;
        done = r.done;
        same_world = r.same_world;
      }

  launch_from :
      (s : Life b W)
      → s.stop_once ≡ under_way
      → s.start_once ≡ under_way
      → s.quit ≡ true
      → s.wg ≡ 1
      → CanReturn s
  launch_from s e f q z =
      let launched : Life b W = record s { start_once = finished; loop = selecting } in
      let r = quit_from launched e refl q z in
      record {
        last = r.last;
        steps = Steps-trans s launched r.last (more here (start_launches f)) r.steps;
        done = r.done;
        same_world = r.same_world;
      }

  can_return :
      (s : Life b W) (p : Phase) (l : LoopState)
      → s.start_once ≡ p
      → s.loop ≡ l
      → s.stop_once ≡ under_way
      → s.quit ≡ true
      → s.wg ≡ outstanding p l
      → IsLaunched p l
      → IsAtRest l
      → CanReturn s
  can_return s idle l f g e q z h k = return_from s e z
  can_return s under_way l f g e q z h k = launch_from s e f q z
  can_return s finished selecting f g e q z h k = quit_from s e g q z
  can_return s finished returned f g e q z h k = return_from s e z
  can_return s finished ticking f g e q z h k = absurd k
  can_return s finished hung f g e q z h k = absurd k
  can_return s finished crashed f g e q z h k = absurd k
  can_return s finished not_launched f g e q z h k = absurd (h refl)

  -- `Stop` does not deadlock: from every reachable state in which it waits, no tick is under way and
  -- none has panicked or hangs, there are steps of the program, none of them a tick, after which it has returned.
  pub stop_can_return :
      (ce : CovenantEmulator b W) (w : World W) (s : Life b W)
      → Steps retry_do fuel (new ce w) s
      → s.stop_once ≡ under_way
      → IsAtRest s.loop
      → (t : Life b W) × Steps retry_do fuel s t × (t.stop_once ≡ finished) × (t.world ≡ s.world)
  stop_can_return ce w s reached e k =
      let o = Steps-IsOrdered retry_do fuel (new ce w) s reached (new-IsOrdered ce w) in
      let r =
        can_return s s.start_once s.loop refl refl e (o.closed ∙ ap is_closed e) o.counted
          o.launched k in
      (r.last, r.steps, r.done, r.same_world)

  -- A `Start` that comes after `Stop` has returned launches the loop all the same, and it can take
  -- the ticker's branch.
  pub start_after_stop :
      (s : Life b W)
      → s.start_once ≡ idle
      → s.stop_once ≡ finished
      → (t : Life b W) × Steps retry_do fuel s t × (t.stop_once ≡ finished) × (t.loop ≡ ticking)
  start_after_stop s e f = (
    record s { start_once = finished; wg = suc s.wg; loop = ticking },
    more (more (more here (start_adds e)) (start_launches refl)) (ticker_fires refl),
    f,
    refl,
  )
