-- ===== src/Emulator/Lifecycle/Stopping.antt =====
-- What a `Stop` that has returned means.
use covenant.Prelude.{ℕ, ◌≡◌, ◌≢◌, refl, sym, subst, ◌∙◌}
use covenant.Machine.{World}
use covenant.Libraries.{Btc}
use covenant.Emulator.Defs.{CovenantEmulator}
use covenant.Emulator.Retry.{RetryDo}
use covenant.Emulator.Lifecycle.{
  Phase, idle, under_way, finished, LoopState, not_launched, selecting, ticking, returned, hung,
  crashed, Life, new, Step, Steps, start_adds, start_launches, ticker_fires, tick_ends, tick_panics,
  tick_hangs, quit_received, stop_closes, stop_returns, here, more,
}
use covenant.Emulator.Lifecycle.Order.{
  IsOrdered, IsLaunched, outstanding, launched_by_finished, new-IsOrdered, Step-IsOrdered,
  Steps-IsOrdered,
}

pub idle_not_finished : idle ≢ finished
idle_not_finished h = cc

not_launched_not_returned : not_launched ≢ returned
not_launched_not_returned h = cc

pub returned_not_not_launched : returned ≢ not_launched
returned_not_not_launched h = cc

selecting_not_returned : selecting ≢ returned
selecting_not_returned h = cc

ticking_not_returned : ticking ≢ returned
ticking_not_returned h = cc

pub under_way_not_finished : under_way ≢ finished
under_way_not_finished h = cc

outstanding_zero : (p : Phase) (l : LoopState) → p ≢ idle → outstanding p l ≡ 0 → l ≡ returned
outstanding_zero idle l h e = absurd (h refl)
outstanding_zero under_way l h e = cc
outstanding_zero finished returned h e = refl
outstanding_zero finished not_launched h e = cc
outstanding_zero finished selecting h e = cc
outstanding_zero finished ticking h e = cc
outstanding_zero finished hung h e = cc
outstanding_zero finished crashed h e = cc

module _ {b : Btc} {W : Type 0} (retry_do : RetryDo b W) (fuel : ℕ) where
  -- `Start` was called, and if `Stop` has returned, so has the loop.
  pub record IsAwaited (s : Life b W) : Type 0 where
    pub started : s.start_once ≢ idle
    pub waited : s.stop_once ≡ finished → s.loop ≡ returned

  pub Step-IsAwaited :
      (s t : Life b W) → Step retry_do fuel s t → IsOrdered s → IsAwaited s → IsAwaited t
  Step-IsAwaited s t (start_adds e) o i = absurd (i.started e)
  Step-IsAwaited s t (start_launches e) o i = record {
    started = λ h. cc;
    waited = λ f. absurd (
        not_launched_not_returned
          (sym (subst (λ p. IsLaunched p s.loop) e o.launched) ∙ i.waited f));
  }
  Step-IsAwaited s t (ticker_fires e) o i = record {
    started = i.started;
    waited = λ f. absurd (selecting_not_returned (sym e ∙ i.waited f));
  }
  Step-IsAwaited s t (tick_ends e h) o i = record {
    started = i.started;
    waited = λ f. absurd (ticking_not_returned (sym e ∙ i.waited f));
  }
  Step-IsAwaited s t (tick_panics e h) o i = record {
    started = i.started;
    waited = λ f. absurd (ticking_not_returned (sym e ∙ i.waited f));
  }
  Step-IsAwaited s t (tick_hangs e h) o i = record {
    started = i.started;
    waited = λ f. absurd (ticking_not_returned (sym e ∙ i.waited f));
  }
  Step-IsAwaited s t (quit_received e q) o i = record { started = i.started; waited = λ f. refl }
  Step-IsAwaited s t (stop_closes e a) o i = record { started = i.started; waited = λ f. cc }
  Step-IsAwaited s t (stop_returns e z) o i = record {
    started = i.started;
    waited = λ f. outstanding_zero s.start_once s.loop i.started (sym o.counted ∙ z);
  }

  Steps-IsAwaited :
      (s t : Life b W)
      → Steps retry_do fuel s t
      → IsOrdered s
      → IsAwaited s
      → IsOrdered t × IsAwaited t
  Steps-IsAwaited s t here o i = (o, i)
  Steps-IsAwaited s t (more {t = x} k e) o i =
      let (o', i') = Steps-IsAwaited s x k o i in
      (Step-IsOrdered retry_do fuel x t e o', Step-IsAwaited x t e o' i')

  -- The loop has returned and `w` is the world that it left.
  pub record IsOver (w : World W) (s : Life b W) : Type 0 where
    pub over : s.loop ≡ returned
    pub launched : s.start_once ≡ finished
    pub left : s.world ≡ w

  Step-IsOver : (w : World W) (s t : Life b W) → Step retry_do fuel s t → IsOver w s → IsOver w t
  Step-IsOver w s t (start_adds e) i = absurd (idle_not_finished (sym e ∙ i.launched))
  Step-IsOver w s t (start_launches e) i = absurd (under_way_not_finished (sym e ∙ i.launched))
  Step-IsOver w s t (ticker_fires e) i = absurd (selecting_not_returned (sym e ∙ i.over))
  Step-IsOver w s t (tick_ends e h) i = absurd (ticking_not_returned (sym e ∙ i.over))
  Step-IsOver w s t (tick_panics e h) i = absurd (ticking_not_returned (sym e ∙ i.over))
  Step-IsOver w s t (tick_hangs e h) i = absurd (ticking_not_returned (sym e ∙ i.over))
  Step-IsOver w s t (quit_received e q) i = absurd (selecting_not_returned (sym e ∙ i.over))
  Step-IsOver w s t (stop_closes e a) i = record {
    over = i.over;
    launched = i.launched;
    left = i.left;
  }
  Step-IsOver w s t (stop_returns e z) i = record {
    over = i.over;
    launched = i.launched;
    left = i.left;
  }

  pub Steps-IsOver :
      (w : World W) (s t : Life b W) → Steps retry_do fuel s t → IsOver w s → IsOver w t
  Steps-IsOver w s t here i = i
  Steps-IsOver w s t (more {t = x} k e) i = Step-IsOver w x t e (Steps-IsOver w s x k i)

  -- Take a state in which `Start` has been called and `Stop` has not returned. In every state `t`
  -- that follows and in which `Stop` has returned, the loop has returned, and the world stays as it
  -- is in `t` for good: nothing more is submitted.
  pub stop_waits :
      (ce : CovenantEmulator b W) (w : World W) (s t u : Life b W)
      → Steps retry_do fuel (new ce w) s
      → s.start_once ≢ idle
      → s.stop_once ≢ finished
      → Steps retry_do fuel s t
      → t.stop_once ≡ finished
      → Steps retry_do fuel t u
      → (t.loop ≡ returned) × (u.world ≡ t.world)
  stop_waits ce w s t u reached started unfinished run f later =
      let (o, i) =
        Steps-IsAwaited s t run
          (Steps-IsOrdered retry_do fuel (new ce w) s reached (new-IsOrdered ce w))
          (record { started = started; waited = λ h. absurd (unfinished h) }) in
      let over = i.waited f in
      let end = Steps-IsOver t.world t u later (record {
        over = over;
        launched =
            launched_by_finished t.start_once t.loop o.launched
              (λ h. returned_not_not_launched (sym over ∙ h));
        left = refl;
      }) in
      (over, end.left)
