-- ===== src/Service/Returning.antt =====
-- That `RunUntilShutdown` can return once the signal has come.
use mathlib.Core.Path.{ap₂}
use covenant.Prelude.{ℕ, ◌-◌, ◌≡◌, refl, ap, sym, subst, ◌∙◌, inl, inr, true}
use covenant.Machine.{World}
use covenant.Libraries.{Btc}
use covenant.Emulator.Defs.{CovenantEmulator}
use covenant.Emulator.Retry.{RetryDo}
use covenant.Emulator.Lifecycle
use covenant.Emulator.Lifecycle.{
  Life, under_way, finished, selecting, IsAlive, start_adds, start_launches, ticker_fires,
  tick_ends, tick_panics, tick_hangs, quit_received, stop_closes,
}
use covenant.Emulator.Lifecycle.Order.{outstanding}
use covenant.Service.{
  waiting, returned, Server, new, Step, Steps, first_call, later_call, start_returns, signalled,
  signal_received, stop_returns, lives, here, more,
}
use covenant.Service.Phases.{Phases, reached-IsServed}

module _ {b : Btc} {W : Type 0} {retry_do : RetryDo b W} {fuel : ℕ} where
  -- The step is not one of a tick.
  abbrev pub IsTickless : {l l' : Life b W} → Lifecycle.Step retry_do fuel l l' → Type 0
  IsTickless (start_adds e) = Unit
  IsTickless (start_launches e) = Unit
  IsTickless (ticker_fires e) = ⊥
  IsTickless (tick_ends e h) = ⊥
  IsTickless (tick_panics e h) = ⊥
  IsTickless (tick_hangs e h) = ⊥
  IsTickless (quit_received e q) = Unit
  IsTickless (stop_closes e a) = Unit
  IsTickless (Lifecycle.stop_returns e z) = Unit

  abbrev pub IsTicklessStep : {s t : Server b W} → Step retry_do fuel s t → Type 0
  IsTicklessStep (first_call n e) = Unit
  IsTicklessStep (later_call n k a) = Unit
  IsTicklessStep (start_returns e f a) = Unit
  IsTicklessStep (signalled a) = Unit
  IsTicklessStep (signal_received e f a) = Unit
  IsTicklessStep (stop_returns e f) = Unit
  IsTicklessStep (lives step e f) = IsTickless step

  -- None of the steps is one of a tick.
  abbrev pub AreTickless : {s t : Server b W} → Steps retry_do fuel s t → Type 0
  AreTickless here = Unit
  AreTickless (more k step) = AreTickless k × IsTicklessStep step

module _ {b : Btc} {W : Type 0} (retry_do : RetryDo b W) (fuel : ℕ) where
  -- From every reachable state in which `RunUntilShutdown` waits and the loop is at its `select`
  -- there are steps, none of them one of a tick, after which the signal has come, the call has
  -- returned, and the world is as it was.
  pub run_until_shutdown_returns :
      (ce : CovenantEmulator b W) (w : World W) (s : Server b W)
      → Steps retry_do fuel (new ce w) s
      → s.runner ≡ waiting
      → s.life.loop ≡ selecting
      → (t : Server b W) × (k : Steps retry_do fuel s t) × AreTickless k
        × (t.shutdown ≡ true)
        × (t.runner ≡ returned)
        × (t.life.world ≡ s.life.world)
  run_until_shutdown_returns ce w s reached e l =
      let v = reached-IsServed retry_do fuel ce w s reached in
      let (started, unstopped) = subst (λ r. Phases r s.shutdown s.life) e v.phases in
      let alive : IsAlive s.life.loop = subst IsAlive (sym l) tt in
      let counted : s.life.wg ≡ 1 = v.ordered.counted ∙ ap₂ outstanding started l in
      let closed : Life b W = record s.life { stop_once = under_way; quit = true } in
      let exited : Life b W = record closed { loop = Lifecycle.returned; wg = s.life.wg - 1 } in
      let over : Life b W = record exited { stop_once = finished } in
      (
        record s { shutdown = true; runner = returned; life = over },
        more
            (more
              (more
                (more (more (more here (signalled alive)) (signal_received e refl alive))
                  (lives (stop_closes unstopped alive) (inl refl) (inr refl)))
                (lives (quit_received l refl) (inl refl) (inl refl)))
              (lives (Lifecycle.stop_returns refl (ap (λ n. n - 1) counted)) (inl refl) (inr refl)))
            (stop_returns refl refl),
        (((((((tt, tt), tt), tt), tt), tt)), tt),
        refl,
        refl,
        refl,
      )
