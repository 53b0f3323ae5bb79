-- ===== src/Service/Shutdown.antt =====
-- What it means that `RunUntilShutdown` has returned.
use covenant.Prelude.{ℕ, ◌≡◌, refl, subst, true}
use covenant.Machine.{World}
use covenant.Libraries.{Btc}
use covenant.Emulator.Defs.{CovenantEmulator}
use covenant.Emulator.Retry.{RetryDo}
use covenant.Emulator.Retry.Attempts.{IsRetry}
use covenant.Emulator.Lifecycle
use covenant.Emulator.Lifecycle.{Life, idle, finished}
use covenant.Emulator.Lifecycle.Reached.{IsBound, reached-IsBound}
use covenant.Emulator.Lifecycle.Stopping.{IsOver, Steps-IsOver}
use covenant.Service.{
  returned, Server, new, Steps, first_call, later_call, start_returns, signalled, signal_received,
  stop_returns, lives, here, more,
}
use covenant.Service.Phases.{Phases, reached-IsServed}

module _ {b : Btc} {W : Type 0} (retry_do : RetryDo b W) (fuel : ℕ) where
  -- The steps of the emulator within a run of the server.
  pub life-Steps :
      (s t : Server b W) → Steps retry_do fuel s t → Lifecycle.Steps retry_do fuel s.life t.life
  life-Steps s t here = Lifecycle.here
  life-Steps s t (more {t = x} k (first_call n e)) = life-Steps s x k
  life-Steps s t (more {t = x} k (later_call n e a)) = life-Steps s x k
  life-Steps s t (more {t = x} k (start_returns e f a)) = life-Steps s x k
  life-Steps s t (more {t = x} k (signalled a)) = life-Steps s x k
  life-Steps s t (more {t = x} k (signal_received e f a)) = life-Steps s x k
  life-Steps s t (more {t = x} k (stop_returns e f)) = life-Steps s x k
  life-Steps s t (more {t = x} k (lives step e f)) = Lifecycle.more (life-Steps s x k) step

  -- Once `RunUntilShutdown` has returned, whichever calls and signals came in between, the shutdown
  -- signal had come, the submission loop has returned, and the world stays as it is for good: the
  -- daemon does nothing more.
  pub run_until_shutdown_quiet :
      (ce : CovenantEmulator b W) (w : World W) (t u : Server b W)
      → Steps retry_do fuel (new ce w) t
      → t.runner ≡ returned
      → Steps retry_do fuel t u
      → (t.shutdown ≡ true) × (t.life.loop ≡ Lifecycle.returned) × (u.life.world ≡ t.life.world)
  run_until_shutdown_quiet ce w t u reached e later =
      let v = reached-IsServed retry_do fuel ce w t reached in
      let h = subst (λ r. Phases r t.shutdown t.life) e v.phases in
      let over = v.waited h.1 in
      let end : IsOver retry_do fuel t.life.world u.life =
        Steps-IsOver retry_do fuel t.life.world t.life u.life (life-Steps t u later)
          (record { over = over; launched = h.0; left = refl }) in
      (h.2, over, end.left)

  -- A server does nothing but what its emulator may do in every interleaving.
  pub server-IsBound :
      (ce : CovenantEmulator b W) (w : World W) (t : Server b W)
      → IsRetry retry_do
      → Steps retry_do fuel (new ce w) t
      → IsBound ce w t.life
  server-IsBound ce w t lawful k =
      reached-IsBound ce w retry_do lawful fuel t.life (life-Steps (new ce w) t k)
