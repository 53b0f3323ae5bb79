-- ===== src/Service.antt =====
-- `CovenantServer` of covenant/service/server.go: `RunUntilShutdown` over the life of the emulator.
-- Any number of goroutines, but fewer than 2 ^ 31, may call it.
pub mod Phases
pub mod Shutdown
pub mod Returning
use covenant.Prelude.{ℕ, suc, ◌<◌, ◌≡◌, ◌⊎◌, Bool, true, false}
use covenant.Machine.{World}
use covenant.Libraries.{Btc}
use covenant.Emulator.Defs.{CovenantEmulator}
use covenant.Emulator.Retry.{RetryDo}
use covenant.Emulator.Lifecycle
use covenant.Emulator.Lifecycle.{Life, finished, IsAlive}

-- The call that runs the daemon: there is none yet, it is in `Start`, it waits for the signal, it is
-- in the deferred `Stop`, it has returned.
pub data Runner : Type 0 where
  not_running starting waiting stopping returned : Runner

-- `started` counts the calls, `shutdown` is whether the channel of the interceptor is closed.
pub record Server (b : Btc) (W : Type 0) : Type 0 where
  pub started : ℕ
  pub runner : Runner
  pub shutdown : Bool
  pub life : Life b W

module _ {b : Btc} {W : Type 0} where
  -- `NewCovenantServer`
  abbrev pub new : CovenantEmulator b W → World W → Server b W
  new ce w = record {
    started = 0;
    runner = not_running;
    shutdown = false;
    life = Lifecycle.new ce w;
  }

module _ {b : Btc} {W : Type 0} (retry_do : RetryDo b W) (fuel : ℕ) where
  -- `later_call` is the `return nil` of a call that is not the first. `Start` and `Stop` take their
  -- steps only while the runner calls them; the loop takes its own. A process that a panic has ended
  -- takes no step.
  pub data Step (s : Server b W) : Server b W → Type 0 where
    first_call :
        s.started ≡ 0
        → s.runner ≡ not_running
        → Step s (record s { started = 1; runner = starting })
    later_call :
        0 < s.started
        → s.started < 2147483647
        → IsAlive s.life.loop
        → Step s (record s { started = suc s.started })
    start_returns :
        s.runner ≡ starting
        → s.life.start_once ≡ finished
        → IsAlive s.life.loop
        → Step s (record s { runner = waiting })
    signalled : IsAlive s.life.loop → Step s (record s { shutdown = true })
    signal_received :
        s.runner ≡ waiting
        → s.shutdown ≡ true
        → IsAlive s.life.loop
        → Step s (record s { runner = stopping })
    stop_returns :
        s.runner ≡ stopping → s.life.stop_once ≡ finished → Step s (record s { runner = returned })
    lives :
        {l : Life b W}
        → Lifecycle.Step retry_do fuel s.life l
        → (l.start_once ≡ s.life.start_once) ⊎ (s.runner ≡ starting)
        → (l.stop_once ≡ s.life.stop_once) ⊎ (s.runner ≡ stopping)
        → Step s (record s { life = l })

  pub data Steps (s : Server b W) : Server b W → Type 0 where
    here : Steps s s
    more : {t u : Server b W} → Steps s t → Step t u → Steps s u
