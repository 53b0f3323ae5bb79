-- ===== src/Emulator/Lifecycle.antt =====
-- `Start`, `Stop` and the goroutine of `covenantSigSubmissionLoop` of covenant/covenant.go, with
-- every interleaving of their steps. Any number of goroutines may call `Start` and `Stop`; each
-- body runs once, under its `sync.Once`, and a call that finds it under way waits for it.
pub mod Order
pub mod Reached
pub mod Stopping
pub mod Returning
pub mod Once
use covenant.Prelude.{ℕ, zero, suc, ◌-◌, ◌≡◌, Bool, true, false, ok, panic, running, Panic}
use covenant.Machine.{World}
use covenant.Libraries.{Btc}
use covenant.Emulator.Defs.{CovenantEmulator}
use covenant.Emulator.Retry.{RetryDo}
use covenant.Emulator.Loop.{tick}

-- A `sync.Once`: not called, its function is running, its function has returned.
pub data Phase : Type 0 where
  idle under_way finished : Phase

-- The goroutine: not launched, at its `select`, in the branch of the ticker, returned; in a tick
-- that never returns; and in one that has panicked, with which the process has ended.
pub data LoopState : Type 0 where
  not_launched selecting ticking returned hung crashed : LoopState

-- The process has not ended.
abbrev pub IsAlive : LoopState → Type 0
IsAlive not_launched = Unit
IsAlive selecting = Unit
IsAlive ticking = Unit
IsAlive returned = Unit
IsAlive hung = Unit
IsAlive crashed = ⊥

-- The counter of the wait group, whether the channel `quit` is closed, and what the loop acts on.
pub record Life (b : Btc) (W : Type 0) : Type 0 where
  pub start_once : Phase
  pub stop_once : Phase
  pub wg : ℕ
  pub quit : Bool
  pub loop : LoopState
  pub emulator : CovenantEmulator b W
  pub world : World W

module _ {b : Btc} {W : Type 0} where
  -- What `NewCovenantEmulator` returns.
  abbrev pub new : CovenantEmulator b W → World W → Life b W
  new ce w = record {
    start_once = idle;
    stop_once = idle;
    wg = 0;
    quit = false;
    loop = not_launched;
    emulator = ce;
    world = w;
  }

module _ {b : Btc} {W : Type 0} (retry_do : RetryDo b W) (fuel : ℕ) where
  -- `Start` is `wg.Add(1)` and `go`; `Stop` is `close(quit)` and `wg.Wait()`. The `select` may take
  -- the ticker's branch also when `quit` is closed. On its return the loop calls `wg.Done()`. A tick
  -- that panics or that never returns leaves the world with what it has done; it returns no error.
  -- A process that has ended takes no step: a loop that has crashed is at none of its own, `Start`
  -- has been through, the wait group never falls to 0, and `stop_closes` asks for a process that is
  -- alive.
  pub data Step (s : Life b W) : Life b W → Type 0 where
    start_adds : s.start_once ≡ idle → Step s (record s { start_once = under_way; wg = suc s.wg })
    start_launches :
        s.start_once ≡ under_way → Step s (record s { start_once = finished; loop = selecting })
    ticker_fires : s.loop ≡ selecting → Step s (record s { loop = ticking })
    tick_ends :
        {ce : CovenantEmulator b W} {w : World W}
        → s.loop ≡ ticking
        → tick retry_do fuel s.emulator s.world ≡ (ok ce, w)
        → Step s (record s { loop = selecting; emulator = ce; world = w })
    tick_panics :
        {p : Panic} {w : World W}
        → s.loop ≡ ticking
        → tick retry_do fuel s.emulator s.world ≡ (panic p, w)
        → Step s (record s { loop = crashed; world = w })
    tick_hangs :
        {w : World W}
        → s.loop ≡ ticking
        → tick retry_do fuel s.emulator s.world ≡ (running, w)
        → Step s (record s { loop = hung; world = w })
    quit_received :
        s.loop ≡ selecting → s.quit ≡ true → Step s (record s { loop = returned; wg = s.wg - 1 })
    stop_closes :
        s.stop_once ≡ idle
        → IsAlive s.loop
        → Step s (record s { stop_once = under_way; quit = true })
    stop_returns : s.stop_once ≡ under_way → s.wg ≡ 0 → Step s (record s { stop_once = finished })

  -- Any number of steps.
  pub data Steps (s : Life b W) : Life b W → Type 0 where
    here : Steps s s
    more : {t u : Life b W} → Steps s t → Step t u → Steps s u
