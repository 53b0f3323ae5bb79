-- ===== src/Examples/Service.antt =====
-- Runs of the server and of the whole daemon over the toy libraries.
use covenant.Prelude.{◌≡◌, refl, inl, inr, true, [], arith}
use covenant.Emulator.Defs.{CovenantEmulator}
use covenant.Emulator.Lifecycle
use covenant.Emulator.Lifecycle.{
  Life, idle, under_way, finished, selecting, ticking, start_adds, start_launches, ticker_fires,
  quit_received, stop_closes,
}
use covenant.Service.{
  Server, waiting, returned, new, Steps, first_call, later_call, start_returns, signalled,
  signal_received, stop_returns, lives, here, more,
}
use covenant.Service.Shutdown.{run_until_shutdown_quiet}
use covenant.Service.Returning.{AreTickless, run_until_shutdown_returns}
use covenant.Examples.Toy.{toy, Chain, emulator, start}
use covenant.Examples.Ticks.{repeat}

abbrev fresh : CovenantEmulator toy Chain → Server toy Chain
fresh ce = new ce start

abbrev pub called : CovenantEmulator toy Chain → Server toy Chain
called ce = record (fresh ce) {
  started = 1;
  runner = waiting;
  life = record (Lifecycle.new ce start) { start_once = finished; wg = 1; loop = selecting };
}

abbrev pub ended : CovenantEmulator toy Chain → Server toy Chain
ended ce = record (called ce) {
  started = 2;
  runner = returned;
  shutdown = true;
  life = record (called ce).life {
    stop_once = finished;
    wg = 0;
    quit = true;
    loop = Lifecycle.returned;
  };
}

pub to_called : (ce : CovenantEmulator toy Chain) → Steps repeat 10 (fresh ce) (called ce)
to_called ce =
    more
      (more
        (more (more here (first_call refl refl)) (lives (start_adds refl) (inr refl) (inl refl)))
        (lives (start_launches refl) (inr refl) (inl refl)))
      (start_returns refl refl tt)

-- A second call returns at once.
pub to_ended : (ce : CovenantEmulator toy Chain) → Steps repeat 10 (fresh ce) (ended ce)
to_ended ce =
    more
      (more
        (more
          (more
            (more
              (more (more (to_called ce) (later_call (omega arith) (omega arith) tt))
                (signalled tt))
              (signal_received refl refl tt))
            (lives (stop_closes refl tt) (inl refl) (inr refl)))
          (lives (quit_received refl refl) (inl refl) (inl refl)))
        (lives (Lifecycle.stop_returns refl refl) (inl refl) (inr refl)))
      (stop_returns refl refl)

run_until_shutdown_quiet_example :
    ((ended (emulator [])).shutdown ≡ true)
    × ((ended (emulator [])).life.loop ≡ Lifecycle.returned)
    × (start ≡ start)
run_until_shutdown_quiet_example =
    run_until_shutdown_quiet repeat 10 (emulator []) start (ended (emulator []))
      (ended (emulator [])) (to_ended (emulator [])) refl here

run_until_shutdown_returns_example :
    (t : Server toy Chain) × (k : Steps repeat 10 (called (emulator [])) t) × AreTickless k
    × (t.shutdown ≡ true)
    × (t.runner ≡ returned)
    × (t.life.world ≡ start)
run_until_shutdown_returns_example =
    run_until_shutdown_returns repeat 10 (emulator []) start (called (emulator []))
      (to_called (emulator [])) refl refl
