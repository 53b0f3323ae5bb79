-- ===== src/Examples/Lifecycle.antt =====
-- Runs of `Start` and `Stop` over the toy libraries.
use covenant.Prelude.{◌≡◌, ◌≢◌, refl, true, nil_dereference, none, some, [], ◌∷◌, ok, panic}
use covenant.Machine.{World}
use covenant.Emulator.Defs.{CovenantEmulator}
use covenant.Emulator.Batches.{delegations_to_batches}
use covenant.Emulator.Loop.{tick, query_and_sign, sign_pending}
use covenant.Emulator.Sanitize.{remove_already_signed}
use covenant.Emulator.Loop.Complete.{none_left, submitted, tick_signs_all}
use covenant.Emulator.Lifecycle.{
  idle, under_way, finished, selecting, ticking, returned, crashed, Life, new, Steps, start_adds,
  start_launches, ticker_fires, tick_ends, tick_panics, quit_received, stop_closes, stop_returns,
  here, more,
}
use covenant.Emulator.Lifecycle.Order.{IsOrdered, Progress, reached-IsOrdered}
use covenant.Emulator.Lifecycle.Reached.{IsBound, reached-IsBound}
use covenant.Emulator.Lifecycle.Stopping.{stop_waits}
use covenant.Emulator.Lifecycle.Returning.{start_after_stop}
use covenant.Examples.Toy.{toy, Chain, chain, params, delegation, emulator, start}
use covenant.Examples.Signing.{signatures, signing}
use covenant.Examples.Ticks.{repeat, repeat-IsRetry, updates, sanitizes}

abbrev fresh : Life toy Chain
fresh = new (emulator (some delegation ∷ [])) start

abbrev started : Life toy Chain
started = record fresh { start_once = finished; wg = 1; loop = selecting }

abbrev stopping : Life toy Chain
stopping = record started { stop_once = under_way; quit = true }

abbrev stopped : Life toy Chain
stopped = record stopping { stop_once = finished; wg = 0; loop = returned }

to_started : Steps repeat 10 fresh started
to_started = more (more here (start_adds refl)) (start_launches refl)

from_started_to_stopped : Steps repeat 10 started stopped
from_started_to_stopped =
    more (more (more here (stop_closes refl tt)) (quit_received refl refl)) (stop_returns refl refl)

started_not_idle : started.start_once ≢ idle
started_not_idle h = cc

started_not_stopped : started.stop_once ≢ finished
started_not_stopped h = cc

reached-IsOrdered_example : IsOrdered started × Progress started.loop stopped.loop
reached-IsOrdered_example =
    reached-IsOrdered repeat 10 (emulator (some delegation ∷ [])) start started stopped to_started
      from_started_to_stopped

-- The emulator once it has fetched the parameters, and the world once it has submitted.
abbrev updated : CovenantEmulator toy Chain
updated = record (emulator (some delegation ∷ [])) { params = some params }

abbrev submitted_at : World Chain
submitted_at = record start { outside = signatures ∷ [] }

splits : delegations_to_batches 10 2 (some delegation ∷ []) ≡ ok ((some delegation ∷ []) ∷ [])
unfolding delegations_to_batches
splits = refl

-- The first tick signs the pending delegation.
ticks_once : tick repeat 10 (emulator (some delegation ∷ [])) start ≡ (ok updated, submitted_at)
ticks_once =
    tick_signs_all repeat 10 (emulator (some delegation ∷ [])) updated start start start
      submitted_at (some delegation ∷ []) (some delegation ∷ []) ((delegation ∷ []) ∷ [])
      (updates (emulator (some delegation ∷ [])) start refl) refl sanitizes splits
      (submitted (signatures ∷ []) (record { tx_hash = "hash"; events = [] })
        (signing (chain (some delegation ∷ []))) refl none_left)

to_signed : Steps repeat 10 fresh (record started { emulator = updated; world = submitted_at })
to_signed = more (more to_started (ticker_fires refl)) (tick_ends refl ticks_once)

reached-IsBound_example :
    IsBound
      (emulator (some delegation ∷ []))
      start
      (record started { emulator = updated; world = submitted_at })
reached-IsBound_example =
    reached-IsBound (emulator (some delegation ∷ [])) start repeat repeat-IsRetry 10
      (record started { emulator = updated; world = submitted_at }) to_signed

-- A missing delegation panics in the sanitizing.
panics : tick repeat 10 (emulator (none ∷ [])) start ≡ (panic nil_dereference, start)
unfolding tick query_and_sign remove_already_signed sign_pending
panics = rw (updates (emulator (none ∷ [])) start refl) refl

-- The process ends, and nothing has been submitted.
to_crashed :
    Steps repeat 10
      (new (emulator (none ∷ [])) start)
      (record (new (emulator (none ∷ [])) start) { start_once = finished; wg = 1; loop = crashed })
to_crashed =
    more (more (more (more here (start_adds refl)) (start_launches refl)) (ticker_fires refl))
      (tick_panics refl panics)

stop_waits_example : (stopped.loop ≡ returned) × (stopped.world ≡ stopped.world)
stop_waits_example =
    stop_waits repeat 10 (emulator (some delegation ∷ [])) start started stopped stopped to_started
      started_not_idle started_not_stopped from_started_to_stopped refl here

start_after_stop_example :
    (t : Life toy Chain) × Steps repeat 10 (record fresh { stop_once = finished; quit = true }) t
    × (t.stop_once ≡ finished)
    × (t.loop ≡ ticking)
start_after_stop_example =
    start_after_stop repeat 10 (record fresh { stop_once = finished; quit = true }) refl refl
