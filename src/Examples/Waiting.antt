-- ===== src/Examples/Waiting.antt =====
-- A delegation that waits behind a page that the daemon has signed.
use covenant.Prelude.{◌≡◌, refl, inl, some, List, [], ◌∷◌, map, take, arith}
use covenant.Prelude.Exec.{pure}
use covenant.Types.Delegation.{Delegation}
use covenant.Emulator.Defs.{CovenantEmulator}
use covenant.Emulator.Loop.{ticks}
use covenant.Emulator.Loop.Starved.{IsPaged, Asked, ticks_starve}
use covenant.Examples.Toy.{toy, Chain, chain, config, delegation, emulator, start}
use covenant.Examples.Ticks.{repeat, repeat-IsRetry}

-- The first one has the daemon's signature, the second one has none.
abbrev waiting : List (Delegation toy)
waiting = record delegation { covenant_sigs = record { pk = 1; sigs = [] } ∷ [] } ∷ delegation ∷ []

abbrev with_page : CovenantEmulator toy Chain
with_page = record (emulator []) {
  cc = record (chain []) {
    query_pending_delegations = λ limit. pure (map some (take limit waiting));
  };
  config = record config { delegation_limit = 1 };
}

abbrev paged : IsPaged with_page
paged = record {
  pending_at = λ w. waiting;
  answer = λ limit w h. refl;
  kept_by_query = λ limit w. refl;
  kept_by_params = λ w. refl;
}

ticks_starve_example :
    Asked with_page start (ticks repeat 10 3 with_page start).1
    × (paged.pending_at (ticks repeat 10 3 with_page start).1 ≡ paged.pending_at start)
ticks_starve_example =
    ticks_starve with_page repeat repeat-IsRetry paged (omega arith) 10 3 start (inl refl, tt)
