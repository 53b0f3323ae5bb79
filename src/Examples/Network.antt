-- ===== src/Examples/Network.antt =====
-- The node of the end-to-end tests over a small machine, and generated parameters.
use Prim.Native.String
use text.Mathlib.Text.{◌==◌}
use covenant.Prelude.{
  ℕ, zero, suc, ◌<◌, ◌≡◌, refl, ap, String, false, if◌then◌else◌, none, some, List, [], ◌∷◌,
  library, ok, err, panic, errorf, panic_with, arith, Int.pos,
}
use Prim.Native.Nat.{min}
use covenant.Prelude.Results.{ok-injective}
use covenant.Prelude.Exec.{Exec, pure, Returns}
use covenant.Types.Params.{StakingParams}
use covenant.Itest.{BabylonNode, NodeOs, Site}
use covenant.Itest.Node.{start, stop, cleanup, shutdown}
use covenant.Itest.Handler.{handler_start, handler_stop}
use covenant.Itest.Node.Leaked.{Failed, handler_start-Failed}
use covenant.Itest.Node.Cycle.{Ended, stop_after_start}
use covenant.Testutil.{Datagen, gen_random_params}
use covenant.Testutil.Generated.{IsDatagen, IsWorking, IsValid, gen_random_params_returns}
use covenant.Examples.Toy.{toy}

-- The files, and the processes that run.
record Yard : Type 0 where
  files : List String
  processes : List ℕ

abbrev yard_os : NodeOs toy Yard
yard_os = record {
  is_windows = false;
  join = λ d p. String.◌++◌ d (String.◌++◌ "/" p);
  marshal_hex = λ k. "02";
  temp_dir = pure "/tmp";
  mkdir_temp = λ d p s. (ok (String.◌++◌ d p), record s { files = String.◌++◌ d p ∷ s.files });
  chmod = λ p. pure tt;
  create = λ p s.
      if p == "/full/config.pid"
      then (err (library "no space"), s)
      else (ok tt, record s { files = p ∷ s.files });
  print_pid = λ p n. pure tt;
  close = λ p. pure tt;
  remove = λ p. pure tt;
  remove_all = λ p s. (ok tt, record s { files = [] });
  run_cmd = λ c. pure tt;
  start_cmd = λ c s. (ok 7, record s { processes = 7 ∷ s.processes });
  signal = λ n g s. (ok tt, record s { processes = [] });
  wait = λ n. pure tt;
}

abbrev node_in : String → BabylonNode toy
node_in dir = record {
  cmd = some (record { name = "babylond"; args = "start" ∷ []; stdout = none; process = none });
  pid_file = "";
  data_dir = dir;
  chain_id = "chain-test";
  slashing_addr = "S";
  covenant_pk = 1;
}

abbrev site_in : String → Site toy Yard
site_in dir = record { node = node_in dir; outside = record { files = []; processes = [] } }

-- The disk is full: the start fails, and the process 7 runs.
abbrev leaked : Site toy Yard
leaked = (handler_start yard_os (site_in "/full")).1

start_fails : handler_start yard_os (site_in "/full") ≡ (err (library "no space"), leaked)
unfolding handler_start start cleanup
start_fails = refl

still_runs : leaked.outside.processes ≡ 7 ∷ []
unfolding handler_start start cleanup
still_runs = refl

handler_start-Failed_example : Failed yard_os (site_in "/full") (library "no space") leaked
handler_start-Failed_example =
    handler_start-Failed yard_os (site_in "/full") (library "no space") leaked start_fails

abbrev started : Site toy Yard
started = (handler_start yard_os (site_in "/tmp")).1

abbrev gone : Site toy Yard
gone = (handler_stop yard_os started).1

starts : handler_start yard_os (site_in "/tmp") ≡ (ok tt, started)
unfolding handler_start start
starts = refl

stops : handler_stop yard_os started ≡ (ok tt, gone)
unfolding handler_start start handler_stop shutdown stop cleanup
stops = refl

stop_after_start_example : Ended yard_os (site_in "/tmp") started gone
stop_after_start_example = stop_after_start yard_os (site_in "/tmp") started gone starts stops

-- A generator that counts.
abbrev draw : ℕ → Exec ℕ ℕ
draw zero r = (panic (panic_with (errorf "invalid argument to Int63n")), r)
draw (suc k) r = (ok (min k r), suc r)

abbrev counter : Datagen toy ℕ (List ℕ)
counter = record {
  random_int = draw;
  gen_random_byte_array = λ n r. (ok [], r);
  gen_random_btc_key_pair = λ r. (ok (r ∷ [], r), suc r);
  gen_random_btc_address = λ net r. (ok net, r);
  new_source = λ z. 0;
  int63 = λ r. (pos r, r);
  fuzz_add = λ z f. f;
  legacy_new_dec_with_prec = λ z p. 0;
  zero_dec = 0;
}

draw_below : (bound n : ℕ) (r s : ℕ) → draw bound r ≡ (ok n, s) → n < bound
draw_below zero n r s h = cc
draw_below (suc k) n r s h = let e = ok-injective (ap (λ x. x.0) h) in omega arith

draw-Returns : (bound : ℕ) → 0 < bound → Returns (draw bound)
draw-Returns zero h = absurd (omega arith)
draw-Returns (suc k) h = λ r. (min k r, suc r, refl)

counter-IsDatagen : IsDatagen counter
counter-IsDatagen = record { random_int_below = draw_below }

counter-IsWorking : IsWorking counter
counter-IsWorking = record {
  random_int_returns = draw-Returns;
  key_pair_returns = λ r. ((r ∷ [], r), suc r, refl);
  address_returns = λ net r. (net, r, refl);
}

gen_random_params_returns_example :
    (p : StakingParams toy) × (s : ℕ) × (gen_random_params counter 2 ≡ (ok p, s))
    × IsValid counter p
gen_random_params_returns_example =
    gen_random_params_returns counter counter-IsDatagen counter-IsWorking 2
