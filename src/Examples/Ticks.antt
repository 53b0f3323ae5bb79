-- ===== src/Examples/Ticks.antt =====
-- The submission loop over the toy libraries, with a `retry.Do` that calls again at once.
use covenant.Prelude.{
  ℕ, zero, suc, ◌≡◌, refl, inl, inr, some, List, [], ◌∷◌, ◌++◌, map, flatten, Outcome, ok, err,
  panic, running, arith,
}
use covenant.Machine.{World}
use covenant.Types.Params.{StakingParams}
use covenant.Emulator.Retry.{Captured, RetryDo, query_params, get_params_with_retry, update_params}
use covenant.Emulator.Retry.Attempts.{IsRetry, Queries, with_params, update_params-Queries}
use covenant.Emulator.Sanitize.{remove_already_signed}
use covenant.Emulator.Loop.{tick, ticks}
use covenant.Emulator.Loop.Complete.{Submissions}
use covenant.Examples.Signing.{signatures, certified}
use covenant.Types.Delegation.{Delegation}
use covenant.Emulator.Sanitize.Kept.{Sanitized}
use covenant.Emulator.Loop.Each.{tick_signs_each}
use covenant.Emulator.Loop.Survival.{Survives}
use covenant.Emulator.Loop.Ticks.{ticks_survive}
use covenant.Examples.Toy.{toy, Chain, params, delegation, chain, emulator, start}
use covenant.Emulator.Defs.{CovenantEmulator}

retry_after :
    Outcome (Unit {0})
    → Captured toy Chain
    → (Captured toy Chain → Outcome (Unit {0}) × Captured toy Chain)
    → Outcome (Unit {0}) × Captured toy Chain
retry_after (ok u) t again = (ok u, t)
retry_after (err e) t again = again t
retry_after (panic p) t again = (panic p, t)
retry_after running t again = (running, t)

pub repeat : RetryDo toy Chain
unfolding retry_after
repeat zero f s = f s
repeat (suc zero) f s = f s
repeat (suc (suc n)) f s = let (r, t) = f s in retry_after r t (repeat (suc n) f)

-- A call that does not return an error is the last one.
repeat_once :
    (n : ℕ) (f : Captured toy Chain → Outcome (Unit {0}) × Captured toy Chain)
    (s t : Captured toy Chain) (r : Outcome (Unit {0}))
    → ((k : Captured toy Chain → Outcome (Unit {0}) × Captured toy Chain)
        → retry_after r t k ≡ (r, t))
    → f s ≡ (r, t)
    → repeat (suc n) f s ≡ (r, t)
unfolding repeat
repeat_once zero f s t r stops h = h
repeat_once (suc n) f s t r stops h = rw h (stops (repeat (suc n) f))

pub repeat-IsRetry : IsRetry repeat
unfolding repeat
repeat-IsRetry = record {
  succeeds = λ n f s t h. repeat_once n f s t (ok tt) (λ k. refl) h;
  fails = λ f s t e h. h;
  retries = λ n f s t e h. rw h;
  panics = λ n f s t p h. repeat_once n f s t (panic p) (λ k. refl) h;
  runs = λ n f s t h. repeat_once n f s t running (λ k. refl) h;
}

update_params-Queries_example :
    (r : Outcome (StakingParams toy)) × (v : World Chain) × Queries (emulator []) 5 start r v
    × (update_params repeat (emulator []) start
        ≡ (with_params (emulator []) repeat repeat-IsRetry r, v))
update_params-Queries_example = update_params-Queries (emulator []) repeat repeat-IsRetry start

ticks_survive_example :
    Survives
      (emulator (some delegation ∷ []))
      (ticks repeat 10 3 (emulator (some delegation ∷ [])) start).0
ticks_survive_example =
    ticks_survive (emulator (some delegation ∷ [])) repeat repeat-IsRetry 10 3 start

pub updates :
    (ce : CovenantEmulator toy Chain) (w : World Chain)
    → ce.cc.query_staking_params w ≡ (ok params, w)
    → update_params repeat ce w ≡ (ok (record ce { params = some params }), w)
unfolding update_params get_params_with_retry query_params repeat
updates ce w h = rw h refl

pub sanitizes : remove_already_signed 1 (some delegation ∷ []) ≡ ok (some delegation ∷ [])
unfolding remove_already_signed
sanitizes = refl

-- The second delegation has been signed.
abbrev two_pending : List (Delegation toy)
two_pending =
    delegation ∷ record delegation { covenant_sigs = record { pk = 1; sigs = [] } ∷ [] } ∷ []

abbrev with_two : CovenantEmulator toy Chain
with_two = emulator (map some two_pending)

tick_signs_each_example :
    (batches : List (List (Delegation toy))) × (after : World Chain) × Sanitized {b = toy} 1
      (map some two_pending)
      (map some (flatten batches))
    × Submissions with_two start batches after
    × (tick repeat 10 with_two start ≡ (ok with_two, after))
tick_signs_each_example =
    tick_signs_each repeat 10 with_two with_two start start start two_pending
      (updates with_two start refl) refl
      (
        inr (λ u.
            (signatures, record u { input = "" }, certified (chain (map some two_pending)) u)),
        (inl (inl refl), tt),
      )
      (λ made u.
        (record { tx_hash = "hash"; events = [] }, record u { outside = u.outside ++ made }, refl))
      (omega arith) (omega arith) (omega arith) (omega arith)
