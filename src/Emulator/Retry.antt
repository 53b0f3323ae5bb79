-- ===== src/Emulator/Retry.antt =====
-- `getParamsWithRetry` and `UpdateParams` of covenant/covenant.go. `retry.Do` is a parameter: a
-- function of the number of attempts and of the closure, over the variables that the closure
-- captures (`params`) and the world.
pub mod Attempts
use covenant.Prelude.{ℕ, Option, none, some, Outcome, ok, err, panic, running}
use covenant.Prelude.Exec.{Exec, pure, ◌>>=◌}
use covenant.Libraries.{Btc}
use covenant.Machine.{World}
use covenant.Types.Params.{StakingParams}
use covenant.Emulator.Defs.{CovenantEmulator}

abbrev pub Captured : Btc → Type 0 → Type 0
Captured b W = Option (StakingParams b) × World W

-- `retry.Do` with `Attempts(n)`.
abbrev pub RetryDo : Btc → Type 0 → Type 0
RetryDo b W = ℕ → Exec (Captured b W) (Unit {0}) → Exec (Captured b W) (Unit {0})

-- `RtyAttNum`
abbrev pub rty_att_num : ℕ
rty_att_num = 5

module _ {b : Btc} {W : Type 0} where
  -- The assignment to `params` and `err` in the closure.
  abbrev pub assign_params : Outcome (StakingParams b) → World W → Outcome (Unit {0}) × Captured b W
  assign_params (ok p) w = (ok tt, (some p, w))
  assign_params (err e) w = (err e, (none, w))
  assign_params (panic p) w = (panic p, (none, w))
  assign_params running w = (running, (none, w))

  -- The closure.
  unfoldable pub query_params : CovenantEmulator b W → Exec (Captured b W) (Unit {0})
  query_params ce (params, w) = let (r, w') = ce.cc.query_staking_params w in assign_params r w'

  -- What is returned when `retry.Do` has: the captured `params`, or the error.
  abbrev pub captured_params :
      Outcome (Unit {0}) → Captured b W → Outcome (Option (StakingParams b)) × World W
  captured_params (ok _) (params, w) = (ok params, w)
  captured_params (err e) (params, w) = (err e, w)
  captured_params (panic p) (params, w) = (panic p, w)
  captured_params running (params, w) = (running, w)

  unfoldable pub get_params_with_retry :
      RetryDo b W → CovenantEmulator b W → Exec (World W) (Option (StakingParams b))
  get_params_with_retry retry_do ce w =
      let (r, c) = retry_do rty_att_num (query_params ce) (none, w) in captured_params r c

  -- The emulator is handed back with its new `params`.
  unfoldable pub update_params :
      RetryDo b W → CovenantEmulator b W → Exec (World W) (CovenantEmulator b W)
  update_params retry_do ce = do
    params ← get_params_with_retry retry_do ce
    pure (record ce { params = params })
