-- ===== src/Emulator/Loop.antt =====
-- `covenantSigSubmissionLoop` of covenant/covenant.go: what one tick of its ticker does. Logging is
-- left out. `fuel` bounds the rounds of the loop that splits the batches.
pub mod Acts
pub mod Survival
pub mod Ticks
pub mod Complete
pub mod Starved
pub mod Once
pub mod Each
use covenant.Prelude.{
  ℕ, zero, suc, Option, some, none, List, [], ◌∷◌, Outcome, ok, err, panic, running,
}
use covenant.Prelude.Exec.{Exec, pure, lift, ◌>>=◌}
use covenant.Libraries.{Btc}
use covenant.Machine.{World}
use covenant.Types.Delegation.{Delegation, TxResponse}
use covenant.Emulator.Defs.{CovenantEmulator}
use covenant.Emulator.Batches.{delegations_to_batches}
use covenant.Emulator.Sanitize.{remove_already_signed}
use covenant.Emulator.Retry.{RetryDo, update_params}
use covenant.Emulator.Submit.{add_covenant_signatures}

-- An error is logged and dropped.
abbrev pub logged : {A : Type 0} → Outcome A → Outcome (Unit {0})
logged (ok _) = ok tt
logged (err _) = ok tt
logged (panic p) = panic p
logged running = running

module _ {b : Btc} {W : Type 0} where
  unfoldable pub submit_batch :
      CovenantEmulator b W → List (Option (Delegation b)) → Exec (World W) (Unit {0})
  submit_batch ce batch w = let (r, w') = add_covenant_signatures ce batch w in (logged r, w')

  unfoldable pub submit_batches :
      CovenantEmulator b W → List (List (Option (Delegation b))) → Exec (World W) (Unit {0})
  submit_batches ce [] = pure tt
  submit_batches ce (batch ∷ batches) = do done ← submit_batch ce batch; submit_batches ce batches

  -- Steps 2 and 3 of a tick.
  unfoldable pub sign_pending :
      ℕ
      → CovenantEmulator b W
      → List (Option (Delegation b))
      → Exec (World W) (CovenantEmulator b W)
  sign_pending fuel ce dels = do
    sanitized ← lift (remove_already_signed ce.pk dels)
    batches ← lift (delegations_to_batches fuel ce.config.sigs_batch_size sanitized)
    done ← submit_batches ce batches
    pure ce

  -- `continue` on an error.
  abbrev pub on_query :
      ℕ
      → CovenantEmulator b W
      → Outcome (List (Option (Delegation b)))
      → Exec (World W) (CovenantEmulator b W)
  on_query fuel ce (ok dels) = sign_pending fuel ce dels
  on_query fuel ce (err e) = pure ce
  on_query fuel ce (panic p) = lift (panic p)
  on_query fuel ce running = lift running

  -- Step 1.
  unfoldable pub query_and_sign : ℕ → CovenantEmulator b W → Exec (World W) (CovenantEmulator b W)
  query_and_sign fuel ce w =
      let (r, w') = ce.cc.query_pending_delegations ce.config.delegation_limit w in
      on_query fuel ce r w'

  abbrev pub on_params :
      ℕ
      → CovenantEmulator b W
      → Outcome (CovenantEmulator b W)
      → Exec (World W) (CovenantEmulator b W)
  on_params fuel ce (ok updated) = query_and_sign fuel updated
  on_params fuel ce (err e) = pure ce
  on_params fuel ce (panic p) = lift (panic p)
  on_params fuel ce running = lift running

  -- The branch of the `select` that the ticker takes.
  unfoldable pub tick :
      RetryDo b W → ℕ → CovenantEmulator b W → Exec (World W) (CovenantEmulator b W)
  tick retry_do fuel ce w = let (r, w') = update_params retry_do ce w in on_params fuel ce r w'

  -- The branch taken `n` times.
  unfoldable pub ticks :
      RetryDo b W → ℕ → ℕ → CovenantEmulator b W → Exec (World W) (CovenantEmulator b W)
  ticks retry_do fuel zero ce = pure ce
  ticks retry_do fuel (suc n) ce = do ce' ← tick retry_do fuel ce; ticks retry_do fuel n ce'
