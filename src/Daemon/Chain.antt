-- ===== src/Daemon/Chain.antt =====
-- What a running daemon does to the Babylon chain and to the keyring.
use covenant.Prelude.{ℕ}
use covenant.Libraries.{Btc}
use covenant.Machine.{World}
use covenant.Controller.Babylon.{BabylonController}
use covenant.Emulator.Defs.{CovenantEmulator}
use covenant.Emulator.Retry.{RetryDo}
use covenant.Emulator.Retry.Attempts.{IsRetry}
use covenant.Service.{Server, new, Steps}
use covenant.Service.Shutdown.{server-IsBound}
use covenant.Daemon.{over_babylon}
use covenant.Daemon.Deeds.{Deeds, Acts-Deeds}

module _ {b : Btc} {W : Type 0} where
  -- With a `retry.Do` that is as documented: in every interleaving of the loop with calls of
  -- `RunUntilShutdown` and signals, a tick that panics or never returns included, the daemon over a Babylon controller reads its private key, looks
  -- its address up, asks the chain for its parameters and for the pending delegations, and sends
  -- transactions; it does nothing else to the keyring and the chain. The messages of a transaction
  -- carry, one by one and unchanged, signatures certified under parameters that it had fetched,
  -- for delegations that the chain then answered with as pending ones and that had no signature
  -- by the daemon's key.
  pub server-Deeds :
      (ce : CovenantEmulator b W) (bc : BabylonController b (World W)) (retry_do : RetryDo b W)
      (fuel : ℕ) (w : World W) (t : Server b W)
      → IsRetry retry_do
      → Steps retry_do fuel (new (over_babylon ce bc) w) t
      → Deeds ce bc w t.life.world
  server-Deeds ce bc retry_do fuel w t lawful k =
      Acts-Deeds ce bc w t.life.world
        (server-IsBound retry_do fuel (over_babylon ce bc) w t lawful k).acts
