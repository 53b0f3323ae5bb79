-- ===== src/Emulator/Defs.antt =====
-- The emulator's struct, and the access to the covenant's private key.
use covenant.Prelude.{String, Option}
use covenant.Prelude.Exec.{Exec, pure, ◌>>=◌}
use covenant.Libraries.{Btc}
use covenant.Config.{Config}
use covenant.Machine.{World}
use covenant.Keyring.{ChainKeyringController, get_chain_priv_key}
use covenant.Types.Params.{StakingParams}
use covenant.Controller.{ClientController}

-- `params` is a pointer, nil until the first update. The channel, the wait group and the two
-- `sync.Once` are in Emulator/Lifecycle; the logger is left out.
pub record CovenantEmulator (b : Btc) (W : Type 0) : Type 0 where
  pub pk : b.PublicKey
  pub cc : ClientController b (World W)
  pub kc : ChainKeyringController W
  pub config : Config b
  pub params : Option (StakingParams b)
  pub passphrase : String

module _ {b : Btc} {W : Type 0} where
  unfoldable pub get_priv_key : CovenantEmulator b W → Exec (World W) b.PrivateKey
  get_priv_key ce = do
    key ← get_chain_priv_key ce.kc ce.passphrase
    pure (b.priv_key_from_bytes key).0
