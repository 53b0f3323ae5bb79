-- ===== src/Emulator/Construction.antt =====
-- `NewCovenantEmulator` of covenant/covenant.go.
pub mod Keyed
pub mod Found
use covenant.Prelude.{String, Option, none, wrapf_text, wrapf, Outcome, ok}
use covenant.Prelude.Exec.{Exec, pure, lift, wrap, ◌>>=◌}
use covenant.Libraries.{Btc}
use covenant.Config.{Config}
use covenant.Machine.{World}
use covenant.Keyring.{ChainKeyringController, get_chain_priv_key}
use covenant.Keyring.Creation.{
  KeyringPackage, create_keyring, new_chain_keyring_controller_with_keyring, with_new_reader,
}
use covenant.Controller.{ClientController}
use covenant.Emulator.Defs.{CovenantEmulator}

module _ {b : Btc} {W : Type 0} (lib : KeyringPackage W) where
  -- From `strings.NewReader` on.
  unfoldable pub new_with_reader :
      Config b → ClientController b (World W) → String → Exec (World W) (CovenantEmulator b W)
  new_with_reader config cc passphrase = do
    kr ← wrap (wrapf "failed to create keyring: %w") (
        create_keyring lib config.babylon_config.key_directory config.babylon_config.chain_id
          config.babylon_config.keyring_backend)
    kc ← lift (new_chain_keyring_controller_with_keyring kr config.babylon_config.key)
    sk ←
        wrap (wrapf_text "covenant key %s is not found: %w" config.babylon_config.key)
          (get_chain_priv_key kc passphrase)
    pk ← lift (b.parse_pub_key (b.sdk_pub_key_bytes sk))
    pure (record {
      pk = pk;
      cc = cc;
      kc = kc;
      config = config;
      params = none;
      passphrase = passphrase;
    })

  unfoldable pub new_covenant_emulator :
      Config b → ClientController b (World W) → String → Exec (World W) (CovenantEmulator b W)
  new_covenant_emulator config cc passphrase =
      with_new_reader lib (new_with_reader config cc passphrase)
