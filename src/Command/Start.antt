-- ===== src/Command/Start.antt =====
-- `start` of cmd/covd/start.go, up to the call of `RunUntilShutdown`, which Service models.
pub mod Started
use covenant.Prelude.{String, wrapf, wrapf_text, Outcome, ok}
use covenant.Prelude.Exec.{Exec, wrap, ◌>>=◌}
use covenant.Libraries.{Btc}
use covenant.Machine.{World}
use covenant.Util.{clean_and_expand_path}
use covenant.Log.{new_root_logger_with_file}
use covenant.Config.{Config}
use covenant.Config.Network.{load_config, log_file}
use covenant.Controller.Babylon.{client_controller}
use covenant.Controller.Construction.{new_babylon_controller}
use covenant.Emulator.Defs.{CovenantEmulator}
use covenant.Emulator.Construction.{new_covenant_emulator}
use covenant.Service.{Server, new}
use covenant.Command.{Machine}

module _ {b : Btc} {W : Type 0} (m : Machine b W) where
  -- The server, with the world as it is when `RunUntilShutdown` is called.
  abbrev pub serve : CovenantEmulator b W → Exec (World W) (Server b W)
  serve ce w = (ok (new ce w), w)

  -- From `NewRootLoggerWithFile` on.
  unfoldable pub launch : String → Config b → String → Exec (World W) (Server b W)
  launch home_path cfg passphrase = do
    logger ← wrap (wrapf "failed to load the logger: %w") (
        new_root_logger_with_file m.unicode_lower m.files.os (log_file m.files.os home_path)
          cfg.log_level)
    bbn_client ←
        wrap (wrapf "failed to create rpc client for the consumer chain: %w")
          (new_babylon_controller m.bbn cfg.babylon_config cfg.btc_net_params)
    ce ←
        wrap (wrapf "failed to start the covenant emulator: %w")
          (new_covenant_emulator m.keyring cfg (client_controller bbn_client) passphrase)
    u ← m.intercept
    serve ce

  unfoldable pub start : String → String → Exec (World W) (Server b W)
  start home passphrase = do
    absolute ← m.files.os.abs home
    home_path ← clean_and_expand_path m.files.os absolute
    cfg ←
        wrap (wrapf_text "failed to load config at %s: %w" home_path)
          (load_config m.files m.zero_config home_path)
    launch home_path cfg passphrase
