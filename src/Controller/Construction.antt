-- ===== src/Controller/Construction.antt =====
-- `NewBabylonController` of clientcontroller/babylon.go and `NewClientController` of
-- clientcontroller/interface.go.
pub mod Configured
use text.Mathlib.Text.{◌==◌}
use covenant.Prelude.{String, errorf, wrapf, Outcome, err, if◌then◌else◌}
use covenant.Prelude.Exec.{Exec, pure, lift, wrap, ◌>>=◌}
use covenant.Libraries.{Btc}
use covenant.Config.{BbnConfig}
use covenant.Config.Defaults.{BabylonConfig, bbn_config_to_babylon_config}
use covenant.Controller.{ClientController}
use covenant.Controller.Messages.{BbnClient}
use covenant.Controller.Babylon.{BabylonController, client_controller}

-- The RPC client's package: `BabylonConfig.Validate` and `bbnclient.New`.
pub record BbnPackage (b : Btc) (S : Type 0) : Type 0 where
  pub validate : BabylonConfig b → Outcome (Unit {0})
  pub new : BabylonConfig b → Exec S (BbnClient b S)

module _ {b : Btc} {S : Type 0} (lib : BbnPackage b S) where
  unfoldable pub new_babylon_controller : BbnConfig b → b.NetParams → Exec S (BabylonController b S)
  new_babylon_controller cfg btc_params = do
    valid ←
        wrap (wrapf "invalid config for Babylon client: %w")
          (lift (lib.validate (bbn_config_to_babylon_config cfg)))
    bc ←
        wrap (wrapf "failed to create Babylon client: %w")
          (lib.new (bbn_config_to_babylon_config cfg))
    pure (record { bbn_client = bc; cfg = cfg; btc_params = btc_params })

  abbrev pub babylon_client_controller : BbnConfig b → b.NetParams → Exec S (ClientController b S)
  babylon_client_controller bbn_config net_params = do
    bc ←
        wrap (wrapf "failed to create Babylon rpc client: %w")
          (new_babylon_controller bbn_config net_params)
    pure (client_controller bc)

  unfoldable pub new_client_controller :
      String → BbnConfig b → b.NetParams → Exec S (ClientController b S)
  new_client_controller chain_name bbn_config net_params =
      if chain_name == "babylon"
      then babylon_client_controller bbn_config net_params
      else lift (err (errorf "unsupported consumer chain"))
