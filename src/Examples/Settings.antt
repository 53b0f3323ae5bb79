-- ===== src/Examples/Settings.antt =====
-- The default settings and a configuration file, over the toy libraries.
use covenant.Prelude.{ℕ, ◌≡◌, refl, ◌↔◌, String, true, List, [], ◌∷◌, flatten, ok, arith, Int.pos}
use covenant.Prelude.Exec.{pure}
use covenant.Config.{Config}
use covenant.Config.Network.{network_params, validate, ConfigFiles, load_config}
use covenant.Util.{file_exists}
use covenant.Config.Network.Validated.{IsNetwork, validate_iff}
use covenant.Config.Defaults.{BabylonConfig, default_config_with_home_path}
use covenant.Config.Defaults.Sane.{default_config_with_home_path_sane}
use covenant.Emulator.Batches.{delegations_to_batches}
use covenant.Emulator.Batches.Cover.{IsPacked}
use covenant.Examples.Toy.{toy, config, os_with}

abbrev pub babylon_config : BabylonConfig toy
babylon_config = record {
  key = "node0";
  chain_id = "chain-test";
  rpc_addr = "http://127.0.0.1:26657";
  grpc_addr = "https://127.0.0.1:9090";
  account_prefix = "bbn";
  keyring_backend = "test";
  gas_adjustment = 1;
  gas_prices = "0.01ubbn";
  key_directory = "/";
  debug = true;
  timeout = pos 20;
  block_timeout = pos 60;
  output_format = "json";
  sign_mode_str = "direct";
  submitter_address = "";
}

abbrev on_signet : Config toy
on_signet = record config { bitcoin_network = "signet" }

validate_iff_example :
    (validate on_signet ≡ ok (record on_signet { btc_net_params = "signet" })) ↔ (
      (net : String) × IsNetwork toy "signet" net
      × (record on_signet { btc_net_params = "signet" }
          ≡ record on_signet { btc_net_params = net }))
validate_iff_example = validate_iff on_signet (record on_signet { btc_net_params = "signet" })

-- A file that the parser reads as `on_signet`.
abbrev files : ConfigFiles toy ℕ
files = record {
  os = os_with (λ path. pure tt);
  parse_file = λ cfg path. pure on_signet;
  write_file = λ cfg path. pure tt;
}

loads :
    load_config files config "/home" 0 ≡ (ok (record on_signet { btc_net_params = "signet" }), 0)
unfolding load_config validate network_params file_exists
loads = refl

default_config_with_home_path_sane_example :
    (cfg : Config toy) × (default_config_with_home_path babylon_config "/home" ≡ ok cfg)
    × (validate cfg ≡ ok cfg)
    × (cfg.babylon_config.key_directory ≡ "/home")
    × (batches : List (List ℕ)) × (delegations_to_batches 4 cfg.sigs_batch_size (1 ∷ 2 ∷ 3 ∷ [])
        ≡ ok batches)
    × (flatten batches ≡ 1 ∷ 2 ∷ 3 ∷ [])
    × IsPacked 20 batches
default_config_with_home_path_sane_example =
    default_config_with_home_path_sane babylon_config "/home" (1 ∷ 2 ∷ 3 ∷ []) (omega arith)
