-- ===== src/Config/Defaults.antt =====
-- The default settings of config/config.go and config/babylon.go, and the settings that the Babylon
-- client is given.
pub mod Sane
use covenant.Prelude.{
  ℕ, String, Bool, Error, Outcome, ok, err, panic, panic_with, running, Int.ℤ, Int.pos,
}
use covenant.Libraries.{Btc}
use covenant.Config.{BbnConfig, Config}
use covenant.Config.Network.{validate}

-- `bbncfg.BabylonConfig`, of the RPC client's package.
pub record BabylonConfig (b : Btc) : Type 0 where
  pub key : String
  pub chain_id : String
  pub rpc_addr : String
  pub grpc_addr : String
  pub account_prefix : String
  pub keyring_backend : String
  pub gas_adjustment : b.Float64
  pub gas_prices : String
  pub key_directory : String
  pub debug : Bool
  pub timeout : ℤ
  pub block_timeout : ℤ
  pub output_format : String
  pub sign_mode_str : String
  pub submitter_address : String

abbrev pub default_log_level : String
default_log_level = "debug"

abbrev pub default_covenant_key_name : String
default_covenant_key_name = "covenant-key"

-- 15 seconds.
abbrev pub default_query_interval : ℤ
default_query_interval = pos 15000000000

abbrev pub default_delegation_limit : ℕ
default_delegation_limit = 100

abbrev pub default_sigs_batch_size : ℕ
default_sigs_batch_size = 20

abbrev pub default_bitcoin_network : String
default_bitcoin_network = "simnet"

abbrev pub default_btc_net_params : (b : Btc) → b.NetParams
default_btc_net_params b = b.sim_net_params

module _ {b : Btc} where
  -- `dc` is what `bbncfg.DefaultBabylonConfig` returns.
  unfoldable pub default_bbn_config : BabylonConfig b → BbnConfig b
  default_bbn_config dc = record {
    key = dc.key;
    chain_id = dc.chain_id;
    rpc_addr = dc.rpc_addr;
    grpc_addr = dc.grpc_addr;
    account_prefix = dc.account_prefix;
    keyring_backend = dc.keyring_backend;
    gas_adjustment = dc.gas_adjustment;
    gas_prices = dc.gas_prices;
    key_directory = "";
    debug = dc.debug;
    timeout = dc.timeout;
    block_timeout = pos 60000000000;
    output_format = dc.output_format;
    sign_mode_str = dc.sign_mode_str;
  }

  -- `GRPCAddr` is not set.
  unfoldable pub bbn_config_to_babylon_config : BbnConfig b → BabylonConfig b
  bbn_config_to_babylon_config bc = record {
    key = bc.key;
    chain_id = bc.chain_id;
    rpc_addr = bc.rpc_addr;
    grpc_addr = "";
    account_prefix = bc.account_prefix;
    keyring_backend = bc.keyring_backend;
    gas_adjustment = bc.gas_adjustment;
    gas_prices = bc.gas_prices;
    key_directory = bc.key_directory;
    debug = bc.debug;
    timeout = bc.timeout;
    block_timeout = bc.block_timeout;
    output_format = bc.output_format;
    sign_mode_str = bc.sign_mode_str;
    submitter_address = "";
  }

  -- `if err := cfg.Validate(); err != nil { panic(err) }`
  abbrev pub must_validate : Outcome (Config b) → Outcome (Config b)
  must_validate (ok cfg) = ok cfg
  must_validate (err e) = panic (panic_with e)
  must_validate (panic p) = panic p
  must_validate running = running

  unfoldable pub default_config_with_home_path : BabylonConfig b → String → Outcome (Config b)
  unfolding default_bbn_config
  default_config_with_home_path dc home_path = must_validate (
      validate (record {
        log_level = default_log_level;
        query_interval = default_query_interval;
        delegation_limit = default_delegation_limit;
        sigs_batch_size = default_sigs_batch_size;
        bitcoin_network = default_bitcoin_network;
        btc_net_params = default_btc_net_params b;
        babylon_config = record (default_bbn_config dc) {
          key = default_covenant_key_name;
          key_directory = home_path;
        };
      }))

  -- `default_covenant_dir` is what `btcutil.AppDataDir` gives for the program's name.
  unfoldable pub default_config : BabylonConfig b → String → Outcome (Config b)
  default_config dc default_covenant_dir = default_config_with_home_path dc default_covenant_dir
