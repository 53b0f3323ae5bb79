-- ===== src/Config.antt =====
-- config/: the settings of the daemon and of its Babylon client, and their validation.
pub mod Network
pub mod Defaults
use covenant.Prelude.{ℕ, String, Bool, Int.ℤ}
use covenant.Libraries.{Btc}

pub record BbnConfig (b : Btc) : Type 0 where
  pub key : String
  pub chain_id : String
  pub rpc_addr : String
  pub grpc_addr : String
  pub account_prefix : String
  pub keyring_backend : String
  pub gas_adjustment : b.Float64
  pub gas_prices : String
  pub key_directory : String
  pub debug : Bool
  pub timeout : ℤ
  pub block_timeout : ℤ
  pub output_format : String
  pub sign_mode_str : String

-- Durations are nanoseconds.
pub record Config (b : Btc) : Type 0 where
  pub log_level : String
  pub query_interval : ℤ
  pub delegation_limit : ℕ  -- uint64
  pub sigs_batch_size : ℕ  -- uint64
  pub bitcoin_network : String
  pub btc_net_params : b.NetParams
  pub babylon_config : BbnConfig b
