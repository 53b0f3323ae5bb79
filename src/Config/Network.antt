-- ===== src/Config/Network.antt =====
-- `Validate` and `LoadConfig` of config/config.go. The operating system and the parser of
-- the file are parameters.
pub mod Validated
use text.Mathlib.Text.{◌==◌}
use covenant.Prelude.{
  String, Bool, true, false, Option, none, some, errorf_text, Outcome, ok, err, if◌then◌else◌,
}
use covenant.Prelude.Exec.{Exec, pure, lift, ◌>>=◌}
use covenant.Libraries.{Btc}
use covenant.Util.{Os, file_exists}
use covenant.Config.{Config}

-- The `switch` on the network's name.
unfoldable pub network_params : (b : Btc) → String → Option b.NetParams
network_params b name =
    if name == "mainnet"
    then some b.main_net_params
    else if name == "testnet"
    then some b.test_net3_params
    else if name == "regtest"
    then some b.regression_net_params
    else if name == "simnet"
    then some b.sim_net_params
    else if name == "signet"
    then some b.sig_net_params
    else none

module _ {b : Btc} where
  abbrev pub with_network : Config b → Option b.NetParams → Outcome (Config b)
  with_network cfg (some net) = ok (record cfg { btc_net_params = net })
  with_network cfg none = err (errorf_text "unsupported Bitcoin network: %s" cfg.bitcoin_network)

  -- The configuration is handed back with its `BTCNetParams`.
  unfoldable pub validate : Config b → Outcome (Config b)
  validate cfg = with_network cfg (network_params b cfg.bitcoin_network)

-- `flags.NewIniParser` over a configuration: `ParseFile` into one that is there, and `WriteFile`.
pub record ConfigFiles (b : Btc) (S : Type 0) : Type 0 where
  pub os : Os S
  pub parse_file : Config b → String → Exec S (Config b)
  pub write_file : Config b → String → Exec S (Unit {0})

abbrev pub default_log_filename : String
default_log_filename = "covd.log"

abbrev pub default_config_file_name : String
default_config_file_name = "covd.conf"

abbrev pub default_log_dirname : String
default_log_dirname = "logs"

module _ {S : Type 0} (os : Os S) where
  unfoldable pub config_file : String → String
  config_file home_path = os.join home_path default_config_file_name

  unfoldable pub log_dir : String → String
  log_dir home_path = os.join home_path default_log_dirname

  unfoldable pub log_file : String → String
  log_file home_path = os.join (log_dir home_path) default_log_filename

module _ {b : Btc} {S : Type 0} (files : ConfigFiles b S) where
  abbrev pub parse_existing : Config b → String → Bool → Exec S (Config b)
  parse_existing zero_config cfg_file false =
      lift (err (errorf_text "specified config file does not exist in %s" cfg_file))
  parse_existing zero_config cfg_file true = do
    cfg ← files.parse_file zero_config cfg_file
    lift (validate cfg)

  -- `zero_config` is the zero value of `Config`.
  unfoldable pub load_config : Config b → String → Exec S (Config b)
  load_config zero_config home_path = do
    exists ← file_exists files.os (config_file files.os home_path)
    parse_existing zero_config (config_file files.os home_path) exists
