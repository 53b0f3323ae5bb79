-- ===== src/Command/Key.antt =====
-- `createKey` and `printRespJSON` of cmd/covd/key.go.
pub mod Stored
pub mod Initialised
use Prim.Native.String
use covenant.Prelude.{String, wrapf, wrapf_text, Outcome, ok, err, panic, running}
use covenant.Prelude.Exec.{Exec, pure, lift, wrap, ◌>>=◌}
use covenant.Libraries.{Btc}
use covenant.Machine.{World}
use covenant.Config.{Config}
use covenant.Config.Network.{config_file, load_config}
use covenant.Keyring.Account.{create_covenant_key}
use covenant.Command.{Machine, CovenantKey}

module _ {b : Btc} {W : Type 0} (m : Machine b W) where
  abbrev pub print_marshalled : Outcome String → Exec (World W) (Unit {0})
  print_marshalled (ok json_bytes) w = (ok tt, m.print (String.◌++◌ json_bytes "\n") w)
  print_marshalled (err e) w = (ok tt, m.print_error "unable to decode response: " e w)
  print_marshalled (panic p) w = (panic p, w)
  print_marshalled running w = (running, w)

  unfoldable pub print_resp_json : CovenantKey → Exec (World W) (Unit {0})
  print_resp_json resp = print_marshalled (m.marshal_indent resp)

  -- The configuration with the key's name and backend.
  abbrev pub with_key : Config b → String → String → Config b
  with_key cfg key_name key_backend = record cfg {
    babylon_config = record cfg.babylon_config { key = key_name; keyring_backend = key_backend };
  }

  -- The flags are the home directory, the chain's id, the key's name, the backend, the passphrase
  -- and the hd path.
  unfoldable pub create_key :
      String → String → String → String → String → String → Exec (World W) (Unit {0})
  create_key home_path chain_id key_name backend passphrase hd_path = do
    cfg ←
        wrap (wrapf_text "failed to load the config from %s: %w" (config_file m.files.os home_path))
          (load_config m.files m.zero_config home_path)
    key_pair ←
        wrap (wrapf "failed to create covenant key: %w")
          (create_covenant_key b m.keyring home_path chain_id key_name backend passphrase hd_path)
    u ← print_resp_json (record {
      name = key_name;
      public_key = m.marshal_hex (b.new_bip340_pub_key key_pair.public_key);
    })
    m.files.write_file (with_key cfg key_name backend) (config_file m.files.os home_path)
