-- ===== src/Command/Ini.antt =====
-- What the commands rely on the configuration file for.
use covenant.Prelude.{◌≡◌, String, true, ok, refl}
use covenant.Libraries.{Btc}
use covenant.Machine.{World}
use covenant.Util.{file_exists}
use covenant.Config.{Config}
use covenant.Config.Network.{config_file, load_config}
use covenant.Config.Network.Validated.{IsNetwork, validate_iff}
use covenant.Command.{Machine}

module _ {b : Btc} {W : Type 0} (m : Machine b W) (cfg : Config b) where
  -- The documented behaviour of `IniParser` for one configuration: after `WriteFile` there is a
  -- file, from which `ParseFile` reads the options that were written. `BTCNetParams` is no option.
  pub record IsReadBack : Type 0 where
    pub kept :
        (path : String) (s t : World W)
        → m.files.write_file cfg path s ≡ (ok tt, t)
        → (file_exists m.files.os path t ≡ (ok true, t))
          × (m.files.parse_file m.zero_config path t
              ≡ (ok (record cfg { btc_net_params = m.zero_config.btc_net_params }), t))

module _ {b : Btc} {W : Type 0} (m : Machine b W) (cfg : Config b) (home_path : String) where
  -- `LoadConfig` returns a configuration that was written, with the parameters of its network.
  pub load_config-write_file :
      (s t : World W) (net : b.NetParams)
      → IsReadBack m cfg
      → IsNetwork b cfg.bitcoin_network net
      → m.files.write_file cfg (config_file m.files.os home_path) s ≡ (ok tt, t)
      → load_config m.files m.zero_config home_path t
        ≡ (ok (record cfg { btc_net_params = net }), t)
  unfolding load_config
  load_config-write_file s t net lawful known written =
      let (there, parsed) = lawful.kept (config_file m.files.os home_path) s t written in
      rw
        (
          there,
          parsed,
          (validate_iff (record cfg { btc_net_params = m.zero_config.btc_net_params })
                (record cfg { btc_net_params = net })).1
              (net, known, refl),
        )
        refl
