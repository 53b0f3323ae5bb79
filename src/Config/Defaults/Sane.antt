-- ===== src/Config/Defaults/Sane.antt =====
-- What the default settings promise, and what of the settings reaches the Babylon client.
use covenant.Prelude.{◌<◌, ◌≡◌, refl, ◌+◌, String, ok, List, length, flatten, arith, Int.pos}
use covenant.Libraries.{Btc}
use covenant.Config.{Config}
use covenant.Config.Network.{network_params, validate}
use covenant.Config.Defaults.{
  BabylonConfig, default_bbn_config, bbn_config_to_babylon_config, default_config_with_home_path,
}
use covenant.Emulator.Batches.{delegations_to_batches}
use covenant.Emulator.Batches.Cover.{IsPacked, delegations_to_batches_cover}

module _ {b : Btc} (dc : BabylonConfig b) where
  -- `DefaultConfigWithHomePath` does not panic. What it returns passes `Validate` unchanged, looks
  -- for the daemon's key in the home directory, and has a batch size with which
  -- `delegationsToBatches` ends, in batches of 20, for every slice of fewer than 2 ^ 63 elements.
  pub default_config_with_home_path_sane :
      {A : Type 0} (home_path : String) (dels : List A)
      → length dels < 9223372036854775808
      → (cfg : Config b) × (default_config_with_home_path dc home_path ≡ ok cfg)
        × (validate cfg ≡ ok cfg)
        × (cfg.babylon_config.key_directory ≡ home_path)
        × (batches : List (List A)) × (delegations_to_batches
              (length dels + 1)
              cfg.sigs_batch_size
              dels
            ≡ ok batches)
        × (flatten batches ≡ dels)
        × IsPacked 20 batches
  unfolding default_config_with_home_path validate network_params
  default_config_with_home_path_sane home_path dels short =
      let (batches, returned, whole, packed) =
        delegations_to_batches_cover (length dels + 1) 20 dels (omega arith) (omega arith) short
          (omega arith) in
      (_, refl, refl, refl, batches, returned, whole, packed)

  -- Through the settings of the daemon the Babylon client gets the defaults of its own package but
  -- for four: the gRPC address, the key directory and the submitter are empty, and the block
  -- timeout is a minute.
  pub bbn_config_to_babylon_config-default_bbn_config :
      bbn_config_to_babylon_config (default_bbn_config dc) ≡ record dc {
        grpc_addr = "";
        key_directory = "";
        block_timeout = pos 60000000000;
        submitter_address = "";
      }
  unfolding bbn_config_to_babylon_config default_bbn_config
  bbn_config_to_babylon_config-default_bbn_config = refl
