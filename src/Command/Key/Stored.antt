-- ===== src/Command/Key/Stored.antt =====
-- What `create-key` leaves behind.
use covenant.Prelude.{◌≡◌, sym, subst, String, ok}
use covenant.Prelude.Exec.{wrap, bind-eq-ok, wrap-eq-ok}
use covenant.Libraries.{Btc}
use covenant.Machine.{World}
use covenant.Config.{Config}
use covenant.Config.Network.{config_file, load_config}
use covenant.Config.Network.Validated.{IsNetwork, load_config_validated}
use covenant.Keyring.Account.{ChainKeyInfo, create_covenant_key}
use covenant.Command.{Machine}
use covenant.Command.Ini.{IsReadBack, load_config-write_file}
use covenant.Command.Key.{print_resp_json, with_key, create_key}

module _ {b : Btc} {W : Type 0} (m : Machine b W)
    (home_path chain_id key_name backend passphrase hd_path : String) where
  -- The key that `create-key` has made, and the configuration that it wrote.
  pub record IsCreated (before after : World W) : Type 0 where
    pub cfg : Config b
    pub key_pair : ChainKeyInfo b
    pub loaded_at : World W
    pub created_at : World W
    pub printed_at : World W
    pub loaded : load_config m.files m.zero_config home_path before ≡ (ok cfg, loaded_at)
    pub created :
        create_covenant_key b m.keyring home_path chain_id key_name backend passphrase hd_path
          loaded_at
        ≡ (ok key_pair, created_at)
    pub printed :
        print_resp_json m
          (record {
            name = key_name;
            public_key = m.marshal_hex (b.new_bip340_pub_key key_pair.public_key);
          })
          created_at
        ≡ (ok tt, printed_at)
    pub written :
        m.files.write_file
          (with_key m cfg key_name backend)
          (config_file m.files.os home_path)
          printed_at
        ≡ (ok tt, after)

  create_key-IsCreated :
      (s t : World W)
      → create_key m home_path chain_id key_name backend passphrase hd_path s ≡ (ok tt, t)
      → IsCreated s t
  unfolding create_key
  create_key-IsCreated s t h =
      let (cfg, u, e1, k1) =
        bind-eq-ok (wrap _ (load_config m.files m.zero_config home_path)) _ s h in
      let (key_pair, v, e2, k2) =
        bind-eq-ok
          (wrap _ (
            create_covenant_key b m.keyring home_path chain_id key_name backend passphrase hd_path))
          _ u k1 in
      let (p, w, e3, k3) =
        bind-eq-ok
          (print_resp_json m (record {
            name = key_name;
            public_key = m.marshal_hex (b.new_bip340_pub_key key_pair.public_key);
          }))
          _ v k2 in
      record {
        cfg = cfg;
        key_pair = key_pair;
        loaded_at = u;
        created_at = v;
        printed_at = w;
        loaded = wrap-eq-ok _ (load_config m.files m.zero_config home_path) s e1;
        created =
            wrap-eq-ok _
              (create_covenant_key b m.keyring home_path chain_id key_name backend passphrase
                hd_path)
              u e2;
        printed = e3;
        written = k3;
      }

  load_config-IsNetwork :
      (cfg : Config b) (s t : World W)
      → load_config m.files m.zero_config home_path s ≡ (ok cfg, t)
      → IsNetwork b cfg.bitcoin_network cfg.btc_net_params
  load_config-IsNetwork cfg s t h =
      let (u, parsed, net, e, e', known, same) =
        load_config_validated m.files m.zero_config cfg home_path s t h in
      subst (λ c. IsNetwork b c.bitcoin_network c.btc_net_params) (sym same) known

  -- After `create-key` has made a key, `LoadConfig` returns the configuration that it had loaded
  -- with the key's name and backend, and nothing else changed; this needs that the parser reads
  -- back the configuration that was written.
  pub load_config-create_key :
      (s t : World W)
      → ((cfg : Config b) (u : World W)
          → load_config m.files m.zero_config home_path s ≡ (ok cfg, u)
          → IsReadBack m (with_key m cfg key_name backend))
      → create_key m home_path chain_id key_name backend passphrase hd_path s ≡ (ok tt, t)
      → (created : IsCreated s t) × (load_config m.files m.zero_config home_path t
          ≡ (ok (with_key m created.cfg key_name backend), t))
  load_config-create_key s t lawful h =
      let created = create_key-IsCreated s t h in
      (
        created,
        load_config-write_file m (with_key m created.cfg key_name backend) home_path
            created.printed_at t created.cfg.btc_net_params
            (lawful created.cfg created.loaded_at created.loaded)
            (load_config-IsNetwork created.cfg s created.loaded_at created.loaded) created.written,
      )
