-- ===== src/Command/Init/Stored.antt =====
-- What `init` leaves behind.
use covenant.Prelude.{◌≡◌, refl, ap, sym, subst, inl, inr, String, Bool, true, false, not, ◌&&◌, ok}
use covenant.Prelude.Results.{ok-injective}
use covenant.Prelude.Exec.{bind-eq-ok, continue-eq-ok}
use covenant.Libraries.{Btc}
use covenant.Machine.{World}
use covenant.Util.{file_exists, make_directory, clean_and_expand_path}
use covenant.Config.{Config}
use covenant.Config.Defaults.{default_config_with_home_path}
use covenant.Config.Network.{network_params, validate, config_file, log_dir, load_config}
use covenant.Config.Network.Validated.{IsNetwork}
use covenant.Command.{Machine}
use covenant.Command.Ini.{IsReadBack, load_config-write_file}
use covenant.Command.Init.{make_home, unless_taken, init_home}

module _ {b : Btc} {W : Type 0} (m : Machine b W) where
  unless_taken-eq-ok :
      (home_path : String) (taken : Bool) (s t : World W)
      → unless_taken m home_path taken s ≡ (ok tt, t)
      → (taken ≡ false) × (make_home m home_path s ≡ (ok tt, t))
  unless_taken-eq-ok home_path true s t h = cc
  unless_taken-eq-ok home_path false s t h = (refl, h)

  -- The home directory that `init` has made, and its default configuration.
  pub record IsMade (home : String) (force : Bool) (before after : World W) : Type 0 where
    pub absolute : String
    pub home_path : String
    pub cfg : Config b
    pub expanded_at : World W
    pub looked_at : World W
    pub made_at : World W
    pub logs_at : World W
    pub exists : Bool
    pub free : (exists && not force) ≡ false
    pub made_absolute : (m.files.os.abs home before).0 ≡ ok absolute
    pub expanded :
        clean_and_expand_path m.files.os absolute (m.files.os.abs home before).1
        ≡ (ok home_path, expanded_at)
    pub looked : file_exists m.files.os home_path expanded_at ≡ (ok exists, looked_at)
    pub home_made : make_directory m.files.os home_path looked_at ≡ (ok tt, made_at)
    pub logs_made :
        make_directory m.files.os (log_dir m.files.os home_path) made_at ≡ (ok tt, logs_at)
    pub default : default_config_with_home_path m.default_babylon_config home_path ≡ ok cfg
    pub written : m.files.write_file cfg (config_file m.files.os home_path) logs_at ≡ (ok tt, after)

  pub init_home-IsMade :
      (home : String) (force : Bool) (s t : World W)
      → init_home m home force s ≡ (ok tt, t)
      → IsMade home force s t
  unfolding init_home
  init_home-IsMade home force s t h =
      let (absolute, u, e1, k1) = bind-eq-ok (m.files.os.abs home) _ s h in
      let (home_path, v, e2, k2) = bind-eq-ok (clean_and_expand_path m.files.os absolute) _ u k1 in
      let (exists, w, e3, k3) = bind-eq-ok (file_exists m.files.os home_path) _ v k2 in
      let (free, k4) = unless_taken-eq-ok home_path (exists && not force) w t k3 in
      let (p, x, e5, k5) = bind-eq-ok (make_directory m.files.os home_path) _ w k4 in
      let (q, y, e6, k6) =
        bind-eq-ok (make_directory m.files.os (log_dir m.files.os home_path)) _ x k5 in
      let (cfg, e7, k7) =
        continue-eq-ok (default_config_with_home_path m.default_babylon_config home_path) _ y k6 in
      record {
        absolute = absolute;
        home_path = home_path;
        cfg = cfg;
        expanded_at = v;
        looked_at = w;
        made_at = x;
        logs_at = y;
        exists = exists;
        free = free;
        made_absolute = ap (λ r. r.0) e1;
        expanded =
            subst (λ a. clean_and_expand_path m.files.os absolute a ≡ (ok home_path, v))
              (sym (ap (λ r. r.1) e1)) e2;
        looked = e3;
        home_made = e5;
        logs_made = e6;
        default = e7;
        written = k7;
      }

  default_config-IsNetwork :
      (home_path : String) (cfg : Config b)
      → default_config_with_home_path m.default_babylon_config home_path ≡ ok cfg
      → IsNetwork b cfg.bitcoin_network cfg.btc_net_params
  unfolding default_config_with_home_path validate network_params
  default_config-IsNetwork home_path cfg h =
      subst (λ c. IsNetwork b c.bitcoin_network c.btc_net_params) (ok-injective h)
        (inr (inr (inr (inl (refl, refl)))))

  -- After `init`, `LoadConfig` returns the default configuration for the home directory that was
  -- made, whatever the network parameters of the zero configuration are; this needs that the parser
  -- reads back this one configuration.
  pub load_config-IsMade :
      (home : String) (force : Bool) (s t : World W) (made : IsMade home force s t)
      → IsReadBack m made.cfg
      → load_config m.files m.zero_config made.home_path t ≡ (ok made.cfg, t)
  load_config-IsMade home force s t made lawful =
      load_config-write_file m made.cfg made.home_path made.logs_at t made.cfg.btc_net_params lawful
        (default_config-IsNetwork made.home_path made.cfg made.default) made.written
