-- ===== src/Command/Start/Started.antt =====
-- What the daemon that `start` puts together does.
use covenant.Prelude.{ℕ, ◌≡◌, ap, sym, subst, ◌∙◌, String, ok}
use covenant.Prelude.Results.{ok-injective}
use covenant.Prelude.Exec.{wrap, bind-eq-ok, wrap-eq-ok, ◌>>=◌}
use covenant.Libraries.{Btc}
use covenant.Machine.{World}
use covenant.Util.{clean_and_expand_path}
use covenant.Log.{Logger, new_root_logger_with_file}
use covenant.Config.{Config}
use covenant.Config.Network.{load_config, log_file}
use covenant.Controller.Babylon.{BabylonController, client_controller}
use covenant.Controller.Construction.{new_babylon_controller}
use covenant.Controller.Construction.Configured.{IsConfigured, new_babylon_controller-IsConfigured}
use covenant.Emulator.Defs.{CovenantEmulator}
use covenant.Emulator.Construction.{new_covenant_emulator}
use covenant.Emulator.Construction.Keyed.{IsKeyed, new_covenant_emulator-IsKeyed}
use covenant.Emulator.Retry.{RetryDo}
use covenant.Emulator.Retry.Attempts.{IsRetry}
use covenant.Service.{Server, new, Steps}
use covenant.Daemon.{over_babylon}
use covenant.Daemon.Deeds.{Deeds}
use covenant.Daemon.Chain.{server-Deeds}
use covenant.Command.{Machine}
use covenant.Command.Start.{serve, launch, start}

module _ {b : Btc} {W : Type 0} (m : Machine b W) (home_path : String) (cfg : Config b)
    (passphrase : String) where
  -- The parts of the daemon: a logger of the level that is set, the Babylon client, built of the
  -- settings, and the emulator with the key that they name.
  pub record IsLaunched (before after : World W) (server : Server b W) : Type 0 where
    pub logger : Logger
    pub bc : BabylonController b (World W)
    pub ce : CovenantEmulator b W
    pub logged_at : World W
    pub connected_at : World W
    pub keyed_at : World W
    pub logging :
        new_root_logger_with_file m.unicode_lower m.files.os
          (log_file m.files.os home_path)
          cfg.log_level
          before
        ≡ (ok logger, logged_at)
    pub connected :
        IsConfigured m.bbn cfg.babylon_config cfg.btc_net_params logged_at connected_at bc
    pub keyed : IsKeyed m.keyring cfg (client_controller bc) passphrase connected_at keyed_at ce
    pub intercepted : (m.intercept keyed_at).1 ≡ after
    pub served : server ≡ new ce after

  serves :
      (ce : CovenantEmulator b W) (s t : World W) (server : Server b W)
      → (m.intercept >>= λ u. serve m ce) s ≡ (ok server, t)
      → ((m.intercept s).1 ≡ t) × (server ≡ new ce t)
  serves ce s t server h =
      let (u, v, e, k) = bind-eq-ok m.intercept (λ u. serve m ce) s h in
      let here : v ≡ t = ap (λ r. r.1) k in
      let made : new ce v ≡ server = ok-injective (ap (λ r. r.0) k) in
      (ap (λ r. r.1) e ∙ here, sym made ∙ ap (new ce) here)

  launch-IsLaunched :
      (s t : World W) (server : Server b W)
      → launch m home_path cfg passphrase s ≡ (ok server, t)
      → IsLaunched s t server
  unfolding launch
  launch-IsLaunched s t server h =
      let (logger, u, e1, k1) =
        bind-eq-ok
          (wrap _ (
            new_root_logger_with_file m.unicode_lower m.files.os (log_file m.files.os home_path)
              cfg.log_level))
          _ s h in
      let (bc, v, e2, k2) =
        bind-eq-ok (wrap _ (new_babylon_controller m.bbn cfg.babylon_config cfg.btc_net_params)) _ u
          k1 in
      let (ce, w, e3, k3) =
        bind-eq-ok (wrap _ (new_covenant_emulator m.keyring cfg (client_controller bc) passphrase))
          _ v k2 in
      let (intercepted, served) = serves ce w t server k3 in
      record {
        logger = logger;
        bc = bc;
        ce = ce;
        logged_at = u;
        connected_at = v;
        keyed_at = w;
        logging = wrap-eq-ok _ (new_root_logger_with_file _ _ _ _) s e1;
        connected =
            new_babylon_controller-IsConfigured m.bbn cfg.babylon_config cfg.btc_net_params u v bc (
              wrap-eq-ok _ (new_babylon_controller m.bbn cfg.babylon_config cfg.btc_net_params) u
                e2);
        keyed =
            new_covenant_emulator-IsKeyed m.keyring cfg (client_controller bc) passphrase v w ce (
              wrap-eq-ok _ (new_covenant_emulator m.keyring cfg (client_controller bc) passphrase) v
                e3);
        intercepted = intercepted;
        served = served;
      }

module _ {b : Btc} {W : Type 0} (m : Machine b W) where
  -- The configuration that was loaded, and the daemon that is launched with it.
  pub record IsStarted (passphrase : String) (after : World W) (server : Server b W) : Type 0 where
    pub home_path : String
    pub cfg : Config b
    pub expanded_at : World W
    pub loaded_at : World W
    pub loaded : load_config m.files m.zero_config home_path expanded_at ≡ (ok cfg, loaded_at)
    pub launched : IsLaunched m home_path cfg passphrase loaded_at after server

  start-IsStarted :
      (home passphrase : String) (s t : World W) (server : Server b W)
      → start m home passphrase s ≡ (ok server, t)
      → IsStarted passphrase t server
  unfolding start
  start-IsStarted home passphrase s t server h =
      let (absolute, u, e1, k1) = bind-eq-ok (m.files.os.abs home) _ s h in
      let (home_path, v, e2, k2) = bind-eq-ok (clean_and_expand_path m.files.os absolute) _ u k1 in
      let (cfg, w, e3, k3) =
        bind-eq-ok (wrap _ (load_config m.files m.zero_config home_path)) _ v k2 in
      record {
        home_path = home_path;
        cfg = cfg;
        expanded_at = v;
        loaded_at = w;
        loaded = wrap-eq-ok _ (load_config m.files m.zero_config home_path) v e3;
        launched = launch-IsLaunched m home_path cfg passphrase w t server k3;
      }

  -- With a `retry.Do` that is as documented: a server that `start` returns runs the emulator over
  -- the Babylon controller, both built of the configuration that was loaded. Whatever calls of
  -- `RunUntilShutdown` and signals it lives through, a tick that panics or never returns included, it
  -- does nothing from then on but reads of the key, lookups of its address, queries, and transactions
  -- whose messages carry, one by one and unchanged, signatures certified under parameters that it had
  -- fetched, for delegations that the chain then answered with as pending ones and that had no
  -- signature by its key.
  pub start_serves :
      (home passphrase : String) (s t : World W) (server : Server b W) (retry_do : RetryDo b W)
      (fuel : ℕ) (later : Server b W)
      → IsRetry retry_do
      → start m home passphrase s ≡ (ok server, t)
      → Steps retry_do fuel server later
      → (started : IsStarted passphrase t server) × Deeds started.launched.ce started.launched.bc t
          later.life.world
  start_serves home passphrase s t server retry_do fuel later lawful h k =
      let i = start-IsStarted home passphrase s t server h in
      let l = i.launched in
      let same : l.ce ≡ over_babylon l.ce l.bc =
        ap (λ c. record l.ce { cc = c }) l.keyed.same_client in
      (
        i,
        server-Deeds l.ce l.bc retry_do fuel t later lawful
            (subst (λ x. Steps retry_do fuel x later) (l.served ∙ ap (λ x. new x t) same) k),
      )
