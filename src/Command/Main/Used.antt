-- ===== src/Command/Main/Used.antt =====
-- `covd init` and `covd create-key`, with the flags that have a default left out.
use covenant.Prelude.{
  ◌≡◌, refl, ap, ◌∙◌, String, Bool, Option, none, some, Outcome, ok, err, panic, running,
}
use covenant.Prelude.Exec.{Exec, pure, ◌>>=◌, bind-eq-ok}
use covenant.Libraries.{Btc}
use covenant.Machine.{World}
use covenant.Util.{clean_and_expand_path}
use covenant.Config.{Config}
use covenant.Config.Defaults.{default_config_with_home_path}
use covenant.Config.Network.{load_config}
use covenant.Service.{Server}
use covenant.Command.{Machine}
use covenant.Command.Ini.{IsReadBack}
use covenant.Command.Init.{init_home}
use covenant.Command.Key.{with_key, create_key}
use covenant.Command.Key.Stored.{IsCreated}
use covenant.Command.Key.Initialised.{load_config-create_key-init_home}
use covenant.Command.Main.{
  Ending, finished, init_command, create_key_command, ending_of, run_command, init_action,
  create_key_action, main,
}

ending_of-eq-finished :
    {b : Btc} {W : Type 0} (r : Outcome (Option (Server b W)))
    → ending_of r ≡ finished
    → r ≡ ok none
ending_of-eq-finished (ok none) h = refl
ending_of-eq-finished (ok (some server)) h = cc
ending_of-eq-finished (err e) h = cc
ending_of-eq-finished (panic p) h = cc
ending_of-eq-finished running h = cc

-- A command that starts no server.
done :
    {b : Btc} {W : Type 0} (call : Exec (World W) (Unit {0})) (s t : World W)
    → (let r = (call >>= λ u. pure {A = Option (Server b W)} none) s in
        ◌≡◌ {A = Ending b W × World W} (ending_of r.0, r.1) (finished, t))
    → call s ≡ (ok tt, t)
done call s t h =
    let r = (call >>= λ u. pure none) s in
    let e : r ≡ (ok none, t) =
      ap (λ x. (x, r.1)) (ending_of-eq-finished r.0 (ap (λ x. x.0) h))
      ∙ ap (λ x. (ok none, x)) (ap (λ x. x.1) h) in
    let (u, v, k, k') = bind-eq-ok call (λ u. pure none) s e in
    k ∙ ap (λ x. (ok tt, x)) (ap (λ x. x.1) k')

module _ {b : Btc} {W : Type 0} (m : Machine b W) (dir : String) where
  -- For a default home directory that `init` takes as it is: once `covd init`, and then
  -- `covd create-key` with a key name, have exited with the status 0, `LoadConfig` for that directory
  -- returns the default configuration with the key's name and the backend test; this needs that the
  -- parser reads back the two configurations that are written: the default one and the one with the
  -- key's name and the backend test.
  pub load_config-main :
      (absolute key_name : String) (force : Bool) (s t u v w : World W)
      → ((cfg : Config b)
          → default_config_with_home_path m.default_babylon_config dir ≡ ok cfg
          → IsReadBack m cfg × IsReadBack m (with_key m cfg key_name "test"))
      → m.files.os.abs dir s ≡ (ok absolute, v)
      → clean_and_expand_path m.files.os absolute v ≡ (ok dir, w)
      → main m dir (init_command none force) s ≡ (finished, t)
      → main m dir (create_key_command none key_name none none none none) t ≡ (finished, u)
      → (cfg : Config b) × (default_config_with_home_path m.default_babylon_config dir ≡ ok cfg)
        × IsCreated m dir "chain-test" key_name "test" "" "" t u
        × (load_config m.files m.zero_config dir u ≡ (ok (with_key m cfg key_name "test"), u))
  unfolding main run_command init_action create_key_action
  load_config-main absolute key_name force s t u v w lawful abs_home clean_home initialised keyed =
      load_config-create_key-init_home m dir "chain-test" key_name "test" "" "" absolute force s t u
        v w lawful abs_home clean_home (done {b = b} (init_home m dir force) s t initialised)
        (done {b = b} (create_key m dir "chain-test" key_name "test" "" "") t u keyed)
