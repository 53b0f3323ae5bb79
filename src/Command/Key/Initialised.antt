-- ===== src/Command/Key/Initialised.antt =====
-- `init`, and then `create-key`.
use covenant.Prelude.{◌≡◌, ap, sym, subst, ◌∙◌, String, Bool, ok}
use covenant.Prelude.Results.{ok-injective}
use covenant.Libraries.{Btc}
use covenant.Machine.{World}
use covenant.Util.{clean_and_expand_path}
use covenant.Config.{Config}
use covenant.Config.Defaults.{default_config_with_home_path}
use covenant.Config.Network.{load_config}
use covenant.Command.{Machine}
use covenant.Command.Ini.{IsReadBack}
use covenant.Command.Init.{init_home}
use covenant.Command.Init.Stored.{IsMade, init_home-IsMade, load_config-IsMade}
use covenant.Command.Key.{with_key, create_key}
use covenant.Command.Key.Stored.{IsCreated, load_config-create_key}

module _ {b : Btc} {W : Type 0} (m : Machine b W)
    (home chain_id key_name backend passphrase hd_path : String) where
  home_path_of :
      (s t v w : World W) (absolute : String) (force : Bool)
      → m.files.os.abs home s ≡ (ok absolute, v)
      → clean_and_expand_path m.files.os absolute v ≡ (ok home, w)
      → (made : IsMade m home force s t) → made.home_path ≡ home
  home_path_of s t v w absolute force e k made =
      let same : made.absolute ≡ absolute =
        ok-injective (sym made.made_absolute ∙ ap (λ r. r.0) e) in
      let k' : clean_and_expand_path m.files.os absolute v ≡ (ok made.home_path, made.expanded_at) =
        subst
          (λ x. clean_and_expand_path m.files.os absolute x ≡ (ok made.home_path, made.expanded_at))
          (ap (λ r. r.1) e)
          (subst
            (λ a.
              clean_and_expand_path m.files.os a (m.files.os.abs home s).1
              ≡ (ok made.home_path, made.expanded_at))
            same made.expanded) in
      ok-injective (ap (λ r. r.0) (sym k' ∙ k))

  -- For a home directory that `init` takes as it is: after `init`, and then `create-key` in that
  -- directory, `LoadConfig` returns the default configuration with the key's name and backend; this
  -- needs that the parser reads back the two configurations that are written.
  pub load_config-create_key-init_home :
      (absolute : String) (force : Bool) (s t u v w : World W)
      → ((cfg : Config b)
          → default_config_with_home_path m.default_babylon_config home ≡ ok cfg
          → IsReadBack m cfg × IsReadBack m (with_key m cfg key_name backend))
      → m.files.os.abs home s ≡ (ok absolute, v)
      → clean_and_expand_path m.files.os absolute v ≡ (ok home, w)
      → init_home m home force s ≡ (ok tt, t)
      → create_key m home chain_id key_name backend passphrase hd_path t ≡ (ok tt, u)
      → (cfg : Config b) × (default_config_with_home_path m.default_babylon_config home ≡ ok cfg)
        × IsCreated m home chain_id key_name backend passphrase hd_path t u
        × (load_config m.files m.zero_config home u ≡ (ok (with_key m cfg key_name backend), u))
  load_config-create_key-init_home absolute force s t u v w lawful abs_home clean_home initialised
        keyed =
      let made = init_home-IsMade m home force s t initialised in
      let taken = home_path_of s t v w absolute force abs_home clean_home made in
      let default : default_config_with_home_path m.default_babylon_config home ≡ ok made.cfg =
        subst (λ p. default_config_with_home_path m.default_babylon_config p ≡ ok made.cfg) taken
          made.default in
      let (plain, with_name) = lawful made.cfg default in
      let here : load_config m.files m.zero_config home t ≡ (ok made.cfg, t) =
        subst (λ p. load_config m.files m.zero_config p t ≡ (ok made.cfg, t)) taken
          (load_config-IsMade m home force s t made plain) in
      let (created, reloads) =
        load_config-create_key m home chain_id key_name backend passphrase hd_path t u
          (λ cfg x e.
            subst (λ c. IsReadBack m (with_key m c key_name backend))
              (ok-injective (ap (λ r. r.0) (sym here ∙ e))) with_name)
          keyed in
      let same : created.cfg ≡ made.cfg =
        ok-injective (ap (λ r. r.0) (sym created.loaded ∙ here)) in
      (
        made.cfg,
        default,
        created,
        subst
            (λ c.
              load_config m.files m.zero_config home u ≡ (ok (with_key m c key_name backend), u))
            same reloads,
      )
