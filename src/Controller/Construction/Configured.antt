-- ===== src/Controller/Construction/Configured.antt =====
-- What client `NewBabylonController` and `NewClientController` build.
use text.Mathlib.Text.{◌==◌}
use text.Mathlib.TextEquality.{eq_iff}
use covenant.Prelude.{◌≡◌, ap, sym, subst, inl, inr, String, ok, Bool-cases, refl}
use covenant.Prelude.Results.{ok-injective}
use covenant.Prelude.Exec.{bind-eq-ok, wrap-eq-ok, wrap, lift}
use covenant.Libraries.{Btc}
use covenant.Config.{BbnConfig}
use covenant.Config.Defaults.{bbn_config_to_babylon_config}
use covenant.Controller.{ClientController}
use covenant.Controller.Babylon.{BabylonController, client_controller}
use covenant.Controller.Construction.{
  BbnPackage, new_babylon_controller, babylon_client_controller, new_client_controller,
}

module _ {b : Btc} {S : Type 0} (lib : BbnPackage b S) (cfg : BbnConfig b) (net : b.NetParams) where
  -- `bc` was built between `before` and `after`: its RPC client of the settings that it was given,
  -- as `BBNConfigToBabylonConfig` hands them on, after these passed the package's own validation.
  pub record IsConfigured (before after : S) (bc : BabylonController b S) : Type 0 where
    pub valid : lib.validate (bbn_config_to_babylon_config cfg) ≡ ok tt
    pub built : lib.new (bbn_config_to_babylon_config cfg) before ≡ (ok bc.bbn_client, after)
    pub same_cfg : bc.cfg ≡ cfg
    pub same_params : bc.btc_params ≡ net

  pub new_babylon_controller-IsConfigured :
      (before after : S) (bc : BabylonController b S)
      → new_babylon_controller lib cfg net before ≡ (ok bc, after)
      → IsConfigured before after bc
  unfolding new_babylon_controller
  new_babylon_controller-IsConfigured before after bc h =
      let (valid, u, e, k) =
        bind-eq-ok (wrap _ (lift (lib.validate (bbn_config_to_babylon_config cfg)))) _ before h in
      let (rpc, v, e', k') =
        bind-eq-ok (wrap _ (lib.new (bbn_config_to_babylon_config cfg))) _ u k in
      let checked =
        wrap-eq-ok _ (lift (lib.validate (bbn_config_to_babylon_config cfg))) before e in
      let built = wrap-eq-ok _ (lib.new (bbn_config_to_babylon_config cfg)) u e' in
      subst (λ s. IsConfigured before s bc) (ap (λ x. x.1) k')
        (subst (IsConfigured before v) (ok-injective (ap (λ x. x.0) k')) (record {
          valid = ap (λ x. x.0) checked;
          built =
              subst (λ s. lib.new (bbn_config_to_babylon_config cfg) s ≡ (ok rpc, v))
                (sym (ap (λ x. x.1) checked)) built;
          same_cfg = refl;
          same_params = refl;
        }))

  babylon_client_controller-IsConfigured :
      (before after : S) (client : ClientController b S)
      → babylon_client_controller lib cfg net before ≡ (ok client, after)
      → (bc : BabylonController b S) × (client ≡ client_controller bc)
        × IsConfigured before after bc
  babylon_client_controller-IsConfigured before after client h =
      let (bc, u, e, k) = bind-eq-ok (wrap _ (new_babylon_controller lib cfg net)) _ before h in
      (
        bc,
        sym (ok-injective (ap (λ x. x.0) k)),
        subst (λ s. IsConfigured before s bc) (ap (λ x. x.1) k)
            (new_babylon_controller-IsConfigured before u bc
              (wrap-eq-ok _ (new_babylon_controller lib cfg net) before e)),
      )

  -- `NewClientController` knows one chain. The client that it returns is the Babylon controller over
  -- an RPC client built of the settings that `BBNConfigToBabylonConfig` hands on, after these passed
  -- the validation of the client's package.
  pub new_client_controller-IsConfigured :
      (chain_name : String) (before after : S) (client : ClientController b S)
      → new_client_controller lib chain_name cfg net before ≡ (ok client, after)
      → (chain_name ≡ "babylon")
        × (bc : BabylonController b S) × (client ≡ client_controller bc)
        × IsConfigured before after bc
  unfolding new_client_controller
  new_client_controller-IsConfigured chain_name before after client h =
      elim (Bool-cases (chain_name == "babylon")) [
        | inl e ↦
            let (bc, same, configured) =
              babylon_client_controller-IsConfigured before after client (rw e at h) in
            ((eq_iff chain_name "babylon").0 e, bc, same, configured)
        | inr e ↦ cc (rw e at h)
      ]
