-- ===== src/Config/Network/Validated.antt =====
-- Which configurations `Validate` accepts, and what of them the daemon is given.
use covenant.Prelude.{
  ◌≡◌, refl, ap, sym, ◌∙◌, ◌↔◌, ◌⊎◌, inl, inr, String, Bool, true, false, Option, none, some, ok,
}
use covenant.Prelude.Switch.{switch_case}
use covenant.Prelude.Results.{ok-injective}
use covenant.Prelude.Exec.{bind-eq-ok}
use covenant.Libraries.{Btc}
use covenant.Config.{Config}
use covenant.Util.{file_exists}
use covenant.Config.Network.{
  network_params, with_network, validate, ConfigFiles, config_file, parse_existing, load_config,
}

module _ (b : Btc) where
  -- The five networks and their parameters.
  abbrev pub IsNetwork : String → b.NetParams → Type 0
  IsNetwork name net =
      ((name ≡ "mainnet") × (net ≡ b.main_net_params))
      ⊎ ((name ≡ "testnet") × (net ≡ b.test_net3_params))
      ⊎ ((name ≡ "regtest") × (net ≡ b.regression_net_params))
      ⊎ ((name ≡ "simnet") × (net ≡ b.sim_net_params))
      ⊎ ((name ≡ "signet") × (net ≡ b.sig_net_params))

  network_params-IsNetwork :
      (name : String) (net : b.NetParams) → network_params b name ≡ some net → IsNetwork name net
  unfolding network_params
  network_params-IsNetwork name net h = elim (switch_case name _ net _ "mainnet" h) [
    | inl e ↦ inl e
    | inr h ↦ inr (elim (switch_case name _ net _ "testnet" h) [
      | inl e ↦ inl e
      | inr h ↦ inr (elim (switch_case name _ net _ "regtest" h) [
        | inl e ↦ inl e
        | inr h ↦ inr (elim (switch_case name _ net _ "simnet" h) [
          | inl e ↦ inl e
          | inr h ↦ inr (elim (switch_case name _ net _ "signet" h) [ inl e ↦ e | inr h ↦ cc ])
        ])
      ])
    ])
  ]

  IsNetwork-network_params :
      (name : String) (net : b.NetParams) → IsNetwork name net → network_params b name ≡ some net
  unfolding network_params
  IsNetwork-network_params name net (inl (e, k)) = rw (e, k) refl
  IsNetwork-network_params name net (inr (inl (e, k))) = rw (e, k) refl
  IsNetwork-network_params name net (inr (inr (inl (e, k)))) = rw (e, k) refl
  IsNetwork-network_params name net (inr (inr (inr (inl (e, k))))) = rw (e, k) refl
  IsNetwork-network_params name net (inr (inr (inr (inr (e, k))))) = rw (e, k) refl

module _ {b : Btc} where
  with_network-eq-ok :
      (cfg cfg' : Config b) (net : Option b.NetParams)
      → with_network cfg net ≡ ok cfg'
      → (params : b.NetParams) × (net ≡ some params)
        × (cfg' ≡ record cfg { btc_net_params = params })
  with_network-eq-ok cfg cfg' none h = cc
  with_network-eq-ok cfg cfg' (some net) h = (net, refl, sym (ok-injective h))

  -- `Validate` accepts a configuration exactly when its network's name is one of the five, and
  -- gives it that network's parameters and changes nothing else.
  pub validate_iff :
      (cfg cfg' : Config b)
      → (validate cfg ≡ ok cfg') ↔ (
          (net : b.NetParams) × IsNetwork b cfg.bitcoin_network net
          × (cfg' ≡ record cfg { btc_net_params = net }))
  unfolding validate
  validate_iff cfg cfg' = (
    λ h.
        let (net, e, k) = with_network-eq-ok cfg cfg' (network_params b cfg.bitcoin_network) h in
        (net, network_params-IsNetwork b cfg.bitcoin_network net e, k),
    λ (net, n, k).
        ap (with_network cfg) (IsNetwork-network_params b cfg.bitcoin_network net n)
        ∙ ap ok (sym k),
  )

module _ {b : Btc} {S : Type 0} (files : ConfigFiles b S) where
  -- A configuration that `LoadConfig` returns is what the parser made of a file that exists, but
  -- that its `BTCNetParams` are those of the network that it names.
  pub load_config_validated :
      (zero_config cfg : Config b) (home_path : String) (s t : S)
      → load_config files zero_config home_path s ≡ (ok cfg, t)
      → (u : S) × (parsed : Config b) × (net : b.NetParams) × (file_exists files.os
            (config_file files.os home_path)
            s
          ≡ (ok true, u))
        × (files.parse_file zero_config (config_file files.os home_path) u ≡ (ok parsed, t))
        × IsNetwork b parsed.bitcoin_network net
        × (cfg ≡ record parsed { btc_net_params = net })
  unfolding load_config
  load_config_validated zero_config cfg home_path s t h =
      let (found, u, e, k) =
        bind-eq-ok (file_exists files.os (config_file files.os home_path)) _ s h in
      let (there, parsed, e', v) = parsed_file found u k in
      let (net, n, same) = (validate_iff parsed cfg).0 v in
      (u, parsed, net, e ∙ ap (λ x. (ok x, u)) there, e', n, same)
    where
      parsed_file :
          (found : Bool) (u : S)
          → parse_existing files zero_config (config_file files.os home_path) found u ≡ (ok cfg, t)
          → (found ≡ true)
            × (parsed : Config b) × (files.parse_file zero_config (config_file files.os home_path) u
                ≡ (ok parsed, t))
            × (validate parsed ≡ ok cfg)
      parsed_file false u k = cc
      parsed_file true u k =
          let (parsed, v, e, k') =
            bind-eq-ok (files.parse_file zero_config (config_file files.os home_path)) _ u k in
          (refl, parsed, e ∙ ap (λ x. (ok parsed, x)) (ap (λ x. x.1) k'), ap (λ x. x.0) k')
