-- ===== src/Emulator/Construction/Keyed.antt =====
-- What the emulator that `NewCovenantEmulator` returns is built of.
use text.Mathlib.Text.{◌==◌}
use text.Mathlib.TextEquality.{eq_iff}
use covenant.Prelude.{◌≡◌, ◌≢◌, refl, ap, sym, subst, inl, inr, String, none, ok, Bool-cases}
use covenant.Prelude.Results.{ok-injective}
use covenant.Prelude.Exec.{wrap, bind-eq-ok, continue-eq-ok, wrap-eq-ok}
use covenant.Libraries.{Btc, Bytes}
use covenant.Config.{Config}
use covenant.Machine.{World}
use covenant.Keyring.{Keyring, ChainKeyringController, get_chain_priv_key}
use covenant.Keyring.Creation.{
  KeyringPackage, create_keyring, new_chain_keyring_controller_with_keyring,
}
use covenant.Controller.{ClientController}
use covenant.Emulator.Defs.{CovenantEmulator, get_priv_key}
use covenant.Emulator.Construction.{new_with_reader, new_covenant_emulator}

held_name :
    {W : Type 0} (kr : Keyring W) (name : String) (kc : ChainKeyringController W)
    → new_chain_keyring_controller_with_keyring kr name ≡ ok kc
    → (kc ≡ record { kr = kr; fp_name = name }) × (name ≢ "")
unfolding new_chain_keyring_controller_with_keyring
held_name kr name kc h = elim (Bool-cases (name == "")) [
  | inl e ↦ cc (rw e at h)
  | inr e ↦ (sym (ok-injective (rw e at h)), λ k. cc (rw e at (eq_iff name "").1 k))
]

module _ {b : Btc} {W : Type 0} (lib : KeyringPackage W) (config : Config b)
    (cc : ClientController b (World W)) (passphrase : String) where
  -- The emulator `ce` was made between the worlds `before` and `after`.
  pub record IsKeyed (before after : World W) (ce : CovenantEmulator b W) : Type 0 where
    pub kr : Keyring W
    pub opened_at : World W
    pub sk : Bytes
    pub opened :
        create_keyring lib config.babylon_config.key_directory config.babylon_config.chain_id
          config.babylon_config.keyring_backend
          (record before { input = "" })
        ≡ (ok kr, opened_at)
    pub held : ce.kc ≡ record { kr = kr; fp_name = config.babylon_config.key }
    pub named : config.babylon_config.key ≢ ""
    pub public_key : b.parse_pub_key (b.sdk_pub_key_bytes sk) ≡ ok ce.pk
    pub private_key : get_priv_key ce opened_at ≡ (ok (b.priv_key_from_bytes sk).0, after)
    pub no_params : ce.params ≡ none
    pub same_config : ce.config ≡ config
    pub same_client : ce.cc ≡ cc

  new_with_reader-IsKeyed :
      (before after : World W) (ce : CovenantEmulator b W)
      → new_with_reader lib config cc passphrase (record before { input = "" }) ≡ (ok ce, after)
      → IsKeyed before after ce
  unfolding new_with_reader get_priv_key
  new_with_reader-IsKeyed before after ce h =
      let (kr, u, e1, k1) = bind-eq-ok (wrap _ (create_keyring lib _ _ _)) _ _ h in
      let (kc, e2, k2) =
        continue-eq-ok (new_chain_keyring_controller_with_keyring kr config.babylon_config.key) _ u
          k1 in
      let (sk, v, e3, k3) = bind-eq-ok (wrap _ (get_chain_priv_key kc passphrase)) _ u k2 in
      let (pk, e4, k4) = continue-eq-ok (b.parse_pub_key (b.sdk_pub_key_bytes sk)) _ v k3 in
      let (kc_is, named) = held_name kr config.babylon_config.key kc e2 in
      subst (λ w. IsKeyed before w ce) (ap (λ x. x.1) k4)
        (subst (IsKeyed before v) (ok-injective (ap (λ x. x.0) k4)) (record {
          kr = kr;
          opened_at = u;
          sk = sk;
          opened = wrap-eq-ok _ (create_keyring lib _ _ _) _ e1;
          held = kc_is;
          named = named;
          public_key = e4;
          private_key = rw (wrap-eq-ok _ (get_chain_priv_key kc passphrase) u e3);
          no_params = refl;
          same_config = refl;
          same_client = refl;
        }))

  -- The emulator that `NewCovenantEmulator` returns holds the keyring that was opened with the
  -- settings, under the key name of the settings, which is not empty. Its public key is that of the
  -- private key which that keyring gives with the passphrase, and which `getPrivKey` reads in that
  -- state. It has no parameters yet.
  pub new_covenant_emulator-IsKeyed :
      (before after : World W) (ce : CovenantEmulator b W)
      → new_covenant_emulator lib config cc passphrase before ≡ (ok ce, after)
      → IsKeyed before after ce
  unfolding new_covenant_emulator
  new_covenant_emulator-IsKeyed before after ce h = new_with_reader-IsKeyed before after ce h
