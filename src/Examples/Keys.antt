-- ===== src/Examples/Keys.antt =====
-- The keyring over the toy libraries: it stores one key.
use covenant.Prelude.{◌≡◌, refl, ap, sym, subst, none, [], ◌∷◌, ok}
use covenant.Prelude.Results.{ok-injective}
use covenant.Prelude.Exec.{pure}
use covenant.Machine.{World}
use covenant.Keyring.{ChainKeyringController, sdk_priv_key, get_chain_priv_key}
use covenant.Keyring.Creation.{
  KeyringPackage, create_client_ctx, create_keyring, new_chain_keyring_controller,
  new_chain_keyring_controller_with_keyring,
}
use covenant.Keyring.Account.{
  ChainKeyInfo, twice, store_account, create_chain_key, create_covenant_key,
}
use covenant.Keyring.Account.Stored.{IsKeyring}
use covenant.Emulator.Defs.{CovenantEmulator, get_priv_key}
use covenant.Emulator.Construction.{new_with_reader, new_covenant_emulator}
use covenant.Emulator.Construction.Keyed.{IsKeyed, new_covenant_emulator-IsKeyed}
use covenant.Emulator.Construction.Found.{
  IsPersistent, IsOneCurve, new_covenant_emulator-create_covenant_key,
}
use covenant.Examples.Toy.{toy, Chain, keyring, chain, config, emulator, start}

abbrev lib : KeyringPackage Chain
lib = record {
  new_keyring = λ chain_id backend dir. pure keyring;
  new_signing_algo_from_string = λ name algos. ok name;
  new_entropy = λ size. pure (1 ∷ 2 ∷ []);
  new_mnemonic = λ seed. ok "abandon ability";
  user_home_dir = pure "/root";
  path_join = λ dir name. dir;
}

abbrev fresh_emulator : CovenantEmulator toy Chain
fresh_emulator = record (emulator []) { params = none }

builds : new_covenant_emulator lib config (chain []) "pass" start ≡ (ok fresh_emulator, start)
unfolding new_covenant_emulator new_with_reader create_keyring create_client_ctx
    new_chain_keyring_controller_with_keyring get_chain_priv_key
builds = refl

new_covenant_emulator-IsKeyed_example :
    IsKeyed lib config (chain []) "pass" start start fresh_emulator
new_covenant_emulator-IsKeyed_example =
    new_covenant_emulator-IsKeyed lib config (chain []) "pass" start start fresh_emulator builds

abbrev controller : ChainKeyringController Chain
controller = record { kr = keyring; fp_name = "covenant-key" }

abbrev info : ChainKeyInfo toy
info = record {
  name = "covenant-key";
  mnemonic = "abandon ability";
  public_key = 1;
  private_key = 42 ∷ [];
}

creates : create_chain_key toy lib controller "pass" "" start ≡ (ok info, start)
unfolding create_chain_key store_account sdk_priv_key
creates = refl

keyring-IsKeyring : IsKeyring keyring
keyring-IsKeyring = record {
  found = λ name mnemonic passphrase hd_path algo w w' account h.
      (record w' { input = "" }, ap (λ r. (r.0, record w' { input = "" })) h);
}

lib-IsPersistent : IsPersistent lib "test"
lib-IsPersistent = record {
  found =
      λ chain_id dir name mnemonic passphrase hd_path algo u v w x y kr kr' account opened stored
          reopened.
        let same : keyring ≡ kr = ok-injective (ap (λ r. r.0) opened) in
        let same' : keyring ≡ kr' = ok-injective (ap (λ r. r.0) reopened) in
        let h : keyring.new_account name mnemonic passphrase hd_path algo
              (record w { input = twice passphrase })
            ≡ (ok account, x) =
          subst
            (λ k.
              k.new_account name mnemonic passphrase hd_path algo
                (record w { input = twice passphrase })
              ≡ (ok account, x))
            (sym same) stored in
        (
          record y { input = "" },
          subst
              (λ k.
                k.key name (record y { input = passphrase })
                ≡ (ok account, record y { input = "" }))
              same' (ap (λ r. (r.0, record y { input = "" })) h),
        );
}

toy-IsOneCurve : IsOneCurve toy
toy-IsOneCurve = record { same_key = λ key. refl }

creates_covenant_key :
    create_covenant_key toy lib "/home" "chain-test" "covenant-key" "test" "pass" "" start
    ≡ (ok info, start)
unfolding create_covenant_key create_client_ctx new_chain_keyring_controller create_chain_key
    store_account sdk_priv_key
creates_covenant_key = refl

new_covenant_emulator-create_covenant_key_example :
    (ce : CovenantEmulator toy Chain) × (u : World Chain) × (new_covenant_emulator lib config
        (chain [])
        "pass"
        start
      ≡ (ok ce, u))
    × (ce.pk ≡ 1)
    × (get_priv_key ce start ≡ (ok (42 ∷ []), u))
new_covenant_emulator-create_covenant_key_example =
    new_covenant_emulator-create_covenant_key lib config (chain []) "pass" "" start start start info
      keyring lib-IsPersistent toy-IsOneCurve refl creates_covenant_key refl
