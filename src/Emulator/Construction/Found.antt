-- ===== src/Emulator/Construction/Found.antt =====
-- The key that `CreateCovenantKey` has made is the one that `NewCovenantEmulator` finds.
use text.Mathlib.Text.{◌==◌}
use covenant.Prelude.{
  ◌≡◌, refl, ap, subst, inl, inr, String, false, Bool-cases, Option, none, some, ok,
}
use covenant.Prelude.Results.{ok-injective}
use covenant.Prelude.Exec.{bind-eq-ok, wrap-eq-ok}
use covenant.Libraries.{Btc, Bytes, PrivKey, secp256k1}
use covenant.Machine.{World}
use covenant.Config.{Config}
use covenant.Keyring.{Keyring, ChainKeyringController, get_chain_priv_key, sdk_priv_key}
use covenant.Keyring.Creation.{
  KeyringPackage, ClientCtx, create_client_ctx, create_keyring, new_keyring_in,
  new_chain_keyring_controller, new_chain_keyring_controller_with_keyring,
}
use covenant.Keyring.Account.{ChainKeyInfo, twice, create_chain_key, create_covenant_key}
use covenant.Keyring.Account.Stored.{IsShown, create_chain_key-IsShown}
use covenant.Controller.{ClientController}
use covenant.Emulator.Defs.{CovenantEmulator, get_priv_key}
use covenant.Emulator.Construction.{new_with_reader, new_covenant_emulator}

-- The documented behaviour of a keyring whose backend keeps its records, as `file`, `test` and `os`
-- do and `memory` does not: what was stored, with the passphrase entered twice, is found, with the
-- passphrase entered once, when the keyring is opened anew for the same chain, backend and directory.
pub record IsPersistent {W : Type 0} (lib : KeyringPackage W) (backend : String) : Type 0 where
  pub found :
      (chain_id dir name mnemonic passphrase hd_path algo : String) (u v w x y : World W)
      (kr kr' : Keyring W) (account : Option PrivKey)
      → lib.new_keyring chain_id backend dir u ≡ (ok kr, v)
      → kr.new_account name mnemonic passphrase hd_path algo (record w { input = twice passphrase })
        ≡ (ok account, x)
      → lib.new_keyring chain_id backend dir (record x { input = "" }) ≡ (ok kr', y)
      → (z : World W) × (kr'.key name (record y { input = passphrase }) ≡ (ok account, z))

-- The public key that btcd parses of the cosmos key's is the one of the btcd private key.
pub record IsOneCurve (b : Btc) : Type 0 where
  pub same_key :
      (key : Bytes) → b.parse_pub_key (b.sdk_pub_key_bytes key) ≡ ok (b.priv_key_from_bytes key).1

module _ {W : Type 0} (lib : KeyringPackage W) where
  -- The controller holds a keyring that was opened for the context and the backend.
  record IsOpened (ctx : ClientCtx) (name backend : String) (before after : World W)
      (kc : ChainKeyringController W) : Type 0 where
    named : (name == "") ≡ false
    backed : (backend == "") ≡ false
    opened :
        lib.new_keyring ctx.chain_id backend ctx.keyring_dir (record before { input = "" })
        ≡ (ok kc.kr, after)
    same_name : kc.fp_name ≡ name

  new_chain_keyring_controller-IsOpened :
      (ctx : ClientCtx) (name backend : String) (s t : World W) (kc : ChainKeyringController W)
      → new_chain_keyring_controller lib ctx name backend s ≡ (ok kc, t)
      → IsOpened ctx name backend s t kc
  unfolding new_chain_keyring_controller
  new_chain_keyring_controller-IsOpened ctx name backend s t kc h = elim (Bool-cases (name == "")) [
    | inl e ↦ cc (rw e at h)
    | inr e ↦ elim (Bool-cases (backend == "")) [
      | inl e' ↦ cc (rw (e, e') at h)
      | inr e' ↦
          let (kr, u, k, k') =
            bind-eq-ok (new_keyring_in lib ctx backend) _ (record s { input = "" })
              (rw (e, e') at h) in
          let opened =
            wrap-eq-ok _ (lib.new_keyring ctx.chain_id backend ctx.keyring_dir)
              (record s { input = "" }) k in
          subst (λ w. IsOpened ctx name backend s w kc) (ap (λ r. r.1) k')
            (subst (IsOpened ctx name backend s u) (ok-injective (ap (λ r. r.0) k'))
              (record { named = e; backed = e'; opened = opened; same_name = refl }))
    ]
  ]

module _ (b : Btc) {W : Type 0} (lib : KeyringPackage W) (dir chain_id name backend : String)
    (passphrase hd_path : String) where
  -- The key was made in a keyring that was opened in the directory.
  create_covenant_key-IsShown :
      (s t : World W) (info : ChainKeyInfo b)
      → (dir == "") ≡ false
      → create_covenant_key b lib dir chain_id name backend passphrase hd_path s ≡ (ok info, t)
      → (kc : ChainKeyringController W) × (u : World W) × IsOpened lib
          (record { chain_id = chain_id; keyring_dir = dir })
          name
          backend
          s
          u
          kc
        × IsShown b lib kc passphrase hd_path t info
  unfolding create_covenant_key create_client_ctx
  create_covenant_key-IsShown s t info placed h =
      let ctx : ClientCtx = record { chain_id = chain_id; keyring_dir = dir } in
      let (kc, u, e, k) =
        bind-eq-ok (new_chain_keyring_controller lib ctx name backend)
          (λ kc. create_chain_key b lib kc passphrase hd_path) s (rw placed at h) in
      (
        kc,
        u,
        new_chain_keyring_controller-IsOpened lib ctx name backend s u kc e,
        create_chain_key-IsShown b lib kc passphrase hd_path u t info k,
      )

module _ {b : Btc} {W : Type 0} (lib : KeyringPackage W) (config : Config b)
    (cc : ClientController b (World W)) (passphrase hd_path : String) where
  -- With a key directory, and settings whose keyring backend keeps its records: after `CreateCovenantKey` has made a
  -- key for the settings, `NewCovenantEmulator` with the same passphrase returns an emulator with
  -- that public key, whose `getPrivKey` reads that private key, if the keyring can be opened.
  pub new_covenant_emulator-create_covenant_key :
      (s t v : World W) (info : ChainKeyInfo b) (kr : Keyring W)
      → IsPersistent lib config.babylon_config.keyring_backend
      → IsOneCurve b
      → (config.babylon_config.key_directory == "") ≡ false
      → create_covenant_key b lib config.babylon_config.key_directory config.babylon_config.chain_id
          config.babylon_config.key config.babylon_config.keyring_backend passphrase hd_path s
        ≡ (ok info, t)
      → lib.new_keyring config.babylon_config.chain_id config.babylon_config.keyring_backend
          config.babylon_config.key_directory
          (record t { input = "" })
        ≡ (ok kr, v)
      → (ce : CovenantEmulator b W) × (u : World W) × (new_covenant_emulator lib config cc
            passphrase t
          ≡ (ok ce, u))
        × (ce.pk ≡ info.public_key)
        × (get_priv_key ce v ≡ (ok info.private_key, u))
  unfolding new_covenant_emulator new_with_reader create_keyring create_client_ctx
      new_chain_keyring_controller_with_keyring get_priv_key get_chain_priv_key sdk_priv_key
  new_covenant_emulator-create_covenant_key s t v info kr lawful curve placed h opened =
      let bbn = config.babylon_config in
      let (kc, w, o, shown) =
        create_covenant_key-IsShown b lib bbn.key_directory bbn.chain_id bbn.key bbn.keyring_backend
          passphrase hd_path s t info placed h in
      let (u, found) =
        lawful.found bbn.chain_id bbn.key_directory bbn.key info.mnemonic passphrase hd_path
          shown.algo (record s { input = "" }) w shown.before t v kc.kr kr
          (some (secp256k1 shown.key)) o.opened
          (subst
            (λ n.
              kc.kr.new_account n info.mnemonic passphrase hd_path shown.algo
                (record shown.before { input = twice passphrase })
              ≡ (ok (some (secp256k1 shown.key)), t))
            o.same_name shown.stored)
          opened in
      (
        record {
          pk = (b.priv_key_from_bytes shown.key).1;
          cc = cc;
          kc = record { kr = kr; fp_name = bbn.key };
          config = config;
          params = none;
          passphrase = passphrase;
        },
        u,
        rw (placed, o.backed, opened, o.named, found, curve.same_key shown.key) refl,
        ap (λ k. k.1) shown.same_keys,
        rw found (ap (λ k. (ok k.0, u)) shown.same_keys),
      )
