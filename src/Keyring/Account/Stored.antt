-- ===== src/Keyring/Account/Stored.antt =====
-- A key that `CreateChainKey` shows is the key that `GetChainPrivKey` gives.
use covenant.Prelude.{◌≡◌, refl, ap, subst, ◌∙◌, String, Option, none, some, ok}
use covenant.Prelude.Results.{ok-injective}
use covenant.Prelude.Exec.{bind-eq-ok, continue-eq-ok}
use covenant.Libraries.{Btc, Bytes, PrivKey, secp256k1, other_type}
use covenant.Machine.{World}
use covenant.Keyring.{Keyring, ChainKeyringController, sdk_priv_key, get_chain_priv_key}
use covenant.Keyring.Creation.{KeyringPackage}
use covenant.Keyring.Account.{ChainKeyInfo, twice, store_account, create_chain_key}

-- The documented behaviour of the keyring: a record that was stored under a name, with the
-- passphrase entered twice, is found under the name with the passphrase entered once.
pub record IsKeyring {W : Type 0} (kr : Keyring W) : Type 0 where
  pub found :
      (name mnemonic passphrase hd_path algo : String) (w w' : World W) (account : Option PrivKey)
      → kr.new_account name mnemonic passphrase hd_path algo (record w { input = twice passphrase })
        ≡ (ok account, w')
      → (w'' : World W) × (kr.key name (record w' { input = passphrase }) ≡ (ok account, w''))

sdk_priv_key-eq-ok :
    (account : Option PrivKey) {key : Bytes}
    → sdk_priv_key account ≡ ok key
    → account ≡ some (secp256k1 key)
unfolding sdk_priv_key
sdk_priv_key-eq-ok none h = cc
sdk_priv_key-eq-ok (some (secp256k1 key)) h = cc
sdk_priv_key-eq-ok (some other_type) h = cc

module _ (b : Btc) {W : Type 0} (lib : KeyringPackage W) where
  -- The account that was stored, and what is shown of it.
  pub record IsShown (kc : ChainKeyringController W) (passphrase hd_path : String) (after : World W)
      (info : ChainKeyInfo b) : Type 0 where
    pub algo : String
    pub before : World W
    pub key : Bytes
    pub stored :
        kc.kr.new_account kc.fp_name info.mnemonic passphrase hd_path algo
          (record before { input = twice passphrase })
        ≡ (ok (some (secp256k1 key)), after)
    pub same_name : info.name ≡ kc.fp_name
    pub same_keys : b.priv_key_from_bytes key ≡ (info.private_key, info.public_key)

  pub create_chain_key-IsShown :
      (kc : ChainKeyringController W) (passphrase hd_path : String) (s t : World W)
      (info : ChainKeyInfo b)
      → create_chain_key b lib kc passphrase hd_path s ≡ (ok info, t)
      → IsShown kc passphrase hd_path t info
  unfolding create_chain_key store_account
  create_chain_key-IsShown kc passphrase hd_path s t info h =
      let (algo, e1, k1) =
        continue-eq-ok (lib.new_signing_algo_from_string "secp256k1" kc.kr.supported_algorithms) _ s
          h in
      let (seed, u, e2, k2) = bind-eq-ok (lib.new_entropy _) _ s k1 in
      let (mnemonic, e3, k3) = continue-eq-ok (lib.new_mnemonic seed) _ u k2 in
      let (account, v, e4, k4) =
        bind-eq-ok (store_account kc mnemonic passphrase hd_path algo) _ u k3 in
      let (key, e5, k5) = continue-eq-ok (sdk_priv_key account) _ v k4 in
      subst (λ w. IsShown kc passphrase hd_path w info) (ap (λ x. x.1) k5)
        (subst (IsShown kc passphrase hd_path v) (ok-injective (ap (λ x. x.0) k5)) (record {
          algo = algo;
          before = u;
          key = key;
          stored = e4 ∙ ap (λ a. (ok a, v)) (sdk_priv_key-eq-ok account e5);
          same_name = refl;
          same_keys = refl;
        }))

  -- After `CreateChainKey` has shown a key, `GetChainPrivKey` with the same passphrase returns it,
  -- if the keyring finds what was stored.
  pub get_chain_priv_key-create_chain_key :
      (kc : ChainKeyringController W) (passphrase hd_path : String) (s t : World W)
      (info : ChainKeyInfo b)
      → IsKeyring kc.kr
      → create_chain_key b lib kc passphrase hd_path s ≡ (ok info, t)
      → (key : Bytes) × (u : World W) × (get_chain_priv_key kc passphrase t ≡ (ok key, u))
        × (b.priv_key_from_bytes key ≡ (info.private_key, info.public_key))
  unfolding get_chain_priv_key sdk_priv_key
  get_chain_priv_key-create_chain_key kc passphrase hd_path s t info lawful h =
      let i = create_chain_key-IsShown kc passphrase hd_path s t info h in
      let (u, found) =
        lawful.found kc.fp_name info.mnemonic passphrase hd_path i.algo i.before t
          (some (secp256k1 i.key)) i.stored in
      (i.key, u, rw found, i.same_keys)
