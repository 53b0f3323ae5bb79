-- ===== src/Keyring/Account.antt =====
-- `CreateChainKey` of keyring/keyringcontroller.go, and `CreateCovenantKey` of covenant/covenant.go.
pub mod Stored
use Prim.Native.String
use covenant.Prelude.{
  ℕ, String, Option, none, some, errorf, Outcome, ok, err, panic, nil_dereference,
}
use covenant.Prelude.Exec.{Exec, pure, lift, ◌>>=◌}
use covenant.Libraries.{Btc, Bytes, PrivKey}
use covenant.Machine.{World}
use covenant.Keyring.{Keyring, ChainKeyringController, sdk_priv_key}
use covenant.Keyring.Creation.{KeyringPackage, create_client_ctx, new_chain_keyring_controller}

-- types/chainkey.go
pub record ChainKeyInfo (b : Btc) : Type 0 where
  pub name : String
  pub mnemonic : String
  pub public_key : b.PublicKey
  pub private_key : b.PrivateKey

-- `mnemonicEntropySize`
abbrev pub secp256k1_type : String
secp256k1_type = "secp256k1"

abbrev pub mnemonic_entropy_size : ℕ
mnemonic_entropy_size = 256

-- The passphrase and its reentry.
abbrev pub twice : String → String
twice passphrase = String.◌++◌ passphrase (String.◌++◌ "\n" passphrase)

-- `kc.input.Reset` and `NewAccount`.
unfoldable pub store_account :
    {W : Type 0}
    → ChainKeyringController W
    → String
    → String
    → String
    → String
    → Exec (World W) (Option PrivKey)
store_account kc mnemonic passphrase hd_path algo w =
    kc.kr.new_account kc.fp_name mnemonic passphrase hd_path algo
      (record w { input = twice passphrase })

module _ (b : Btc) {W : Type 0} (lib : KeyringPackage W) where
  unfoldable pub create_chain_key :
      ChainKeyringController W → String → String → Exec (World W) (ChainKeyInfo b)
  create_chain_key kc passphrase hd_path = do
    algo ← lift (lib.new_signing_algo_from_string secp256k1_type kc.kr.supported_algorithms)
    entropy_seed ← lib.new_entropy mnemonic_entropy_size
    mnemonic ← lift (lib.new_mnemonic entropy_seed)
    account ← store_account kc mnemonic passphrase hd_path algo
    key ← lift (sdk_priv_key account)
    pure (record {
      name = kc.fp_name;
      mnemonic = mnemonic;
      public_key = (b.priv_key_from_bytes key).1;
      private_key = (b.priv_key_from_bytes key).0;
    })

  unfoldable pub create_covenant_key :
      String → String → String → String → String → String → Exec (World W) (ChainKeyInfo b)
  create_covenant_key keyring_dir chain_id key_name backend passphrase hd_path = do
    sdk_ctx ← create_client_ctx lib keyring_dir chain_id
    kr_controller ← new_chain_keyring_controller lib sdk_ctx key_name backend
    create_chain_key kr_controller passphrase hd_path
