-- ===== src/Keyring.antt =====
-- keyring/keyringcontroller.go: access to the covenant's key in the cosmos keyring.
pub mod Creation
pub mod Account
use covenant.Prelude.{
  String, List, Option, none, some, errorf, wrapf, Outcome, ok, err, panic, nil_dereference,
}
use covenant.Prelude.Exec.{Exec, lift, wrap, ◌>>=◌}
use covenant.Libraries.{Bytes, PrivKey, secp256k1, other_type}
use covenant.Machine.{World}

-- The cosmos keyring. A record is read through `GetLocal().PrivKey.GetCachedValue()`; `none` is a
-- record that has no local part.
pub record Keyring (W : Type 0) : Type 0 where
  pub key : String → Exec (World W) (Option PrivKey)
  pub supported_algorithms : List String
  -- the name, the mnemonic, the passphrase, the hd path and the algorithm
  pub new_account : String → String → String → String → String → Exec (World W) (Option PrivKey)

pub record ChainKeyringController (W : Type 0) : Type 0 where
  pub kr : Keyring W
  pub fp_name : String

unfoldable pub get_keyring : {W : Type 0} → ChainKeyringController W → Keyring W
get_keyring kc = kc.kr

-- The type switch on the cached value.
unfoldable pub sdk_priv_key : Option PrivKey → Outcome Bytes
sdk_priv_key none = panic nil_dereference
sdk_priv_key (some (secp256k1 key)) = ok key
sdk_priv_key (some other_type) = err (errorf "unsupported key type in keyring")

module _ {W : Type 0} where
  unfoldable pub get_chain_priv_key : ChainKeyringController W → String → Exec (World W) Bytes
  unfolding sdk_priv_key
  get_chain_priv_key kc passphrase w =
      (do
        k ← wrap (wrapf "failed to get private key: %w") (kc.kr.key kc.fp_name)
        lift (sdk_priv_key k))
        (record w { input = passphrase })
