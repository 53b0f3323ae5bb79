-- ===== src/Keyring/Creation.antt =====
-- keyring/keyring.go and the constructors of keyring/keyringcontroller.go.
use text.Mathlib.Text.{◌==◌}
use covenant.Prelude.{
  ℕ, String, Bool, true, false, List, errorf, wrapf, Outcome, ok, err, if◌then◌else◌,
}
use covenant.Prelude.Exec.{Exec, pure, lift, wrap, ◌>>=◌}
use covenant.Libraries.{Bytes}
use covenant.Machine.{World}
use covenant.Keyring.{Keyring, ChainKeyringController}

-- What the keyring's code takes from other packages and from the machine: `keyring.New` (the chain
-- id, the backend, the directory), `keyring.NewSigningAlgoFromString`, `bip39.NewEntropy` and
-- `NewMnemonic`, `os.UserHomeDir` and `path.Join`.
pub record KeyringPackage (W : Type 0) : Type 0 where
  pub new_keyring : String → String → String → Exec (World W) (Keyring W)
  pub new_signing_algo_from_string : String → List String → Outcome String
  pub new_entropy : ℕ → Exec (World W) Bytes
  pub new_mnemonic : Bytes → Outcome String
  pub user_home_dir : Exec (World W) String
  pub path_join : String → String → String

-- The fields of `client.Context` that are used.
pub record ClientCtx : Type 0 where
  pub chain_id : String
  pub keyring_dir : String

module _ {W : Type 0} (lib : KeyringPackage W) where
  abbrev pub keyring_dir_or_home : String → Bool → Exec (World W) String
  keyring_dir_or_home keyring_dir false = pure keyring_dir
  keyring_dir_or_home keyring_dir true = do
    home_dir ← lib.user_home_dir
    pure (lib.path_join home_dir ".covenant-emulator")

  unfoldable pub create_client_ctx : String → String → Exec (World W) ClientCtx
  create_client_ctx keyring_dir chain_id = do
    dir ← keyring_dir_or_home keyring_dir (keyring_dir == "")
    pure (record { chain_id = chain_id; keyring_dir = dir })

  abbrev pub new_keyring_in : ClientCtx → String → Exec (World W) (Keyring W)
  new_keyring_in ctx backend =
      wrap (wrapf "failed to create keyring: %w")
        (lib.new_keyring ctx.chain_id backend ctx.keyring_dir)

  unfoldable pub create_keyring : String → String → String → Exec (World W) (Keyring W)
  create_keyring keyring_dir chain_id backend = do
    ctx ← create_client_ctx keyring_dir chain_id
    (if backend == ""
        then lift (err (errorf "the keyring backend should not be empty"))
        else new_keyring_in ctx backend)

-- `NewChainKeyringControllerWithKeyring`
unfoldable pub new_chain_keyring_controller_with_keyring :
    {W : Type 0} → Keyring W → String → Outcome (ChainKeyringController W)
new_chain_keyring_controller_with_keyring kr name =
    if name == ""
    then err (errorf "the key name should not be empty")
    else ok (record { kr = kr; fp_name = name })

module _ {W : Type 0} (lib : KeyringPackage W) where
  -- `strings.NewReader("")`
  abbrev pub with_new_reader : {A : Type 0} → Exec (World W) A → Exec (World W) A
  with_new_reader call w = call (record w { input = "" })

  unfoldable pub new_chain_keyring_controller :
      ClientCtx → String → String → Exec (World W) (ChainKeyringController W)
  new_chain_keyring_controller ctx name backend =
      if name == ""
      then lift (err (errorf "the key name should not be empty"))
      else if backend == ""
      then lift (err (errorf "the keyring backend should not be empty"))
      else with_new_reader
          (do kr ← new_keyring_in lib ctx backend; pure (record { kr = kr; fp_name = name }))
