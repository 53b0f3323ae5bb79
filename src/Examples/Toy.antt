-- ===== src/Examples/Toy.antt =====
-- Libraries whose values are texts and numbers. A transaction is its hex string; the hex string
-- "bad" is refused; a transaction has one output.
use Prim.Native.String
use text.Mathlib.Text.{◌==◌}
use covenant.Prelude.{
  ℕ, String, true, false, Option, none, some, List, [], ◌∷◌, ◌++◌, library, ok, err, ltb,
  if◌then◌else◌, Int.pos,
}
use covenant.Prelude.Exec.{Exec, pure}
use covenant.Util.{Os}
use covenant.Libraries.{Btc, Bytes, PrivKey}
use covenant.Machine.{World}
use covenant.Types.Delegation.{Delegation, Undelegation, CovenantSigs}
use covenant.Types.Params.{StakingParams}
use covenant.Config.{BbnConfig, Config}
use covenant.Keyring.{Keyring}
use covenant.Controller.{ClientController}
use covenant.Emulator.Defs.{CovenantEmulator}

abbrev pub toy : Btc
toy = record {
  PublicKey = ℕ;
  PrivateKey = Bytes;
  Address = String;
  NetParams = String;
  LegacyDec = ℕ;
  MsgTx = String;
  Hash = String;
  SlashingTx = String;
  SchnorrSig = Bytes;
  AdaptorSig = Bytes;
  EncryptionKey = ℕ;
  StakingInfo = ℕ;
  UnbondingInfo = ℕ;
  SpendInfo = ℕ;
  Bip340PubKey = ℕ;
  Bip340Signature = Bytes;
  RelayerEvent = String;
  Float64 = ℕ;
  SdkPubKey = ℕ;
  ProofOfPossession = ℕ;
  TransactionInfo = String;
  Description = String;
  HeaderBytes = Bytes;
  HeaderInfo = ℕ;
  serialize_pub_key = λ pk. pk ∷ [];
  priv_key_from_bytes = λ k. (k, 1);
  parse_pub_key = λ k. ok 1;
  sdk_pub_key_bytes = λ k. k;
  new_btc_tx_from_hex = λ s. if s == "bad" then err (library "hex") else ok s;
  new_btc_slashing_tx_from_hex = λ s. if s == "bad" then err (library "hex") else ok s;
  to_msg_tx = λ t. ok t;
  to_hex_str = λ t. t;
  tx_hash = λ t. t;
  tx_out = λ t. pos 5000 ∷ [];
  check_transactions = λ s t i fee rate addr pk lock net. ok tt;
  build_staking_info = λ pk fps covs q t v net. ok t;
  build_unbonding_info = λ pk fps covs q t v net. ok t;
  staking_slashing_path = λ i. ok i;
  staking_unbonding_path = λ i. ok i;
  unbonding_slashing_path = λ i. ok i;
  get_pk_script_path = λ i. i ∷ [];
  new_encryption_key = λ pk. ok pk;
  enc_sign = λ tx fund i script sk k. ok (k ∷ sk ++ script);
  must_marshal = λ s. ok s;
  sign_tx_strict = λ tx fund i script sk. ok (sk ++ script);
  to_btc_pk = λ pk. ok pk;
  must_to_btc_pk = λ pk. ok pk;
  new_bip340_pub_key = λ pk. pk;
  to_btc_sig = λ s. ok s;
  new_bip340_signature = λ s. s;
  hash_string = λ h. h;
  decode_address = λ s net. ok s;
  max_uint64 = λ a b. if ltb a b then b else a;
  main_net_params = "mainnet";
  test_net3_params = "testnet3";
  regression_net_params = "regtest";
  sim_net_params = "simnet";
  sig_net_params = "signet";
}

-- The chain remembers what was submitted.
abbrev pub Chain : Type 0
Chain = List (CovenantSigs toy)

abbrev pub params : StakingParams toy
params = record {
  comfirmation_time_blocks = 10;
  finalization_timeout_blocks = 100;
  min_slashing_tx_fee_sat = pos 1;
  covenant_pks = 1 ∷ 2 ∷ [];
  slashing_address = "slash";
  covenant_quorum = 2;
  slashing_rate = 10;
  min_comission_rate = 5;
  min_unbonding_time = 100;
}

abbrev pub undelegation : Undelegation toy
undelegation = record {
  unbonding_tx_hex = "cc";
  slashing_tx_hex = "dd";
  covenant_slashing_sigs = [];
  covenant_unbonding_sigs = [];
  delegator_unbonding_sig = none;
}

abbrev pub delegation : Delegation toy
delegation = record {
  btc_pk = 7;
  fp_btc_pks = 8 ∷ 9 ∷ [];
  start_height = 100;
  end_height = 105;
  total_sat = 5000;
  staking_tx_hex = "aa";
  staking_output_idx = 0;
  slashing_tx_hex = "bb";
  unbonding_time = 101;
  covenant_sigs = [];
  btc_undelegation = some undelegation;
}

abbrev pub keyring_of : {W : Type 0} → Keyring W
keyring_of = record {
  key = λ name w. (ok (some (PrivKey.secp256k1 (42 ∷ []))), record w { input = "" });
  supported_algorithms = "secp256k1" ∷ [];
  new_account = λ name mnemonic passphrase hd_path algo w.
      (ok (some (PrivKey.secp256k1 (42 ∷ []))), record w { input = "" });
}

abbrev pub keyring : Keyring Chain
keyring = keyring_of

abbrev pub chain : List (Option (Delegation toy)) → ClientController toy (World Chain)
chain pending = record {
  submit_covenant_sigs = λ sigs w.
      (ok (record { tx_hash = "hash"; events = [] }), record w { outside = w.outside ++ sigs });
  query_pending_delegations = λ limit. pure pending;
  query_staking_params = pure params;
  close = pure tt;
}

abbrev pub bbn_config : BbnConfig toy
bbn_config = record {
  key = "covenant-key";
  chain_id = "chain-test";
  rpc_addr = "http://127.0.0.1:26657";
  grpc_addr = "https://127.0.0.1:9090";
  account_prefix = "bbn";
  keyring_backend = "test";
  gas_adjustment = 1;
  gas_prices = "0.01ubbn";
  key_directory = "/home";
  debug = true;
  timeout = pos 20;
  block_timeout = pos 60;
  output_format = "json";
  sign_mode_str = "direct";
}

abbrev pub config : Config toy
config = record {
  log_level = "debug";
  query_interval = pos 15;
  delegation_limit = 100;
  sigs_batch_size = 2;
  bitcoin_network = "simnet";
  btc_net_params = "simnet";
  babylon_config = bbn_config;
}

abbrev pub emulator : List (Option (Delegation toy)) → CovenantEmulator toy Chain
emulator pending = record {
  pk = 1;
  cc = chain pending;
  kc = record { kr = keyring; fp_name = "covenant-key" };
  config = config;
  params = some params;
  passphrase = "pass";
}

abbrev pub start : World Chain
start = record { input = ""; outside = [] }

-- Directories can always be made, and paths are as they should be.
abbrev pub os_with : {S : Type 0} → (String → Exec S (Unit {0})) → Os S
os_with stat = record {
  stat = stat;
  is_not_exist = λ e. true;
  is_exist = λ e. false;
  path_of = λ e. none;
  mkdir_all = λ path. pure tt;
  readlink = λ path. pure path;
  open_file = λ path. pure tt;
  current_user_home = pure "/root";
  home_variable = pure "/root";
  expand_env = λ path. pure path;
  abs = λ path. pure path;
  clean = λ path. path;
  join = λ dir name. String.◌++◌ dir (String.◌++◌ "/" name);
  dir = λ path. path;
}
