-- ===== src/Libraries.antt =====
-- What the program takes from packages outside the repository and from the machine: btcd
-- (btcec, schnorr, btcutil, wire), Babylon (btcstaking, the adaptor signatures, its types), the
-- cosmos keyring and the Babylon RPC client. All of it is a parameter. A function whose Go result
-- has an `error`, or that panics (`Must...`), gives an `Outcome`.
use covenant.Prelude.{ℕ, String, List, Outcome, Int.ℤ}

abbrev pub Bytes : Type 0
Bytes = List ℕ

-- Values and pure functions.
pub record Btc : Type 1 where
  pub PublicKey : Type 0
  pub PrivateKey : Type 0
  pub Address : Type 0
  pub NetParams : Type 0
  pub LegacyDec : Type 0
  pub MsgTx : Type 0
  pub Hash : Type 0
  pub SlashingTx : Type 0
  pub SchnorrSig : Type 0
  pub AdaptorSig : Type 0
  pub EncryptionKey : Type 0
  pub StakingInfo : Type 0
  pub UnbondingInfo : Type 0
  pub SpendInfo : Type 0
  pub Bip340PubKey : Type 0
  pub Bip340Signature : Type 0
  pub RelayerEvent : Type 0
  pub Float64 : Type 0
  pub SdkPubKey : Type 0
  pub ProofOfPossession : Type 0
  pub TransactionInfo : Type 0
  pub Description : Type 0
  pub HeaderBytes : Type 0
  pub HeaderInfo : Type 0
  -- `schnorr.SerializePubKey`, `btcec.PrivKeyFromBytes`, `btcec.ParsePubKey`
  pub serialize_pub_key : PublicKey → Bytes
  pub priv_key_from_bytes : Bytes → PrivateKey × PublicKey
  pub parse_pub_key : Bytes → Outcome PublicKey
  -- `PubKey().Bytes()` of the cosmos private key with these bytes
  pub sdk_pub_key_bytes : Bytes → Bytes
  -- `bbntypes.NewBTCTxFromHex`, `bstypes.NewBTCSlashingTxFromHex`, `ToMsgTx`, `ToHexStr`
  pub new_btc_tx_from_hex : String → Outcome MsgTx
  pub new_btc_slashing_tx_from_hex : String → Outcome SlashingTx
  pub to_msg_tx : SlashingTx → Outcome MsgTx
  pub to_hex_str : SlashingTx → String
  -- `MsgTx.TxHash`, and the `Value` of each `MsgTx.TxOut`
  pub tx_hash : MsgTx → Hash
  pub tx_out : MsgTx → List ℤ
  -- `btcstaking`: the slashing tx, the tx that it spends, the output's index, the least fee, the
  -- rate, the slashing address, the staker's key, the time lock and the network
  pub check_transactions :
      MsgTx → MsgTx → ℕ → ℤ → LegacyDec → Address → PublicKey → ℕ → NetParams → Outcome (Unit {0})
  -- the staker, the finality providers, the covenant, its quorum, the time lock, the value
  pub build_staking_info :
      PublicKey → List PublicKey → List PublicKey → ℕ → ℕ → ℤ → NetParams → Outcome StakingInfo
  pub build_unbonding_info :
      PublicKey → List PublicKey → List PublicKey → ℕ → ℕ → ℤ → NetParams → Outcome UnbondingInfo
  pub staking_slashing_path : StakingInfo → Outcome SpendInfo
  pub staking_unbonding_path : StakingInfo → Outcome SpendInfo
  pub unbonding_slashing_path : UnbondingInfo → Outcome SpendInfo
  pub get_pk_script_path : SpendInfo → Bytes
  pub new_encryption_key : PublicKey → Outcome EncryptionKey
  -- `EncSign` of a slashing tx: the funding tx, the output's index, the script, the key
  pub enc_sign : SlashingTx → MsgTx → ℕ → Bytes → PrivateKey → EncryptionKey → Outcome AdaptorSig
  pub must_marshal : AdaptorSig → Outcome Bytes
  pub sign_tx_strict : MsgTx → MsgTx → ℕ → Bytes → PrivateKey → Outcome SchnorrSig
  -- `bbntypes`, `btcutil.DecodeAddress`, `sdkmath.Max`
  pub to_btc_pk : Bip340PubKey → Outcome PublicKey
  pub must_to_btc_pk : Bip340PubKey → Outcome PublicKey
  pub new_bip340_pub_key : PublicKey → Bip340PubKey
  pub to_btc_sig : Bip340Signature → Outcome SchnorrSig
  pub new_bip340_signature : SchnorrSig → Bip340Signature
  pub hash_string : Hash → String
  pub decode_address : String → NetParams → Outcome Address
  pub max_uint64 : ℕ → ℕ → ℕ
  -- the networks of `chaincfg`
  pub main_net_params : NetParams
  pub test_net3_params : NetParams
  pub regression_net_params : NetParams
  pub sim_net_params : NetParams
  pub sig_net_params : NetParams

-- The cached value of a key's private part: the two cases of the type switches.
pub data PrivKey : Type 0 where
  secp256k1 : Bytes → PrivKey
  other_type : PrivKey
