-- ===== src/Controller/Messages.antt =====
-- The messages of the Babylon chain, with the fields that clientcontroller/babylon.go uses, and the
-- RPC client. Both belong to other packages: the client is a parameter. `none` is a nil pointer or
-- a nil slice; a key or a signature is a pointer too, which is never nil here.
use covenant.Prelude.{ℕ, String, Bool, Option, List, Outcome, Int.ℤ}
use covenant.Prelude.Exec.{Exec}
use covenant.Libraries.{Btc, Bytes}

pub record CovenantAdaptorSignatures (b : Btc) : Type 0 where
  pub cov_pk : b.Bip340PubKey
  pub adaptor_sigs : List Bytes

pub record SignatureInfo (b : Btc) : Type 0 where
  pub pk : b.Bip340PubKey
  pub sig : b.Bip340Signature

pub record BtcUndelegation (b : Btc) : Type 0 where
  pub unbonding_tx : Option Bytes
  pub slashing_tx : Option b.SlashingTx
  pub covenant_unbonding_sig_list : List (SignatureInfo b)
  pub covenant_slashing_sigs : List (CovenantAdaptorSignatures b)
  pub delegator_unbonding_sig : Option b.Bip340Signature

pub record BtcDelegation (b : Btc) : Type 0 where
  pub btc_pk : b.Bip340PubKey
  pub fp_btc_pk_list : List b.Bip340PubKey
  pub start_height : ℕ
  pub end_height : ℕ
  pub total_sat : ℕ
  pub staking_tx : Option Bytes
  pub staking_output_idx : ℕ
  pub slashing_tx : Option b.SlashingTx
  pub unbonding_time : ℕ
  pub covenant_sigs : List (CovenantAdaptorSignatures b)
  pub btc_undelegation : Option (BtcUndelegation b)

pub record MsgAddCovenantSigs (b : Btc) : Type 0 where
  pub signer : String
  pub pk : b.Bip340PubKey
  pub staking_tx_hash : String
  pub slashing_tx_sigs : List Bytes
  pub unbonding_tx_sig : b.Bip340Signature
  pub slashing_unbonding_tx_sigs : List Bytes

pub record MsgCreateBtcDelegation (b : Btc) : Type 0 where
  pub signer : String
  pub babylon_pk : b.SdkPubKey
  pub pop : b.ProofOfPossession
  pub btc_pk : b.Bip340PubKey
  pub fp_btc_pk_list : List b.Bip340PubKey
  pub staking_time : ℕ
  pub staking_value : ℤ
  pub staking_tx : b.TransactionInfo
  pub slashing_tx : b.SlashingTx
  pub delegator_slashing_sig : b.Bip340Signature
  pub unbonding_tx : Bytes
  pub unbonding_time : ℕ
  pub unbonding_value : ℤ
  pub unbonding_slashing_tx : b.SlashingTx
  pub delegator_unbonding_slashing_sig : b.Bip340Signature

pub record MsgCreateFinalityProvider (b : Btc) : Type 0 where
  pub signer : String
  pub commission : b.LegacyDec
  pub babylon_pk : b.SdkPubKey
  pub btc_pk : b.Bip340PubKey
  pub description : b.Description
  pub pop : b.ProofOfPossession

pub record MsgInsertHeaders (b : Btc) : Type 0 where
  pub signer : String
  pub headers : List b.HeaderBytes

-- `sdk.Msg`: the messages that the client sends.
pub data Msg (b : Btc) : Type 0 where
  add_covenant_sigs : MsgAddCovenantSigs b → Msg b
  create_btc_delegation : MsgCreateBtcDelegation b → Msg b
  create_finality_provider : MsgCreateFinalityProvider b → Msg b
  insert_headers : MsgInsertHeaders b → Msg b

-- Params of the modules btccheckpoint and btcstaking.
pub record CheckpointParams : Type 0 where
  pub btc_confirmation_depth : ℕ
  pub checkpoint_finalization_timeout : ℕ

pub record BtcStakingParams (b : Btc) : Type 0 where
  pub covenant_pks : List b.Bip340PubKey
  pub slashing_address : String
  pub min_slashing_tx_fee_sat : ℤ
  pub covenant_quorum : ℕ
  pub slashing_rate : b.LegacyDec
  pub min_commission_rate : b.LegacyDec
  pub min_unbonding_time : ℕ

-- `RelayerTxResponse`
pub record RelayerTxResponse (b : Btc) : Type 0 where
  pub tx_hash : String
  pub events : List b.RelayerEvent

-- `BTCDelegationStatus`
pub data Status : Type 0 where
  pending active : Status

-- The `bbnclient.Client`, over the state `S`. `key` is `GetKeyring().Key`, whose record is read
-- through `GetAddress`; `reliably_send_msgs` takes the messages, the expected errors, after which
-- its response is nil, and the unrecoverable errors.
pub record BbnClient (b : Btc) (S : Type 0) : Type 0 where
  pub btc_checkpoint_params : Exec S CheckpointParams
  pub btc_staking_params : Exec S (BtcStakingParams b)
  pub btc_delegations : Status → ℕ → Exec S (List (Option (BtcDelegation b)))
  pub reliably_send_msgs :
      List (Msg b) → List String → List String → Exec S (Option (RelayerTxResponse b))
  pub key : String → Exec S (Outcome Bytes)
  pub must_bech32ify_address_bytes : String → Bytes → Outcome String
  pub tip : Exec S b.HeaderInfo
  pub is_running : Exec S Bool
  pub stop : Exec S (Unit {0})
