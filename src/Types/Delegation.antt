-- ===== src/Types/Delegation.antt =====
-- types/delegation.go, types/sigs.go, types/txresponse.go. An element of a list of signatures is a
-- pointer that the code follows without a test, and is never nil here.
use covenant.Prelude.{
  ℕ, String, Bool, ◌&&◌, Option, List, errorf, Outcome, ok, panic, panic_with, leb, ltb, length,
  uint16, uint32, sub_uint64, if◌then◌else◌,
}
use covenant.Prelude.Results.{◌>>=◌, deref}
use covenant.Libraries.{Btc, Bytes}

pub record CovenantAdaptorSigInfo (b : Btc) : Type 0 where
  pub pk : b.PublicKey
  pub sigs : List Bytes

pub record CovenantSchnorrSigInfo (b : Btc) : Type 0 where
  pub pk : b.PublicKey
  pub sig : b.SchnorrSig

pub record Undelegation (b : Btc) : Type 0 where
  pub unbonding_tx_hex : String
  pub slashing_tx_hex : String
  pub covenant_slashing_sigs : List (CovenantAdaptorSigInfo b)
  pub covenant_unbonding_sigs : List (CovenantSchnorrSigInfo b)
  pub delegator_unbonding_sig : Option b.Bip340Signature

pub record Delegation (b : Btc) : Type 0 where
  pub btc_pk : b.PublicKey
  pub fp_btc_pks : List b.PublicKey
  pub start_height : ℕ  -- uint64
  pub end_height : ℕ  -- uint64
  pub total_sat : ℕ  -- uint64
  pub staking_tx_hex : String
  pub staking_output_idx : ℕ  -- uint32
  pub slashing_tx_hex : String
  pub unbonding_time : ℕ  -- uint32
  pub covenant_sigs : List (CovenantAdaptorSigInfo b)
  pub btc_undelegation : Option (Undelegation b)

pub record CovenantSigs (b : Btc) : Type 0 where
  pub public_key : b.PublicKey
  pub staking_tx_hash : b.Hash
  pub slashing_sigs : List Bytes
  pub unbonding_sig : b.SchnorrSig
  pub slashing_unbonding_sigs : List Bytes

pub record TxResponse (b : Btc) : Type 0 where
  pub tx_hash : String
  pub events : List b.RelayerEvent

module _ {b : Btc} where
  -- `int(quorum)` keeps a `uint32`
  pub has_covenant_quorum_on_slashing : Undelegation b → ℕ → Bool
  has_covenant_quorum_on_slashing ud quorum = leb quorum (length ud.covenant_unbonding_sigs)

  pub has_covenant_quorum_on_unbonding : Undelegation b → ℕ → Bool
  has_covenant_quorum_on_unbonding ud quorum = leb quorum (length ud.covenant_unbonding_sigs)

  unfoldable pub has_all_signatures : Undelegation b → ℕ → Bool
  unfolding has_covenant_quorum_on_slashing has_covenant_quorum_on_unbonding
  has_all_signatures ud quorum =
      has_covenant_quorum_on_unbonding ud quorum && has_covenant_quorum_on_slashing ud quorum

  -- The test on the right of `&&`, which follows the undelegation, is made only if the left holds.
  unfoldable pub has_covenant_quorum : Delegation b → ℕ → Outcome Bool
  unfolding has_all_signatures
  has_covenant_quorum d quorum =
      if leb quorum (uint32 (length d.covenant_sigs))
      then (do ud ← deref d.btc_undelegation; ok (has_all_signatures ud quorum))
      else ok Bool.false

  unfoldable pub get_staking_time : Delegation b → Outcome ℕ
  get_staking_time d =
      let diff = sub_uint64 d.end_height d.start_height in
      if ltb 65535 diff
      then panic (panic_with (errorf "invalid delegation in database"))
      else ok (uint16 diff)
