-- ===== src/Emulator/Signing.antt =====
-- `AddCovenantSignatures` of covenant/covenant.go. Its numbered steps are functions here, called
-- in the order of the source.
use covenant.Prelude.{
  ℕ, List, [], ◌∷◌, errorf_nums, wrapf, Outcome, ok, err, panic, index_out_of_range, leb, uint16,
  if◌then◌else◌, Int.ℤ, Int.int64,
}
use covenant.Prelude.Results.{map_err, traverse, ◌>>=◌, ◌>>◌}
use covenant.Libraries.{Btc, Bytes}
use covenant.Types.Delegation.{Delegation, Undelegation, CovenantSigs, get_staking_time}
use covenant.Types.Params.{StakingParams}

-- `txs[0].Value`
unfoldable pub first_value : List ℤ → Outcome ℤ
first_value [] = panic index_out_of_range
first_value (v ∷ _) = ok v

-- What steps 2 to 4 hand on.
pub record Checked (b : Btc) : Type 0 where
  pub staking_msg_tx : b.MsgTx
  pub slashing_tx : b.SlashingTx
  pub unbonding_msg_tx : b.MsgTx
  pub unbonding_info : b.UnbondingInfo

module _ (b : Btc) where
  -- 2.
  unfoldable pub check_unbonding_time : StakingParams b → Delegation b → Outcome (Unit {0})
  check_unbonding_time p d =
      if leb d.unbonding_time p.min_unbonding_time
      then err (
          errorf_nums "unbonding time %d must be larger than %d" d.unbonding_time
            p.min_unbonding_time)
      else ok tt

  -- 3. The staking tx and the slashing tx, checked.
  unfoldable pub check_staking :
      b.NetParams → StakingParams b → Delegation b → Outcome (b.MsgTx × b.SlashingTx)
  check_staking net p d = do
    staking_msg_tx ← b.new_btc_tx_from_hex d.staking_tx_hex
    slashing_tx ← b.new_btc_slashing_tx_from_hex d.slashing_tx_hex
    slashing_msg_tx ← b.to_msg_tx slashing_tx
    map_err (wrapf "invalid txs in the delegation: %w") (
        b.check_transactions slashing_msg_tx staking_msg_tx d.staking_output_idx
          p.min_slashing_tx_fee_sat p.slashing_rate p.slashing_address d.btc_pk
          (uint16 d.unbonding_time) net)
    ok (staking_msg_tx, slashing_tx)

  -- 4. The unbonding tx, checked, and the scripts of its output.
  unfoldable pub check_unbonding :
      b.NetParams
      → StakingParams b
      → Delegation b
      → Undelegation b
      → Outcome (b.MsgTx × b.UnbondingInfo)
  check_unbonding net p d ud = do
    unbonding_slashing_msg_tx ← b.new_btc_tx_from_hex ud.slashing_tx_hex
    unbonding_msg_tx ← b.new_btc_tx_from_hex ud.unbonding_tx_hex
    value ← first_value (b.tx_out unbonding_msg_tx)
    unbonding_info ←
        b.build_unbonding_info d.btc_pk d.fp_btc_pks p.covenant_pks p.covenant_quorum
          (uint16 d.unbonding_time) value net
    map_err (wrapf "invalid txs in the undelegation: %w") (
        b.check_transactions unbonding_slashing_msg_tx unbonding_msg_tx 0 p.min_slashing_tx_fee_sat
          p.slashing_rate p.slashing_address d.btc_pk (uint16 d.unbonding_time) net)
    ok (unbonding_msg_tx, unbonding_info)

  -- The body of the two loops over the finality providers.
  unfoldable pub enc_sign_for :
      b.SlashingTx → b.MsgTx → ℕ → Bytes → b.PrivateKey → b.PublicKey → Outcome Bytes
  enc_sign_for slashing_tx funding_tx idx script sk fp_pk = do
    enc_key ← b.new_encryption_key fp_pk
    covenant_sig ← b.enc_sign slashing_tx funding_tx idx script sk enc_key
    b.must_marshal covenant_sig

  -- The staking info of step 5.
  unfoldable pub staking_info_of :
      b.NetParams → StakingParams b → Delegation b → Outcome b.StakingInfo
  staking_info_of net p d = do
    staking_time ← get_staking_time d
    b.build_staking_info d.btc_pk d.fp_btc_pks p.covenant_pks p.covenant_quorum staking_time
        (int64 d.total_sat) net

  -- 5. The adaptor signatures on the slashing tx, one for each finality provider.
  unfoldable pub sign_slashing :
      Delegation b → b.StakingInfo → b.MsgTx → b.SlashingTx → b.PrivateKey → Outcome (List Bytes)
  sign_slashing d staking_info staking_msg_tx slashing_tx sk = do
    path ← b.staking_slashing_path staking_info
    traverse
        (enc_sign_for slashing_tx staking_msg_tx d.staking_output_idx (b.get_pk_script_path path)
          sk)
        d.fp_btc_pks

  -- 6. The signature on the unbonding tx.
  unfoldable pub sign_unbonding :
      Delegation b → b.StakingInfo → b.MsgTx → b.MsgTx → b.PrivateKey → Outcome b.SchnorrSig
  sign_unbonding d staking_info staking_msg_tx unbonding_msg_tx sk = do
    path ← b.staking_unbonding_path staking_info
    map_err (wrapf "failed to sign unbonding tx: %w") (
        b.sign_tx_strict unbonding_msg_tx staking_msg_tx d.staking_output_idx
          (b.get_pk_script_path path) sk)

  -- 7. The adaptor signatures on the slashing tx of the unbonding tx.
  unfoldable pub sign_unbonding_slashing :
      Delegation b
      → Undelegation b
      → b.UnbondingInfo
      → b.MsgTx
      → b.PrivateKey
      → Outcome (List Bytes)
  sign_unbonding_slashing d ud unbonding_info unbonding_msg_tx sk = do
    slash_unbonding_tx ← b.new_btc_slashing_tx_from_hex ud.slashing_tx_hex
    path ← b.unbonding_slashing_path unbonding_info
    traverse (enc_sign_for slash_unbonding_tx unbonding_msg_tx 0 (b.get_pk_script_path path) sk)
        d.fp_btc_pks

  -- Steps 2 to 4.
  unfoldable pub check_delegation :
      b.NetParams → StakingParams b → Delegation b → Undelegation b → Outcome (Checked b)
  check_delegation net p d ud = do
    check_unbonding_time p d
    (staking, slashing) ← check_staking net p d
    (unbonding, info) ← check_unbonding net p d ud
    ok (record {
      staking_msg_tx = staking;
      slashing_tx = slashing;
      unbonding_msg_tx = unbonding;
      unbonding_info = info;
    })

  -- Steps 5 to 8, from the private key on.
  unfoldable pub sign_delegation :
      b.NetParams
      → StakingParams b
      → b.PublicKey
      → Delegation b
      → Undelegation b
      → Checked b
      → b.PrivateKey
      → Outcome (CovenantSigs b)
  sign_delegation net p pk d ud c sk = do
    staking_info ← staking_info_of net p d
    slashing_sigs ← sign_slashing d staking_info c.staking_msg_tx c.slashing_tx sk
    unbonding_sig ← sign_unbonding d staking_info c.staking_msg_tx c.unbonding_msg_tx sk
    slashing_unbonding_sigs ← sign_unbonding_slashing d ud c.unbonding_info c.unbonding_msg_tx sk
    ok (record {
      public_key = pk;
      staking_tx_hash = b.tx_hash c.staking_msg_tx;
      slashing_sigs = slashing_sigs;
      unbonding_sig = unbonding_sig;
      slashing_unbonding_sigs = slashing_unbonding_sigs;
    })
